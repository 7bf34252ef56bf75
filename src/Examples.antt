-- ===== src/Examples.antt =====
-- Concrete inputs at which the theorems apply, and runs of the models.
mod Ports
mod Throttle
mod Totp
mod Webhooks
mod Portability
mod Access
mod Notify
mod Liveness
mod Jobs
mod Kuma
mod Elevation
mod Ipam
mod Impact
mod Resource
mod Agents
mod Login
mod Checks
