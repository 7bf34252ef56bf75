-- ===== src/Lib.antt =====
-- Almanaut: an inventory of hosts, hardware, networks and services with a web interface and an API.
--
-- The program is one Go server. Package internal/domain holds the entities and the pure rules on
-- them; internal/store keeps them in SQLite, one repository per table; internal/web serves pages and
-- the API and guards both; and background jobs (internal/notify, internal/liveness and discovery) run
-- in the loops of internal/job, beside the synchronisation with Uptime Kuma (internal/kuma). The
-- development models each of these parts as functions on explicit states:
--
-- - Base: the shared helpers. Base.Assoc is a Go map or an SQL table, an association list with
--   unique keys where a theorem asks for them; Base.Text is a Go string as code points; Base.Result is
--   an operation that returns an error.
-- - Ports: `Create`, `Update`, `checkNIC`, `connect` and `Delete` of internal/store/port_repo.go,
--   `Create`, `Update` and `Delete` of internal/store/nic_repo.go, and `Validate` of
--   internal/domain/port.go, as functions on the two tables. A transaction that fails is an error
--   without a state. The children are about the cables that connecting leaves (Cables), about when it
--   is refused (Cables/Accepts), about writing a port back (Cables/ReadBack), about the cards that
--   ports are on (Cables/Cards, Cables/Cards/Calls) and about deletion (Removal).
-- - Throttle: internal/web/throttle.go, every method of `loginThrottle`. The mutex makes each method
--   one step, so a history is a list of calls. Lockout is about one user's failures, History about
--   any calls.
-- - Totp: internal/domain/totp.go (`hotp`, `TOTPCode`, `MatchTOTP`, `VerifyTOTP`); Totp/Store:
--   internal/store/totp_repo.go, every operation; Totp/Factor: the handlers `setup2FA`, `confirm2FA` and
--   `disable2FA` and `verifySecondFactor` of internal/web/totp.go. HMAC-SHA1, base32 and the letter
--   cases of Unicode are parameters, as are the random secrets and codes.
-- - Login: the sessions of internal/store/session_repo.go and `safeNext` of internal/web/auth.go;
--   Login/Handlers: `login` and `logout` of internal/web/auth.go, `verify2FA` and `resetUser2FA` of totp.go
--   and `revokeSessions` of users.go there, on the throttle, the second factors and the sessions.
--   Grants is about the sessions that a password opens, Factor about those that a second factor opens.
--   bcrypt, SHA-256 and the tokens that are drawn are parameters.
-- - Access: internal/domain/access.go, the middleware of internal/web/authz.go, `apiAuth` of
--   internal/web/auth.go, and the two API groups of `New` in internal/web/server.go.
-- - Inventory and Checks: the entities of internal/domain with the fields that the rules read, and
--   the rules of checks.go, audit.go, dates.go and stale.go there. Checks/Links is about the rules on
--   relationships and Checks/Expiry about dates. `time.Parse` and `AddDate` are parameters.
-- - Notify: internal/notify/notify.go and the sender of internal/notify/multi.go, on the table of
--   internal/store/notification_repo.go. It takes what expires from Checks. What each channel answers
--   and which calls of `Clear` and `Mark` fail are parameters of each pass. Sends is about the loops of
--   a pass, Passes about passes.
-- - Liveness: internal/liveness/liveness.go, `check` and the targets of `Run`. How a dial ends, the
--   context, the clock and the database are parameters of each check.
-- - Jobs: internal/job/job.go, with a job's loop as a step function on its phase.
-- - Kuma: `plan` of internal/kuma/reconcile.go, `monitorURL` of kuma.go and `reconcile` of syncer.go
--   there, on the table of internal/store/kuma_repo.go. Kuma itself is not modelled: a pass yields its
--   calls and their answers. Plan is about when there is nothing to do, Confined about which monitors
--   are touched, Rows about what the mapping names. `url.Parse` is a parameter.
-- - Impact: internal/store/impact.go, the breadth-first search for what depends on an entity, and the
--   kinds of internal/domain/relationship.go that count. Search is about its rounds, Ends about how
--   many there are, Reach about what it finds.
-- - Resource: the entity transactions of internal/web/resource.go (Transactions), the bulk actions of
--   internal/web/bulk.go (Bulk), and `Diff` of internal/domain/changelog.go (Diff), on the tables of one
--   kind of entity and the tables beside it. Changes is about `Diff`, History about the changelog and
--   the webhook events, Removal and Selection about deletion. The entity's fields, its checks,
--   what `encoding/json` makes of it and what the deletion of a row does to the other rows of its table
--   are parameters. The ports that lose their NIC with a deleted NIC are another table's, see Ports.
-- - Agents: the reports of the agents on the hosts. Agents/Resolve: internal/agentapi and
--   internal/web/agent_merge.go; Agents/Store: internal/store/agent_repo.go; Agents/Hosts: `Validate` of
--   internal/domain/host.go; Agents/Reporting: `agentReport` of internal/web/agent.go and `unbindAgent` of
--   agent_unbind.go there. The hosts are a Resource, so that a report goes through the same
--   transactions as the pages. Bindings, Saving, Aims, Owners, Invariant, Removal and Requests are
--   about who reports for which host, Conflicts about clones, History about the reports that are kept.
--   Package `net` is a parameter.
-- - Elevation: internal/web/elevation.go, whole. Overlaps is about the flags, Rows about the grid.
-- - Ipam: `attribute` of internal/domain/ipam.go, the longest-prefix rule (Attribution), and
--   `overlappingNetworks` and `NetworkOverlaps` of ipam_conflicts.go there (Overlaps). Package `net` is a
--   parameter.
-- - Webhooks: internal/domain/webhook.go and internal/store/webhook_repo.go; Webhooks/Admin: the forms
--   of internal/web/webhooks_admin.go; Webhooks/Queue: the delivery queue of internal/webhook. Filters
--   and ReadBack are about the columns, Registry about the table as an implementation of a plain map
--   of endpoints. The queue's goroutines, timers and channels are a step relation: a channel is a
--   list, the wait group a number, and what `ListEnabled`, the random generator and the receivers
--   answer is the environment's choice. Queue/Counts is about the wait group, Queue/Drains about
--   `Wait`, Queue/Owed and Queue/Posts about the requests. The events are those of Resource. JSON and
--   HMAC are parameters.
-- - Portability: internal/store/portability.go. Portability/Import has `Export` and `Import` on a
--   database, the parent their checks and repairs. Links is about `pairPortLinks`, Cabling about the
--   ports after an import, Whole about references, RoundTrip about an export that is imported. The
--   columns of the entities that the code only carries are a parameter, and so are `Validate` and the
--   constraints of the tables. What SQLite deletes by cascade, the agents' bindings and reports, is
--   left out.
-- - Examples: concrete inputs for the theorems, and runs of the models.
--
-- Ids, counts, durations and instants are natural numbers without a bound; 64-bit overflow is out
-- of reach of what the program stores. `pow10` keeps its 32 bits. Subtraction stops at 0, which no
-- run of the code reaches: a lock's end is compared first, a pass ends after it began, the rows of
-- a rack are clamped first, and the step before an instant asks for an instant of 30 seconds or
-- more. The backoff of a delivery keeps its 64 bits. Only the search of Impact takes fuel, and one
-- round more than there are relationships is enough; every other recursion is on a list or on a number
-- of digits.
--
-- Not modelled: HTML pages, templates and request parsing, SQL text and the failures of the database
-- and the network other than those named above, the other repositories, the agent's collection of
-- facts, certificate probes, discovery, the configuration, and the clients of third-party services.
pub mod Base
pub mod Throttle
pub mod Ports
pub mod Totp
pub mod Access
pub mod Inventory
pub mod Checks
pub mod Impact
pub mod Resource
pub mod Agents
pub mod Login
pub mod Notify
pub mod Liveness
pub mod Jobs
pub mod Kuma
pub mod Elevation
pub mod Ipam
pub mod Webhooks
pub mod Portability
pub mod Examples
