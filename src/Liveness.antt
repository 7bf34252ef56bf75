-- ===== src/Liveness.antt =====
-- internal/liveness/liveness.go: one pass of reachability checks, and what it records and sends. A
-- check is a function of the stored states and of what its surroundings did: the dial, the context,
-- the clock and the database. Instants have the precision of the database, a second.
pub mod Transitions
use almanaut.Base.{
  Bool, List, Option, String, [], bool_eq, if◌then◌else◌, list_eq, nat_eq, none, pair_eq, some,
  string_eq, ℕ, ◌++◌, ◌==◌, ◌∷◌,
}
use almanaut.Base.Assoc.{Assoc, insert, lookup}
use almanaut.Base.Text.{Text}
use almanaut.Inventory.{EntityRef, Host, Service}

pub record LivenessStatus : Type 0 where
  -- "up" or "down"
  pub status : String
  pub checked_at : ℕ
  pub changed_at : ℕ
  pub last_error : Text

abbrev pub liveness_up : String
liveness_up = "up"

abbrev pub liveness_down : String
liveness_down = "down"

-- The table `liveness_state`, under the entity's type and id.
abbrev pub States : Type 0
States = Assoc EntityRef LivenessStatus

pub record Target : Type 0 where
  pub entity_type : String
  pub id : ℕ
  pub label : Text
  pub addr : Text

abbrev pub ref_of : Target → EntityRef
ref_of t = (t.entity_type, t.id)

host_targets : List Host → List Target
host_targets [] = []
host_targets (h ∷ hosts) =
    let rest = host_targets hosts in
    if h.check_address == []
    then rest
    else record { entity_type = "host"; id = h.id; label = h.name; addr = h.check_address } ∷ rest

service_targets : List Service → List Target
service_targets [] = []
service_targets (s ∷ services) =
    let rest = service_targets services in
    if s.check_address == []
    then rest
    else record { entity_type = "service"; id = s.id; label = s.name; addr = s.check_address }
      ∷ rest

-- The targets of `Run`, in the order in which it dispatches them.
unfoldable pub targets : List Host → List Service → List Target
unfolding host_targets service_targets
targets hosts services = host_targets hosts ++ service_targets services

-- How a dial ends: reached, an error, or a panic, which `safeCheck` turns into a log line.
pub data Probe : Type 0 where
  reached panicked : Probe
  refused : Text → Probe

pub record Surroundings : Type 0 where
  pub probe : Probe
  -- The parent context has ended before the dial, or when it returns.
  pub ended_before : Bool
  pub ended_during : Bool
  -- The database fails to read, other than by finding no row, or to write.
  pub read_fails : Bool
  pub write_fails : Bool
  pub now : ℕ

-- What `notify` is called with; `status` tells the two messages apart.
pub record Notice : Type 0 where
  pub target : Target
  pub status : String
  pub last_error : Text

changed_since : Option LivenessStatus → String → ℕ → ℕ
changed_since none status now = now
changed_since (some prior) status now = if prior.status == status then prior.changed_at else now

transition : Option LivenessStatus → Target → String → Text → Option Notice
transition none t status last_error = none
transition (some prior) t status last_error =
    if prior.status == status
    then none
    else some (record { target = t; status = status; last_error = last_error })

-- The part of `check` after the dial.
record_result : States → Target → Surroundings → String → Text → States × Option Notice
unfolding changed_since transition
record_result states t w status last_error =
    if w.read_fails
    then (states, none)
    else (let prior = lookup (ref_of t) states in
        if w.write_fails then (states, none) else (
          insert (ref_of t)
              (record {
                status = status;
                checked_at = w.now;
                changed_at = changed_since prior status w.now;
                last_error = last_error;
              })
              states,
          transition prior t status last_error,
        ))

after_dial : States → Target → Surroundings → Probe → States × Option Notice
unfolding record_result
after_dial states t w panicked = (states, none)
after_dial states t w reached =
    if w.ended_during then (states, none) else record_result states t w liveness_up []
after_dial states t w (refused e) =
    if w.ended_during then (states, none) else record_result states t w liveness_down e

-- `safeCheck` around `check`.
unfoldable pub check : States → Target → Surroundings → States × Option Notice
unfolding after_dial
check states t w = if w.ended_before then (states, none) else after_dial states t w w.probe

abbrev pub prepend {ℓ} : {A : Type ℓ} → Option A → List A → List A
prepend none xs = xs
prepend (some x) xs = x ∷ xs

-- The checks of one pass, or of several, in the order in which their results are recorded.
unfoldable pub check_all : States → List (Target × Surroundings) → States × List Notice
check_all states [] = (states, [])
check_all states ((t, w) ∷ rest) =
    let (states', notice) = check states t w in
    let (end, later) = check_all states' rest in (end, prepend notice later)
