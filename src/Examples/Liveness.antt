-- ===== src/Examples/Liveness.antt =====
-- Inputs for the theorem on internal/liveness/liveness.go.
use almanaut.Base.{
  List, [], bool_eq, false, list_eq, nat_eq, pair_eq, refl, string_eq, true, ℕ, ◌∷◌, ◌≡◌,
}
use almanaut.Base.Text.{text_of}
use almanaut.Base.Assoc.{insert, lookup}
use almanaut.Inventory.{EntityRef}
use almanaut.Liveness.{
  LivenessStatus, Probe, Surroundings, Target, check, check_all, panicked, reached, refused,
}
use almanaut.Liveness.Transitions.{changes, notified, notified-eq-changes, observations, status_of}

abbrev nas : Target
nas = record { entity_type = "host"; id = 1; label = text_of "nas"; addr = text_of "nas:22" }

abbrev web : Target
web = record { entity_type = "service"; id = 1; label = text_of "web"; addr = text_of "web:80" }

abbrev at : ℕ → Probe → Surroundings
at now probe = record {
  probe = probe;
  ended_before = false;
  ended_during = false;
  read_fails = false;
  write_fails = false;
  now = now;
}

abbrev day : List (Target × Surroundings)
day =
    (nas, at 1 reached)
    ∷ (web, at 1 (refused (text_of "no route")))
    ∷ (nas, at 2 panicked)
    ∷ (nas, at 3 (refused (text_of "timeout")))
    ∷ (nas, record (at 4 reached) { ended_during = true })
    ∷ (nas, at 5 (refused (text_of "timeout")))
    ∷ (nas, at 6 reached)
    ∷ []

notified-eq-changes_example :
    notified ("host", 1) (check_all [] day).1
    ≡ changes
        (status_of (lookup {K = EntityRef} {V = LivenessStatus} ("host", 1) []))
        (observations ("host", 1) day)
notified-eq-changes_example = notified-eq-changes [] day ("host", 1)

-- The run: one message that it is down, and one that it is back.
notices : notified ("host", 1) (check_all [] day).1 ≡ "down" ∷ "up" ∷ []
unfolding check_all check lookup insert
notices = refl
