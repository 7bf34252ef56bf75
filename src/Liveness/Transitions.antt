-- ===== src/Liveness/Transitions.antt =====
-- When internal/liveness/liveness.go notifies.
use almanaut.Base.Text.{Text}
use almanaut.Base.{
  Bool, List, Option, Option-cases, String, [], arith, bool_eq, false, if◌then◌else◌, inl, inr,
  list_eq, nat_eq, none, not, pair_beq_iff, pair_eq, refl, some, string_eq, ◌==◌, ◌||◌, ◌∷◌, ◌≡◌,
}
use almanaut.Base.Assoc.{insert, lookup, lookup-insert}
use almanaut.Inventory.{EntityRef}
use almanaut.Liveness.{
  LivenessStatus, Notice, Probe, States, Surroundings, Target, changed_since, check, check_all,
  liveness_down, liveness_up, panicked, prepend, reached, ref_of, refused, transition,
}

-- The status that a check records, if it records one.
abbrev dialled : Probe → Option String
dialled reached = some liveness_up
dialled (refused e) = some liveness_down
dialled panicked = none

abbrev pub observed : Surroundings → Option String
observed w =
    if w.ended_before || w.ended_during || w.read_fails || w.write_fails
    then none
    else dialled w.probe

abbrev pub status_of : Option LivenessStatus → Option String
status_of none = none
status_of (some s) = some s.status

-- The recorded statuses of one entity, oldest first.
abbrev pub observations : EntityRef → List (Target × Surroundings) → List String
observations ref [] = []
observations ref ((t, w) ∷ rest) =
    if ref_of t == ref then prepend (observed w) (observations ref rest) else observations ref rest

-- The statuses of the notices about one entity.
abbrev pub notified : EntityRef → List Notice → List String
notified ref [] = []
notified ref (n ∷ ns) =
    if ref_of n.target == ref then n.status ∷ notified ref ns else notified ref ns

abbrev differs : Option String → String → Bool
differs none s = false
differs (some p) s = not (p == s)

-- The statuses that differ from the one before them; the first has none before it.
abbrev pub changes : Option String → List String → List String
changes prior [] = []
changes prior (s ∷ ss) = if differs prior s then s ∷ changes (some s) ss else changes (some s) ss

abbrev observed_of : EntityRef → Target → Surroundings → Option String
observed_of ref t w = if ref_of t == ref then observed w else none

abbrev or_prior : Option String → Option String → Option String
or_prior none prior = prior
or_prior (some s) prior = some s

check_unrecorded :
    (states : States) (t : Target) (w : Surroundings)
    → observed w ≡ none
    → check states t w ≡ (states, none)
unfolding check
check_unrecorded states t w h = ground arith

abbrev dial_error : Probe → Text
dial_error reached = []
dial_error panicked = []
dial_error (refused e) = e

abbrev recorded : States → Target → Surroundings → String → LivenessStatus
recorded states t w s = record {
  status = s;
  checked_at = w.now;
  changed_at = changed_since (lookup (ref_of t) states) s w.now;
  last_error = dial_error w.probe;
}

check-recorded :
    (states : States) (t : Target) (w : Surroundings) (s : String)
    → observed w ≡ some s
    → check states t w ≡ (
      insert (ref_of t) (recorded states t w s) states,
      transition (lookup (ref_of t) states) t s (dial_error w.probe),
    )
unfolding check
check-recorded states t w s h = ground arith

-- The notices about an entity go with the changes of its status.
notified-check :
    (states : States) (t : Target) (w : Surroundings) (ref : EntityRef) (later : List Notice)
    (ss : List String)
    → notified ref later ≡ changes (status_of (lookup ref (check states t w).0)) ss
    → notified ref (prepend (check states t w).1 later)
      ≡ changes
          (status_of (lookup ref states))
          (if ref_of t == ref then prepend (observed w) ss else ss)
unfolding transition
notified-check states t w ref later ss h = elim (Option-cases (observed w)) [
  | inl unseen ↦
      rw (check_unrecorded states t w unseen, unseen)
        (ground (arith, check_unrecorded states t w unseen))
  | inr (s, seen) ↦
      rw (check-recorded states t w s seen, seen)
        (ground (
          arith,
          check-recorded states t w s seen,
          lookup-insert (ref_of t) ref (recorded states t w s) states,
          pair_beq_iff (ref_of t) ref,
        ))
]

-- The notices about an entity are exactly the changes of its recorded status, in order: one for each
-- observation that differs from the one before it, and none for the first ever. Checks that are cut
-- off, that panic or whose result is not recorded count as no observation, and checks of other
-- entities play no part.
pub notified-eq-changes :
    (states : States) (checks : List (Target × Surroundings)) (ref : EntityRef)
    → notified ref (check_all states checks).1
      ≡ changes (status_of (lookup ref states)) (observations ref checks)
unfolding check_all
notified-eq-changes states [] ref = refl
notified-eq-changes states ((t, w) ∷ rest) ref =
    notified-check states t w ref _ (observations ref rest)
      (notified-eq-changes (check states t w).0 rest ref)
