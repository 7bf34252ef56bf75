-- ===== src/Kuma/Confined.antt =====
-- Which of Kuma's monitors a pass of internal/kuma/syncer.go edits and deletes.
use almanaut.Base.Text.{Text}
use almanaut.Base.Assoc.{Assoc, has_key, lookup, retain}
use almanaut.Base.{
  All, Bool, List, Option, Option-cases, [], all, arith, bool_eq, contains, inl, inr, list_eq,
  nat_eq, none, not, pair_eq, refl, some, string_eq, true, ℕ, ◌&&◌, ◌++◌, ◌+◌, ◌∷◌, ◌≡◌,
}
use almanaut.Inventory.{Service}
use almanaut.Base.Sort.{sort_by, sort_by-All}
use almanaut.Kuma.{
  Action, Call, Fate, Mapping, Monitor, PassState, add_call, by_id, create, creations, delete_call,
  desire, edit, edit_call, forget, managed, perform, perform_all, plan, prepend_action, put_row,
  reconcile, remove, row_action,
}

-- The monitors of the mapping's rows.
abbrev pub monitor_ids : Mapping → List ℕ
monitor_ids [] = []
monitor_ids ((service, mid) ∷ rows) = mid ∷ monitor_ids rows

-- Every monitor that the calls edit or delete is known: it is one of the given ones, or an earlier
-- call added it.
abbrev pub touches_known : List ℕ → List Call → Bool
touches_known known [] = true
touches_known known (add_call m none ∷ calls) = touches_known known calls
touches_known known (add_call m (some id) ∷ calls) = touches_known (id ∷ known) calls
touches_known known (edit_call m answer ∷ calls) = contains known m.id && touches_known known calls
touches_known known (delete_call mid answer ∷ calls) =
    contains known mid && touches_known known calls

abbrev is_known : List ℕ → Action → Bool
is_known known (create service m) = true
is_known known (edit service m) = contains known m.id
is_known known (remove service mid) = contains known mid
is_known known (forget service) = true

abbrev all_known : List ℕ → List Action → Bool
all_known known actions = all (is_known known) actions

all_known-cons :
    (id : ℕ) (known : List ℕ) (actions : List Action)
    → all_known known actions ≡ true
    → all_known (id ∷ known) actions ≡ true
all_known-cons id known [] h = refl
all_known-cons id known (create service m ∷ actions) h = all_known-cons id known actions h
all_known-cons id known (edit service m ∷ actions) h =
    ground (arith, all_known-cons id known actions)
all_known-cons id known (remove service mid ∷ actions) h =
    ground (arith, all_known-cons id known actions)
all_known-cons id known (forget service ∷ actions) h = all_known-cons id known actions h

-- What is known after some calls.
abbrev known_after : List ℕ → List Call → List ℕ
known_after known [] = known
known_after known (add_call m (some id) ∷ calls) = known_after (id ∷ known) calls
known_after known (add_call m none ∷ calls) = known_after known calls
known_after known (edit_call m answer ∷ calls) = known_after known calls
known_after known (delete_call mid answer ∷ calls) = known_after known calls

all_known-known_after :
    (known : List ℕ) (calls : List Call) (actions : List Action)
    → all_known known actions ≡ true
    → all_known (known_after known calls) actions ≡ true
all_known-known_after known [] actions h = h
all_known-known_after known (add_call m (some id) ∷ calls) actions h =
    all_known-known_after (id ∷ known) calls actions (all_known-cons id known actions h)
all_known-known_after known (add_call m none ∷ calls) actions h =
    all_known-known_after known calls actions h
all_known-known_after known (edit_call m answer ∷ calls) actions h =
    all_known-known_after known calls actions h
all_known-known_after known (delete_call mid answer ∷ calls) actions h =
    all_known-known_after known calls actions h

touches_known-append :
    (known : List ℕ) (calls later : List Call)
    → touches_known known (calls ++ later)
      ≡ (touches_known known calls && touches_known (known_after known calls) later)
touches_known-append known [] later = refl
touches_known-append known (add_call m (some id) ∷ calls) later =
    touches_known-append (id ∷ known) calls later
touches_known-append known (add_call m none ∷ calls) later = touches_known-append known calls later
touches_known-append known (edit_call m answer ∷ calls) later =
    ground (arith, touches_known-append known calls later)
touches_known-append known (delete_call mid answer ∷ calls) later =
    ground (arith, touches_known-append known calls later)

touches_known-perform :
    (known : List ℕ) (st : PassState) (f : Fate) (a : Action)
    → is_known known a ≡ true
    → touches_known known (perform st f a).1 ≡ true
unfolding perform put_row
touches_known-perform known st f (create service m) h = elim (Option-cases f.added) [
  | inl refused ↦ rw refused
  | inr (id, taken) ↦ rw taken (ground arith)
]
touches_known-perform known st f (edit service m) h = ground arith
touches_known-perform known st f (remove service mid) h = ground arith
touches_known-perform known st f (forget service) h = refl

touches_known-perform_all :
    (fates : ℕ → Fate) (n : ℕ) (known : List ℕ) (st : PassState) (actions : List Action)
    → all_known known actions ≡ true
    → touches_known known (perform_all fates n st actions).1 ≡ true
unfolding perform_all
touches_known-perform_all fates n known st [] h = refl
touches_known-perform_all fates n known st (a ∷ actions) h =
    let (st', calls) = perform st (fates n) a in
    let first_calls : touches_known known calls ≡ true =
      touches_known-perform known st (fates n) a (ground arith) in
    let later =
      touches_known-perform_all fates (n + 1) (known_after known calls) st' actions
        (all_known-known_after known calls actions (ground arith)) in
    ground (
      arith,
      first_calls,
      later,
      touches_known-append known calls (perform_all fates (n + 1) st' actions).1,
    )

-- What is planned for a row touches only that row's monitor.
row_action-known :
    (known : List ℕ) (service mid : ℕ) (cur want : Option Monitor) (actions : List Action)
    → contains known mid ≡ true
    → all_known known actions ≡ true
    → all_known known (prepend_action (row_action service mid cur want) actions) ≡ true
row_action-known known service mid (some cur) (some want) actions h rest = ground arith
row_action-known known service mid none (some want) actions h rest = rest
row_action-known known service mid (some cur) none actions h rest = ground arith
row_action-known known service mid none none actions h rest = rest

managed-known :
    (known : List ℕ) (desired existing : Assoc ℕ Monitor) (rows : Mapping)
    → All (λ row. contains known row.1 ≡ true) rows
    → all_known known (managed desired existing rows) ≡ true
unfolding managed
managed-known known desired existing [] h = refl
managed-known known desired existing ((service, mid) ∷ rows) h =
    row_action-known known service mid (lookup mid existing) (lookup service desired) _ h.0
      (managed-known known desired existing rows h.1)

append-known :
    (known : List ℕ) (actions : List Action) (wanted : Assoc ℕ Monitor)
    → all_known known actions ≡ true
    → all_known known (actions ++ creations wanted) ≡ true
unfolding creations
append-known known [] [] h = refl
append-known known [] ((service, want) ∷ rest) h = append-known known [] rest refl
append-known known (a ∷ actions) wanted h = ground (arith, append-known known actions wanted)

monitor_ids-All :
    (extra : List ℕ) (rows : Mapping)
    → ((mid : ℕ) → contains (monitor_ids rows) mid ≡ true → contains extra mid ≡ true)
    → All (λ row. contains extra row.1 ≡ true) rows
monitor_ids-All extra [] h = tt
monitor_ids-All extra ((service, mid) ∷ rows) h =
    (h mid (ground arith), monitor_ids-All extra rows λ other there. h other (ground arith))

plan-known :
    (parse_url : Text → Option (Text × Text)) (services : List Service) (mapping : Mapping)
    (existing : Assoc ℕ Monitor)
    → all_known (monitor_ids mapping) (plan parse_url services mapping existing).0 ≡ true
unfolding plan
plan-known parse_url services mapping existing =
    let ids = monitor_ids mapping in
    let desired = desire parse_url services [] in
    let rows = sort_by by_id mapping in
    let wanted = sort_by by_id (retain (λ service want. not (has_key service mapping)) desired) in
    append-known ids (managed desired existing rows) wanted (
      managed-known ids desired existing rows (
        sort_by-All (λ row. contains ids row.1 ≡ true) by_id mapping
          (monitor_ids-All ids mapping λ mid there. there)))

-- Whatever Kuma answers and whatever fails, a pass edits and deletes only monitors that a row of the
-- mapping names when it begins, or that the pass itself added before: a monitor that someone else
-- made in Kuma is never touched.
pub reconcile-touches_known :
    (parse_url : Text → Option (Text × Text)) (fates : ℕ → Fate) (services : List Service)
    (mapping : Mapping) (existing : Assoc ℕ Monitor)
    → touches_known (monitor_ids mapping) (reconcile parse_url fates services mapping existing).1
      ≡ true
unfolding reconcile
reconcile-touches_known parse_url fates services mapping existing =
    touches_known-perform_all fates 0 (monitor_ids mapping) _
      (plan parse_url services mapping existing).0 (plan-known parse_url services mapping existing)
