-- ===== src/Kuma/Rows.antt =====
-- What the rows of the mapping name after a pass of internal/kuma/syncer.go.
use almanaut.Base.{
  Bool, Bool-cases, List, Option, Option-cases, [], arith, bool_eq, false, inl, inr, list_eq,
  nat_eq, none, pair_eq, refl, some, string_eq, true, ℕ, ◌++◌, ◌+◌, ◌==◌, ◌||◌, ◌∷◌, ◌≡◌, ◌⊎◌,
}
use almanaut.Base.Assoc.{Assoc, lookup, lookup-delete, lookup-insert}
use almanaut.Base.Text.{Text}
use almanaut.Inventory.{Service}
use almanaut.Kuma.{
  Action, Call, Fate, Mapping, Monitor, PassState, add_call, create, delete_call, edit, edit_call,
  forget, perform, perform_all, plan, put_row, reconcile, remove,
}

-- Kuma answered one of the calls with the new monitor's id.
abbrev pub adds : ℕ → List Call → Bool
adds id [] = false
adds id (add_call m none ∷ calls) = adds id calls
adds id (add_call m (some new) ∷ calls) = new == id || adds id calls
adds id (edit_call m answer ∷ calls) = adds id calls
adds id (delete_call mid answer ∷ calls) = adds id calls

adds-append :
    (id : ℕ) (calls later : List Call) → adds id (calls ++ later) ≡ (adds id calls || adds id later)
adds-append id [] later = refl
adds-append id (add_call m none ∷ calls) later = adds-append id calls later
adds-append id (add_call m (some new) ∷ calls) later = ground (arith, adds-append id calls later)
adds-append id (edit_call m answer ∷ calls) later = adds-append id calls later
adds-append id (delete_call mid answer ∷ calls) later = adds-append id calls later

perform-rows :
    (st : PassState) (f : Fate) (a : Action) (service id : ℕ)
    → lookup service (perform st f a).0.mapping ≡ some id
    → (lookup service st.mapping ≡ some id) ⊎ (adds id (perform st f a).1 ≡ true)
unfolding perform put_row
perform-rows st f (create own m) service id h = elim (Option-cases f.added) [
  | inl refused ↦ inl (rw refused at h)
  | inr (new, taken) ↦ elim (Bool-cases f.writes) [
    | inl written ↦ elim (Bool-cases (own == service)) [
      | inl same ↦ inr (rw taken (ground (arith, lookup-insert own service new st.mapping)))
      | inr other ↦ inl (ground (arith, lookup-insert own service new st.mapping))
    ]
    | inr lost ↦ inl (rw (taken, lost) at h)
  ]
]
perform-rows st f (edit own m) service id h = inl (ground arith)
perform-rows st f (remove own mid) service id h =
    inl (ground (arith, lookup-delete own service st.mapping))
perform-rows st f (forget own) service id h =
    inl (ground (arith, lookup-delete own service st.mapping))

perform_all-rows :
    (fates : ℕ → Fate) (n : ℕ) (st : PassState) (actions : List Action) (service id : ℕ)
    → lookup service (perform_all fates n st actions).0.mapping ≡ some id
    → (lookup service st.mapping ≡ some id) ⊎ (adds id (perform_all fates n st actions).1 ≡ true)
unfolding perform_all lookup perform
perform_all-rows fates n st [] service id h = inl h
perform_all-rows fates n st (a ∷ actions) service id h =
    let (st', calls) = perform st (fates n) a in
    let later = (perform_all fates (n + 1) st' actions).1 in
    elim (Bool-cases (fates n).ended) [
      | inl over ↦ inl (rw over at h)
      | inr running ↦ elim (Bool-cases st'.summary.failed) [
        | inl failing ↦
            rw (running, failing)
              (perform-rows st (fates n) a service id (rw (running, failing) at h))
        | inr going ↦
            rw (running, going)
              (elim (perform_all-rows fates (n + 1) st' actions service id
                (rw (running, going) at h)) [
                  | inl kept ↦ elim (perform-rows st (fates n) a service id kept) [
                    | inl old ↦ inl old
                    | inr new ↦ inr (ground (arith, adds-append id calls later))
                  ]
                  | inr new ↦ inr (ground (arith, adds-append id calls later))
                ])
      ]
    ]

-- However a pass ends, each row of the mapping is one that was there before or names a monitor that
-- Kuma said, in this pass, that it had added.
pub reconcile-rows :
    (parse_url : Text → Option (Text × Text)) (fates : ℕ → Fate) (services : List Service)
    (mapping : Mapping) (existing : Assoc ℕ Monitor) (service id : ℕ)
    → let (end, calls) = reconcile parse_url fates services mapping existing in
      lookup service end.mapping ≡ some id
      → (lookup service mapping ≡ some id) ⊎ (adds id calls ≡ true)
unfolding reconcile
reconcile-rows parse_url fates services mapping existing service id h =
    perform_all-rows fates 0 _ (plan parse_url services mapping existing).0 service id h
