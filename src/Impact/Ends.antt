-- ===== src/Impact/Ends.antt =====
-- The search of internal/store/impact.go ends: a node enters the queue at most once.
use almanaut.Base.{
  Bool, Bool-cases, List, [], any, arith, beq_refl, bool_eq, contains, false, inl, inr, length,
  length-append, list_eq, nat_eq, not, pair_beq_iff, pair_eq, select, string_eq, true, ℕ, ◌+◌, ◌<◌,
  ◌==◌, ◌∷◌, ◌≡◌, ◌≤◌,
}
use almanaut.Base.Assoc.{Assoc, insert}
use almanaut.Inventory.{EntityRef, Relationship}
use almanaut.Checks.{holds}
use almanaut.Impact.{Found, add_found, from_ref, visit}
use almanaut.Impact.Search.{holds-insert, visit_cons, visit_one_new, visit_one_old}

-- The relationships whose dependent is not yet visited.
abbrev pub unvisited : Assoc EntityRef Bool → List Relationship → ℕ
unvisited visited rels = length (select (λ r. not (holds visited (from_ref r))) rels)

unvisited-insert :
    (visited : Assoc EntityRef Bool) (dep : EntityRef) (rels : List Relationship)
    → unvisited (insert dep true visited) rels ≤ unvisited visited rels
unvisited-insert visited dep [] = omega arith
unvisited-insert visited dep (r ∷ rels) =
    ground (arith, unvisited-insert visited dep rels, holds-insert visited dep (from_ref r))

unvisited_falls :
    (visited : Assoc EntityRef Bool) (dep : EntityRef) (rels : List Relationship)
    → any (λ r. from_ref r == dep) rels ≡ true
    → holds visited dep ≡ false
    → unvisited (insert dep true visited) rels < unvisited visited rels
unvisited_falls visited dep [] there new = absurd (cc there)
unvisited_falls visited dep (r ∷ rels) there new = elim (Bool-cases (from_ref r == dep)) [
  | inl same ↦
      let e : from_ref r ≡ dep = (pair_beq_iff (from_ref r) dep).0 same in
      rw e (
        ground
          (arith, unvisited-insert visited dep rels, holds-insert visited dep dep, beq_refl dep))
  | inr other ↦
      ground (arith, unvisited_falls visited dep rels, holds-insert visited dep (from_ref r))
]

-- The nodes that are still to come, in the queue or not yet in it.
abbrev pub to_come : List Relationship → Found → ℕ
to_come rels st = length st.queue + unvisited st.visited rels

pub visit-to_come :
    (rels : List Relationship) (deps : List EntityRef) (st : Found)
    → ((k : EntityRef) → contains deps k ≡ true → any (λ r. from_ref r == k) rels ≡ true)
    → to_come rels (visit deps st) ≤ to_come rels st
visit-to_come rels [] st h = unfold visit in omega arith
visit-to_come rels (dep ∷ deps) st h =
    let there : any (λ r. from_ref r == dep) rels ≡ true = h dep (ground (arith, beq_refl dep)) in
    let rest = λ (k : EntityRef) (c : contains deps k ≡ true). h k (ground arith) in
    elim (Bool-cases (holds st.visited dep)) [
      | inl old ↦
          rw (visit_cons dep deps st, visit_one_old dep st old) (visit-to_come rels deps st rest)
      | inr new ↦
          rw (visit_cons dep deps st, visit_one_new dep st new)
            (omega (
              arith,
              visit-to_come rels deps (add_found dep st) rest,
              unvisited_falls st.visited dep rels there new,
              length-append st.queue (dep ∷ []),
            ))
    ]
