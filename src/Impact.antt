-- ===== src/Impact.antt =====
-- internal/store/impact.go and the relationship kinds of internal/domain/relationship.go: what
-- depends on an entity, found by a breadth-first search. The search takes fuel, one for each node
-- that it takes from its queue. A node's key, "type:id" in the code, is the reference itself.
pub mod Search
pub mod Ends
pub mod Reach
use almanaut.Base.{
  Bool, List, Option, String, [], bool_eq, contains, if◌then◌else◌, list_eq, nat_eq, none, pair_eq,
  some, string_eq, suc, true, zero, ℕ, ◌++◌, ◌∷◌,
}
use almanaut.Base.Assoc.{Assoc, insert, lookup}
use almanaut.Inventory.{EntityRef, Relationship}
use almanaut.Checks.{holds}

abbrev pub dependency_kinds : List String
dependency_kinds = "runs on" ∷ "connected to" ∷ "exposed via" ∷ "secured by" ∷ "depends on" ∷ []

unfoldable pub is_dependency_kind : String → Bool
is_dependency_kind kind = contains dependency_kinds kind

abbrev pub from_ref : Relationship → EntityRef
from_ref r = (r.from_type, r.from_id)

abbrev pub to_ref : Relationship → EntityRef
to_ref r = (r.to_type, r.to_id)

abbrev pub dependents {ℓ} : {A : Type ℓ} → Option (List A) → List A
dependents none = []
dependents (some refs) = refs

-- The dependency edges by the end that is depended on.
unfoldable pub index_edges :
    Assoc EntityRef (List EntityRef) → List Relationship → Assoc EntityRef (List EntityRef)
unfolding is_dependency_kind
index_edges index [] = index
index_edges index (r ∷ rels) =
    index_edges
      (if is_dependency_kind r.kind
        then insert (to_ref r) (dependents (lookup (to_ref r) index) ++ from_ref r ∷ []) index
        else index)
      rels

pub record Found : Type 0 where
  pub visited : Assoc EntityRef Bool
  pub result : List EntityRef
  pub queue : List EntityRef

abbrev pub add_found : EntityRef → Found → Found
add_found dep st = record {
  visited = insert dep true st.visited;
  result = st.result ++ dep ∷ [];
  queue = st.queue ++ dep ∷ [];
}

unfoldable pub visit_one : EntityRef → Found → Found
visit_one dep st = if holds st.visited dep then st else add_found dep st

-- The inner loop.
unfoldable pub visit : List EntityRef → Found → Found
unfolding visit_one
visit [] st = st
visit (dep ∷ deps) st = visit deps (visit_one dep st)

-- The outer loop. `none` stands for fuel that ran out.
unfoldable pub search_from :
    Assoc EntityRef (List EntityRef)
    → ℕ
    → Assoc EntityRef Bool
    → List EntityRef
    → List EntityRef
    → Option (List EntityRef)
search_from index zero visited result [] = some result
search_from index zero visited result (cur ∷ queue) = none
search_from index (suc fuel) visited result [] = some result
search_from index (suc fuel) visited result (cur ∷ queue) =
    let st =
      visit (dependents (lookup cur index))
        (record { visited = visited; result = result; queue = queue }) in
    search_from index fuel st.visited st.result st.queue

unfoldable pub impact : ℕ → List Relationship → EntityRef → Option (List EntityRef)
unfolding index_edges search_from visit
impact fuel rels start =
    search_from (index_edges [] rels) fuel (insert start true []) [] (start ∷ [])
