-- ===== src/Impact/Search.antt =====
-- One round of the search of internal/store/impact.go: what the inner loop adds.
use almanaut.Base.{
  Bool, Bool-cases, List, [], any, arith, beq_refl, bool_eq, contains, contains-append, false,
  if◌then◌else◌, inl, inr, is_nodup, list_eq, nat_eq, not, pair_beq_iff, pair_eq, refl, string_eq,
  sym, true, ◌&&◌, ◌++◌, ◌==◌, ◌||◌, ◌∙◌, ◌∷◌, ◌≡◌,
}
use almanaut.Base.Assoc.{Assoc, insert, lookup, lookup-insert}
use almanaut.Inventory.{EntityRef, Relationship}
use almanaut.Checks.{holds}
use mathlib.Core.List.{append-nil, append_assoc}
use almanaut.Impact.{
  Found, add_found, dependents, from_ref, index_edges, is_dependency_kind, to_ref, visit, visit_one,
}

-- `x` depends on `y` by one relationship.
abbrev pub edge : EntityRef → EntityRef → Relationship → Bool
edge x y r = is_dependency_kind r.kind && from_ref r == x && to_ref r == y

abbrev pub needs : List Relationship → EntityRef → EntityRef → Bool
needs rels x y = any (edge x y) rels

abbrev pub indexed : Assoc EntityRef (List EntityRef) → EntityRef → List EntityRef
indexed index y = dependents (lookup y index)

pub indexed-index_edges :
    (index : Assoc EntityRef (List EntityRef)) (rels : List Relationship) (x y : EntityRef)
    → contains (indexed (index_edges index rels) y) x
      ≡ (contains (indexed index y) x || needs rels x y)
unfolding index_edges
indexed-index_edges index [] x y = ground arith
indexed-index_edges index (r ∷ rels) x y = elim (Bool-cases (is_dependency_kind r.kind)) [
  | inl counts ↦
      let added = indexed index (to_ref r) ++ from_ref r ∷ [] in
      rw
        (
          counts,
          indexed-index_edges (insert (to_ref r) added index) rels x y,
          lookup-insert (to_ref r) y added index,
        )
        (ground (
          arith,
          contains-append (indexed index (to_ref r)) (from_ref r ∷ []) x,
          pair_beq_iff (to_ref r) y,
        ))
  | inr other ↦ rw (other, indexed-index_edges index rels x y)
]

-- The dependents that are new, in order.
abbrev pub fresh : Assoc EntityRef Bool → List EntityRef → List EntityRef
fresh visited [] = []
fresh visited (dep ∷ deps) =
    if holds visited dep then fresh visited deps else dep ∷ fresh (insert dep true visited) deps

pub holds-insert :
    (visited : Assoc EntityRef Bool) (j k : EntityRef)
    → holds (insert j true visited) k ≡ (j == k || holds visited k)
holds-insert visited j k = rw lookup-insert (ground arith)

pub contains-fresh :
    (visited : Assoc EntityRef Bool) (deps : List EntityRef) (k : EntityRef)
    → contains (fresh visited deps) k ≡ (contains deps k && not (holds visited k))
contains-fresh visited [] k = refl
contains-fresh visited (dep ∷ deps) k = ground (
  arith,
  contains-fresh visited deps k,
  contains-fresh (insert dep true visited) deps k,
  holds-insert visited dep k,
  pair_beq_iff dep k,
)

pub fresh-is_nodup :
    (visited : Assoc EntityRef Bool) (deps : List EntityRef) → is_nodup (fresh visited deps) ≡ true
fresh-is_nodup visited [] = refl
fresh-is_nodup visited (dep ∷ deps) = ground (
  arith,
  fresh-is_nodup visited deps,
  fresh-is_nodup (insert dep true visited) deps,
  contains-fresh (insert dep true visited) deps dep,
  holds-insert visited dep dep,
  beq_refl dep,
)

pub visit_cons :
    (dep : EntityRef) (deps : List EntityRef) (st : Found)
    → visit (dep ∷ deps) st ≡ visit deps (visit_one dep st)
unfolding visit
visit_cons dep deps st = refl

pub visit_one_old :
    (dep : EntityRef) (st : Found) → holds st.visited dep ≡ true → visit_one dep st ≡ st
unfolding visit_one
visit_one_old dep st h = rw h

pub visit_one_new :
    (dep : EntityRef) (st : Found)
    → holds st.visited dep ≡ false
    → visit_one dep st ≡ add_found dep st
unfolding visit_one
visit_one_new dep st h = rw h

-- What the inner loop appends to the queue, it appends to the result too.
pub visit-fresh :
    (deps : List EntityRef) (st : Found)
    → ((visit deps st).queue ≡ st.queue ++ fresh st.visited deps)
      × ((visit deps st).result ≡ st.result ++ fresh st.visited deps)
visit-fresh [] st = unfold visit in (sym (append-nil st.queue), sym (append-nil st.result))
visit-fresh (dep ∷ deps) st = elim (Bool-cases (holds st.visited dep)) [
  | inl old ↦ rw (visit_cons dep deps st, visit_one_old dep st old, old) (visit-fresh deps st)
  | inr new ↦
      rw (visit_cons dep deps st, visit_one_new dep st new, new)
        (let (queued, found) = visit-fresh deps (add_found dep st) in
          let later = fresh (insert dep true st.visited) deps in
          (
            queued ∙ append_assoc st.queue (dep ∷ []) later,
            found ∙ append_assoc st.result (dep ∷ []) later,
          ))
]

pub holds-visit :
    (deps : List EntityRef) (st : Found) (k : EntityRef)
    → holds (visit deps st).visited k ≡ (holds st.visited k || contains deps k)
holds-visit [] st k = unfold visit in ground arith
holds-visit (dep ∷ deps) st k = elim (Bool-cases (holds st.visited dep)) [
  | inl old ↦
      rw (visit_cons dep deps st, visit_one_old dep st old, holds-visit deps st k)
        (ground (arith, pair_beq_iff dep k))
  | inr new ↦
      rw
        (
          visit_cons dep deps st,
          visit_one_new dep st new,
          holds-visit deps (add_found dep st) k,
          holds-insert st.visited dep k,
        )
        (ground arith)
]
