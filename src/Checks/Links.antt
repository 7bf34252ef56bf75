-- ===== src/Checks/Links.antt =====
-- The rules of internal/domain/audit.go and checks.go that look at relationships, against the
-- relation "is linked to" read off the relationships one by one.
use almanaut.Base.{
  Bool, Eq, List, String, [], any, arith, bool_eq, false, if◌then◌else◌, list_eq, nat_eq, not,
  pair_eq, refl, select, string_eq, true, ℕ, ◌&&◌, ◌==◌, ◌||◌, ◌∷◌, ◌≡◌,
}
use almanaut.Base.Assoc.{Assoc, insert, lookup, lookup-insert}
use almanaut.Inventory.{EntityRef, Host, Relationship, Service}
use almanaut.Checks.{
  IdSet, holds, hosts_without_backup, linked_refs, mark_linked, mark_refs, services_without_backup,
  services_without_host, unlinked_refs,
}

-- A relationship joins the entity to one of the other type, from either end.
abbrev pub joins : String → ℕ → String → Relationship → Bool
joins type id other r =
    (r.from_type == type && r.from_id == id && r.to_type == other)
    || (r.to_type == type && r.to_id == id && r.from_type == other)

holds-insert {ℓ} :
    {K : Type ℓ} ⦃e : Eq K⦄ (set : Assoc K Bool) (j k : K)
    → holds (insert j true set) k ≡ (j == k || holds set k)
holds-insert set j k = rw lookup-insert (ground arith)

-- One round of the loop.
abbrev marked : String → String → IdSet → Relationship → IdSet
marked type other set r =
    let forward =
      if r.from_type == type && r.to_type == other then insert r.from_id true set else set in
    if r.to_type == type && r.from_type == other then insert r.to_id true forward else forward

mark_step :
    (type other : String) (set : IdSet) (r : Relationship) (id : ℕ)
    → holds (marked type other set r) id ≡ (joins type id other r || holds set id)
mark_step type other set r id = ground (
  arith,
  holds-insert set r.from_id id,
  holds-insert set r.to_id id,
  holds-insert (insert r.from_id true set) r.to_id id,
)

mark_linked-any :
    (type other : String) (set : IdSet) (rels : List Relationship) (id : ℕ)
    → holds (mark_linked type other set rels) id ≡ (holds set id || any (joins type id other) rels)
unfolding mark_linked
mark_linked-any type other set [] id = ground arith
mark_linked-any type other set (r ∷ rels) id =
    rw (mark_linked-any type other (marked type other set r) rels id, mark_step type other set r id)
      (ground arith)

select_ext {ℓ} :
    {A : Type ℓ} (p q : A → Bool) (xs : List A) → ((a : A) → p a ≡ q a) → select p xs ≡ select q xs
select_ext p q [] h = refl
select_ext p q (x ∷ xs) h = rw (h x, select_ext p q xs h)

-- The health rules report, in their order, exactly the hosts that no relationship joins to a backup,
-- and the services that none joins to a backup, or to a host, whichever end of the relationship
-- they stand at.
pub unlinked_entities :
    (hosts : List Host) (services : List Service) (rels : List Relationship)
    → (hosts_without_backup hosts rels
        ≡ select (λ h. not (any (joins "host" h.id "backup") rels)) hosts)
      × (services_without_backup services rels
          ≡ select (λ s. not (any (joins "service" s.id "backup") rels)) services)
      × (services_without_host services rels
          ≡ select (λ s. not (any (joins "service" s.id "host") rels)) services)
unfolding hosts_without_backup services_without_backup services_without_host
unlinked_entities hosts services rels = (
  select_ext _ _ hosts (λ h. rw (mark_linked-any "host" "backup" [] rels h.id, no_id h.id)),
  select_ext _ _ services (λ s. rw (mark_linked-any "service" "backup" [] rels s.id, no_id s.id)),
  select_ext _ _ services (λ s. rw (mark_linked-any "service" "host" [] rels s.id, no_id s.id)),
)
  where
    no_id : (id : ℕ) → holds {K = ℕ} [] id ≡ false
    no_id id = unfold lookup in refl

-- An end of the relationship is the reference.
abbrev pub touches : EntityRef → Relationship → Bool
touches ref r = (r.from_type, r.from_id) == ref || (r.to_type, r.to_id) == ref

mark_refs-any :
    (linked : Assoc EntityRef Bool) (rels : List Relationship) (ref : EntityRef)
    → holds (mark_refs linked rels) ref ≡ (holds linked ref || any (touches ref) rels)
unfolding mark_refs
mark_refs-any linked [] ref = ground arith
mark_refs-any linked (r ∷ rels) ref =
    rw
      (
        mark_refs-any
            (insert (r.to_type, r.to_id) true (insert (r.from_type, r.from_id) true linked)) rels
            ref,
        holds-insert (insert (r.from_type, r.from_id) true linked) (r.to_type, r.to_id) ref,
        holds-insert linked (r.from_type, r.from_id) ref,
      )
      (ground arith)

-- The references that are reported as linked to nothing are, in their order, exactly those that are
-- at neither end of any relationship.
unlinked_refs-touches :
    (refs : List EntityRef) (rels : List Relationship)
    → unlinked_refs refs rels ≡ select (λ ref. not (any (touches ref) rels)) refs
unfolding unlinked_refs linked_refs
unlinked_refs-touches refs rels =
    select_ext _ _ refs λ ref. rw (mark_refs-any [] rels ref) (unfold lookup in refl)
