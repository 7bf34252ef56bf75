-- ===== src/Impact/Reach.antt =====
-- The search of internal/store/impact.go finds what depends on an entity, and it ends.
use almanaut.Base.{
  Bool, Bool-cases, List, [], any, arith, beq_refl, bool_eq, contains, contains-append, false, inl,
  inr, is_nodup, length, list_eq, nat_eq, not, pair_beq_iff, pair_eq, refl, some, string_eq, suc,
  sym, true, zero, ℕ, ◌&&◌, ◌++◌, ◌+◌, ◌<◌, ◌==◌, ◌||◌, ◌↔◌, ◌∙◌, ◌∷◌, ◌≡◌, ◌≢◌, ◌≤◌,
}
use almanaut.Base.Assoc.{Assoc, insert, lookup, lookup-insert, lookup-nil}
use almanaut.Inventory.{EntityRef, Relationship}
use almanaut.Checks.{holds}
use almanaut.Impact.{Found, dependents, from_ref, impact, index_edges, search_from, visit}
use almanaut.Impact.Search.{
  contains-fresh, fresh, fresh-is_nodup, holds-visit, indexed-index_edges, needs, visit-fresh,
}
use almanaut.Impact.Ends.{unvisited, visit-to_come}

module _ (rels : List Relationship) (start : EntityRef) where
  -- The entity depends on `start`, by one relationship or through others.
  pub data DependsOn : EntityRef → Type 0 where
    direct : {x : EntityRef} → needs rels x start ≡ true → DependsOn x
    via : {x y : EntityRef} → needs rels x y ≡ true → DependsOn y → DependsOn x

  record Inv (visited : Assoc EntityRef Bool) (result queue : List EntityRef) : Type 0 where
    seen : (k : EntityRef) → holds visited k ≡ (start == k || contains result k)
    queued : (k : EntityRef) → contains queue k ≡ true → holds visited k ≡ true
    closed :
        (x y : EntityRef)
        → holds visited y ≡ true
        → contains queue y ≡ false
        → needs rels x y ≡ true
        → holds visited x ≡ true
    sound : (k : EntityRef) → contains result k ≡ true → DependsOn k
    once : is_nodup result ≡ true
    proper : contains result start ≡ false

  index : Assoc EntityRef (List EntityRef)
  index = index_edges [] rels

  deps_of : EntityRef → List EntityRef
  deps_of y = dependents (lookup y index)

  contains-deps_of : (x y : EntityRef) → contains (deps_of y) x ≡ needs rels x y
  unfolding deps_of index
  contains-deps_of x y = indexed-index_edges [] rels x y ∙ rw (lookup-nil {V = List EntityRef} y)

  is_nodup-append :
      (xs ys : List EntityRef)
      → is_nodup xs ≡ true
      → is_nodup ys ≡ true
      → ((k : EntityRef) → contains ys k ≡ true → contains xs k ≡ false)
      → is_nodup (xs ++ ys) ≡ true
  is_nodup-append [] ys hx hy apart = hy
  is_nodup-append (x ∷ xs) ys hx hy apart = ground (
    arith,
    contains-append xs ys x,
    apart x,
    beq_refl x,
    is_nodup-append xs ys (ground arith) hy (λ k there. ground (arith, apart k there)),
  )

  module _ (visited : Assoc EntityRef Bool) (result queue : List EntityRef) (cur : EntityRef)
      (inv : Inv visited result (cur ∷ queue)) where
    abbrev before : Found
    before = record { visited = visited; result = result; queue = queue }

    abbrev new : List EntityRef
    new = fresh visited (deps_of cur)

    abbrev after : Found
    after = visit (deps_of cur) before

    cur_visited : holds visited cur ≡ true
    cur_visited = inv.queued cur (ground (arith, beq_refl cur))

    contains-new : (k : EntityRef) → contains new k ≡ (needs rels k cur && not (holds visited k))
    contains-new k = rw (contains-fresh visited (deps_of cur) k, contains-deps_of k cur)

    holds-after : (k : EntityRef) → holds after.visited k ≡ (holds visited k || needs rels k cur)
    holds-after k = rw (holds-visit (deps_of cur) before k, contains-deps_of k cur)

    contains-queue : (k : EntityRef) → contains after.queue k ≡ (contains queue k || contains new k)
    contains-queue k = rw ((visit-fresh (deps_of cur) before).0, contains-append queue new k)

    contains-result :
        (k : EntityRef) → contains after.result k ≡ (contains result k || contains new k)
    contains-result k = rw ((visit-fresh (deps_of cur) before).1, contains-append result new k)

    new_depends : (k : EntityRef) → contains new k ≡ true → DependsOn k
    new_depends k h =
        let edge_to_cur : needs rels k cur ≡ true = ground (arith, contains-new k) in
        elim (Bool-cases (start == cur)) [
          | inl same ↦
              let e : start ≡ cur = (pair_beq_iff start cur).0 same in direct (rw e edge_to_cur)
          | inr other ↦ via edge_to_cur (inv.sound cur (ground (arith, inv.seen cur, cur_visited)))
        ]

    closed_after :
        (x y : EntityRef)
        → holds after.visited y ≡ true
        → contains after.queue y ≡ false
        → needs rels x y ≡ true
        → holds after.visited x ≡ true
    closed_after x y hv hq he = elim (Bool-cases (cur == y)) [
      | inl same ↦
          let e : cur ≡ y = (pair_beq_iff cur y).0 same in
          rw (holds-after x) (ground (arith, rw (← e) at he))
      | inr other ↦
          rw (holds-after x)
            (ground (arith, inv.closed x y, holds-after y, contains-queue y, contains-new y, he))
    ]

    -- One round keeps the invariant.
    round-Inv : Inv after.visited after.result after.queue
    round-Inv = record {
      seen = λ k. ground (arith, holds-after k, contains-result k, contains-new k, inv.seen k);
      queued = λ k h. ground (arith, holds-after k, contains-queue k, contains-new k, inv.queued k);
      closed = closed_after;
      sound = λ k h. elim (Bool-cases (contains result k)) [
        | inl old ↦ inv.sound k old
        | inr other ↦ new_depends k (ground (arith, contains-result k))
      ];
      once = rw (visit-fresh (deps_of cur) before).1 (
          is_nodup-append result new inv.once (fresh-is_nodup visited (deps_of cur))
            λ k there. ground (arith, contains-new k, inv.seen k));
      proper = ground (
        arith,
        contains-result start,
        contains-new start,
        inv.seen start,
        inv.proper,
        beq_refl start,
      );
    }

  started-Inv : Inv (insert start true []) [] (start ∷ [])
  started-Inv = record {
    seen = λ k. rw lookup-insert (ground (arith, lookup-nil {V = Bool} k));
    queued = λ k h. rw lookup-insert (ground (arith, lookup-nil {V = Bool} k));
    closed = λ x y v q e.
        absurd (ground (arith, lookup-insert start y true [], lookup-nil {V = Bool} y));
    sound = λ k h. absurd (cc h);
    once = refl;
    proper = refl;
  }

  needs-from :
      (rels' : List Relationship) (x y : EntityRef)
      → needs rels' x y ≡ true
      → any (λ r. from_ref r == x) rels' ≡ true
  needs-from [] x y h = absurd (cc h)
  needs-from (r ∷ rels') x y h = ground (arith, needs-from rels' x y)

  search_ends :
      (fuel : ℕ) (visited : Assoc EntityRef Bool) (result queue : List EntityRef)
      → length queue + unvisited visited rels ≤ fuel
      → Inv visited result queue
      → (end : List EntityRef) × (search_from index fuel visited result queue ≡ some end)
        × ((all_seen : Assoc EntityRef Bool) × Inv all_seen end [])
  unfolding search_from deps_of
  search_ends zero visited result [] h inv = (result, refl, (visited, inv))
  search_ends zero visited result (cur ∷ queue) h inv = absurd (omega arith)
  search_ends (suc fuel) visited result [] h inv = (result, refl, (visited, inv))
  search_ends (suc fuel) visited result (cur ∷ queue) h inv =
      let start_of_round : Found = record { visited = visited; result = result; queue = queue } in
      let fewer =
        visit-to_come rels (deps_of cur) start_of_round
          λ k there. needs-from rels k cur (sym (contains-deps_of k cur) ∙ there) in
      search_ends fuel _ _ _ (omega (arith, fewer)) (round-Inv visited result queue cur inv)

  unvisited-le :
      (visited : Assoc EntityRef Bool) (rels' : List Relationship)
      → unvisited visited rels' ≤ length rels'
  unvisited-le visited [] = omega arith
  unvisited-le visited (r ∷ rels') = ground (arith, unvisited-le visited rels')

  complete :
      (visited : Assoc EntityRef Bool) (result : List EntityRef) (inv : Inv visited result [])
      (x : EntityRef)
      → DependsOn x
      → holds visited x ≡ true
  complete visited result inv x (direct h) =
      inv.closed x start (rw (inv.seen start) (ground (arith, beq_refl start))) refl h
  complete visited result inv x (via {y} h d) =
      inv.closed x y (complete visited result inv y d) refl h

  -- With one round of fuel more than there are relationships, the search ends. It lists exactly the
  -- entities other than the start that depend on it, directly or through others, each of them once,
  -- also where dependencies form a cycle.
  pub impact_lem :
      (fuel : ℕ)
      → length rels < fuel
      → (result : List EntityRef) × (impact fuel rels start ≡ some result)
        × (is_nodup result ≡ true)
        × ((k : EntityRef) → (contains result k ≡ true) ↔ (DependsOn k × (k ≢ start)))
  unfolding impact index
  impact_lem fuel enough =
      let (result, found, (visited, inv)) =
        search_ends fuel (insert start true []) [] (start ∷ [])
          (omega (arith, unvisited-le (insert start true []) rels)) started-Inv in
      (
        result,
        found,
        inv.once,
        λ k. (
          λ h. (inv.sound k h, λ same. cc (inv.proper, rw same at h)),
          λ h. ground (arith, inv.seen k, complete visited result inv k h.0, pair_beq_iff start k),
        ),
      )
