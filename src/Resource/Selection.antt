-- ===== src/Resource/Selection.antt =====
-- The bulk deletion of internal/web/bulk.go: all of the selection or nothing.
use mathlib.Core.List.{append-nil, append_assoc}
use almanaut.Base.{
  Bool, Bool-cases, List, Option, Option-cases, String, [], all, any, ap, arith, beq_refl, bool_eq,
  contains, false, if◌then◌else◌, inl, inr, is_nodup, is_some, list_eq, map, nat_beq_iff, nat_eq,
  none, not, pair_eq, refl, select, some, string_eq, sym, true, ℕ, ◌&&◌, ◌++◌, ◌==◌, ◌||◌, ◌∙◌, ◌∷◌,
  ◌≡◌, ◌≢◌,
}
use almanaut.Resource.{
  Attachment, ChangeEvent, FieldChange, JournalEntry, Kind, Session, Tables, Tag, bulk_delete,
  failed, not_found, redirected, touches, without_entity,
}
use almanaut.Resource.Transactions.{delete_entity_tx, delete_row, new_event, ref, remove_entity}
use almanaut.Resource.Removal.{
  IsKept, is_mentioned, map-append, select_same, select_twice, without_entity-IsKept,
  without_entity-clean,
}
use almanaut.Base.Assoc.{
  Assoc, any_value, delete, lookup, lookup-delete, lookup-map_values, map_found, map_values, retain,
}
use almanaut.Inventory.{EntityRef, Relationship}
use almanaut.Base.Result.{err, ok}
use almanaut.Base.Text.{Text}
use almanaut.Resource.Bulk.{apply_action, apply_all, bulk, parse_action, run_bulk}

any-select_none :
    {A : Type 0} (p q : A → Bool) (xs : List A) → any p xs ≡ false → any p (select q xs) ≡ false
any-select_none p q [] h = refl
any-select_none p q (x ∷ xs) h = ground (arith, any-select_none p q xs)

any_value-retain_none :
    (p q : EntityRef × ℕ → Text → Bool) (m : Assoc (EntityRef × ℕ) Text)
    → any_value p m ≡ false
    → any_value p (retain q m) ≡ false
unfolding any_value retain
any_value-retain_none p q [] h = refl
any_value-retain_none p q ((at, v) ∷ m) h = ground (arith, any_value-retain_none p q m)

select-all : {A : Type 0} (xs : List A) → select (λ x. true) xs ≡ xs
select-all [] = refl
select-all (x ∷ xs) = ap (λ l. x ∷ l) (select-all xs)

module _ {T : Type 0} where
  stays_clean :
      (of gone : EntityRef) (t : Tables T)
      → is_mentioned of t ≡ false
      → is_mentioned of (without_entity gone t) ≡ false
  unfolding without_entity
  stays_clean of gone t h = ground (
    arith,
    any-select_none (touches of) (λ r. not (touches gone r)) t.relationships,
    any-select_none (λ (x : Tag). x.entity == of) (λ x. not (x.entity == gone)) t.tags,
    any-select_none (λ (x : JournalEntry). x.entity == of) (λ x. not (x.entity == gone)) t.journal,
    any-select_none (λ (x : Attachment). x.entity == of) (λ x. not (x.entity == gone))
        t.attachments,
    any_value-retain_none (λ at value. at.0 == of) (λ at value. not (at.0 == gone)) t.custom_values,
  )

  -- Each selected id once, and each of them has a row.
  abbrev pub is_deletable : Assoc ℕ T → List ℕ → Bool
  is_deletable rows ids = is_nodup ids && all (λ id. is_some (lookup id rows)) ids

  all-delete :
      (id : ℕ) (rows : Assoc ℕ T) (ids : List ℕ)
      → all (λ j. is_some (lookup j (delete id rows))) ids
        ≡ (not (contains ids id) && all (λ j. is_some (lookup j rows)) ids)
  all-delete id rows [] = refl
  all-delete id rows (j ∷ ids) =
      ground
        (arith, lookup-delete id j rows, all-delete id rows ids, nat_beq_iff id j, nat_beq_iff j id)

  all-map_values :
      (f : ℕ → T → T) (rows : Assoc ℕ T) (ids : List ℕ)
      → all (λ j. is_some (lookup j (map_values f rows))) ids
        ≡ all (λ j. is_some (lookup j rows)) ids
  all-map_values f rows [] = refl
  all-map_values f rows (j ∷ ids) =
      rw (lookup-map_values f j rows) (ground (arith, all-map_values f rows ids))

module _ {T S : Type 0} (k : Kind T S) (actor now : Text) where
  -- What the repo's deletions of some rows, one after another, make of another row.
  abbrev pub swept : List ℕ → ℕ → T → T
  swept [] j row = row
  swept (id ∷ ids) j row = swept ids j (k.on_delete id j row)

  -- Neither end of a relationship is one of these entities.
  abbrev pub spares : List ℕ → Relationship → Bool
  spares ids r = not (any (λ j. touches (k.sing, j) r) ids)

  -- What the changelog says beside the entity's label: a deletion lists no fields.
  abbrev pub entry : ChangeEvent → EntityRef × String × Text × List FieldChange × Text
  entry c = (c.entity, c.action, c.actor, c.changes, c.created_at)

  -- After the deletion of `ids`.
  pub record Deletes (ids : List ℕ) (st after : Session T) : Type 0 where
    rows :
        (j : ℕ)
        → lookup j after.tables.rows
          ≡ (if contains ids j then none else map_found (swept ids) j (lookup j st.tables.rows))
    next_id : after.tables.next_id ≡ st.tables.next_id
    related : after.tables.relationships ≡ select (spares ids) st.tables.relationships
    clean :
        (j : ℕ)
        → contains ids j || not (is_mentioned (k.sing, j) st.tables) ≡ true
        → is_mentioned (k.sing, j) after.tables ≡ false
    kept :
        (other : EntityRef)
        → ((j : ℕ) → contains ids j ≡ true → other ≢ (k.sing, j))
        → IsKept other st.tables after.tables
    logged :
        map entry after.tables.changelog
        ≡ map entry st.tables.changelog ++ map (λ id. (ref k id, "delete", actor, [], now)) ids
    told : after.events ≡ st.events ++ map (λ id. new_event k id "deleted" actor now none) ids

  remove_entity-Deletes :
      (id : ℕ) (item : T) (st : Session T)
      → Deletes (id ∷ []) st (remove_entity k id item actor now st)
  unfolding remove_entity
  remove_entity-Deletes id item st =
      let without : Tables T = delete_row k id st.tables in
      record {
        rows = λ j.
            unfold without_entity in
            lookup-delete id j (map_values (k.on_delete id) st.tables.rows)
            ∙ rw (lookup-map_values (k.on_delete id) j st.tables.rows) (ground arith);
        next_id = unfold without_entity in refl;
        related =
            unfold without_entity in select_same _ _ st.tables.relationships λ r. ground arith;
        clean = λ j h. elim (Bool-cases (id == j)) [
          | inl same ↦ rw (← (nat_beq_iff id j).0 same) (without_entity-clean (k.sing, id) without)
          | inr other ↦ stays_clean (k.sing, j) (k.sing, id) without (ground arith)
        ];
        kept = λ other apart.
            let h =
              without_entity-IsKept (k.sing, id) other without
                (apart id (ground (arith, beq_refl id))) in
            record {
              tags = h.tags;
              journal = h.journal;
              attachments = h.attachments;
              custom_values = h.custom_values;
            };
        logged = unfold without_entity in map-append entry st.tables.changelog _;
        told = refl;
      }

  map_found-swept :
      (id : ℕ) (ids : List ℕ) (j : ℕ) (here later : Bool) (row : Option T)
      → (if later
          then none
          else map_found
              (swept ids)
              j
              (if here || false then none else map_found (swept (id ∷ [])) j row))
        ≡ (if here || later then none else map_found (swept (id ∷ ids)) j row)
  map_found-swept id ids j here later none = ground arith
  map_found-swept id ids j here later (some row) = ground arith

  map_found-same : (j : ℕ) (row : Option T) → map_found (swept []) j row ≡ row
  map_found-same j none = refl
  map_found-same j (some row) = refl

  Deletes-cons :
      (id : ℕ) (item : T) (ids : List ℕ) (st after last : Session T)
      → Deletes (id ∷ []) st after
      → Deletes ids after last
      → Deletes (id ∷ ids) st last
  Deletes-cons id item ids st after last p q = record {
    rows = λ j. q.rows j ∙ rw (p.rows j) (map_found-swept id ids j _ _ (lookup j st.tables.rows));
    next_id = q.next_id ∙ p.next_id;
    related =
        q.related
        ∙ rw p.related (
            select_twice (spares ids) (spares (id ∷ [])) st.tables.relationships
            ∙ select_same (λ r. spares (id ∷ []) r && spares ids r) (spares (id ∷ ids))
                st.tables.relationships λ r. ground arith);
    clean = λ j h. ground (arith, p.clean j, q.clean j);
    kept = λ other apart.
        let a = p.kept other λ j here. apart j (ground (arith, here)) in
        let b = q.kept other λ j here. apart j (ground (arith, here)) in
        record {
          tags = b.tags ∙ a.tags;
          journal = b.journal ∙ a.journal;
          attachments = b.attachments ∙ a.attachments;
          custom_values = λ def. b.custom_values def ∙ a.custom_values def;
        };
    logged = q.logged ∙ rw p.logged (append_assoc (map entry st.tables.changelog) _ _);
    told = q.told ∙ rw p.told (append_assoc st.events _ _);
  }

  delete_found :
      (id : ℕ) (st : Session T) (item : T)
      → lookup id st.tables.rows ≡ some item
      → apply_action k bulk_delete id actor now st ≡ ok (remove_entity k id item actor now st)
  unfolding apply_action delete_entity_tx
  delete_found id st item h = rw h refl

  delete_missing :
      (id : ℕ) (st : Session T)
      → lookup id st.tables.rows ≡ none
      → apply_action k bulk_delete id actor now st ≡ err not_found
  unfolding apply_action delete_entity_tx
  delete_missing id st h = rw h refl

  remaining :
      (id : ℕ) (item : T) (ids : List ℕ) (st : Session T)
      → lookup id st.tables.rows ≡ some item
      → is_deletable st.tables.rows (id ∷ ids)
        ≡ is_deletable (remove_entity k id item actor now st).tables.rows ids
  unfolding remove_entity without_entity
  remaining id item ids st h =
      rw
        (
          all-delete id (map_values (k.on_delete id) st.tables.rows) ids,
          all-map_values (k.on_delete id) st.tables.rows ids,
          h,
        )
        (ground arith)

  Deletes-nothing : (st : Session T) → Deletes [] st st
  Deletes-nothing st = record {
    rows = λ j. sym (map_found-same j (lookup j st.tables.rows));
    next_id = refl;
    related = sym (select-all st.tables.relationships);
    clean = λ j h. ground arith;
    kept = λ other apart. record {
      tags = refl;
      journal = refl;
      attachments = refl;
      custom_values = λ def. refl;
    };
    logged = sym (append-nil (map entry st.tables.changelog));
    told = sym (append-nil st.events);
  }

  apply_all-Deletes :
      (ids : List ℕ) (st : Session T)
      → is_deletable st.tables.rows ids ≡ true
      → (after : Session T) × (apply_all k bulk_delete ids actor now st ≡ ok after)
        × Deletes ids st after
  unfolding apply_all
  apply_all-Deletes [] st h = (st, refl, Deletes-nothing st)
  apply_all-Deletes (id ∷ ids) st h = elim (Option-cases (lookup id st.tables.rows)) [
    | inl missing ↦ absurd (ground (arith, missing))
    | inr (item, there) ↦
        let next = remove_entity k id item actor now st in
        let (last, result, rest) =
          apply_all-Deletes ids next (sym (remaining id item ids st there) ∙ h) in
        (
          last,
          rw (delete_found id st item there) result,
          Deletes-cons id item ids st next last (remove_entity-Deletes id item st) rest,
        )
  ]

  apply_all_refuses :
      (ids : List ℕ) (st : Session T)
      → is_deletable st.tables.rows ids ≡ false
      → apply_all k bulk_delete ids actor now st ≡ err not_found
  unfolding apply_all
  apply_all_refuses [] st h = absurd (cc h)
  apply_all_refuses (id ∷ ids) st h = elim (Option-cases (lookup id st.tables.rows)) [
    | inl missing ↦ rw (delete_missing id st missing) refl
    | inr (item, there) ↦ rw (delete_found id st item there) (
        apply_all_refuses ids (remove_entity k id item actor now st)
          (sym (remaining id item ids st there) ∙ h))
  ]

  -- A bulk deletion of ids that each have a row and are each given once succeeds. These rows are
  -- gone, and every other row is what the repo's deletions, one after another, make of it. The
  -- relationships that touch a deleted entity are gone and the others are as they were. No tag,
  -- journal entry, attachment or custom value mentions a deleted entity, and those of other
  -- entities are kept. The changelog grows by one deletion, and the dispatched events are one
  -- deletion, for each id in their order. Any other selection, one with an id twice as well, changes
  -- nothing, dispatches nothing and fails with the error for a missing row.
  pub bulk-Deletes :
      (ids : List ℕ) (tag field value : Text) (t : Tables T)
      → (is_deletable t.rows ids ≡ true
          → (after : Session T) × (bulk k "delete" ids tag field value actor now t
              ≡ (after.tables, after.events, redirected))
            × Deletes ids (record { tables = t; events = [] }) after)
        × (is_deletable t.rows ids ≡ false
            → bulk k "delete" ids tag field value actor now t ≡ (t, [], failed not_found))
  unfolding bulk run_bulk parse_action
  bulk-Deletes [] tag field value t =
      (λ h. (record { tables = t; events = [] }, refl, Deletes-nothing _), λ h. absurd (cc h))
  bulk-Deletes (id ∷ ids) tag field value t =
      let before : Session T = record { tables = t; events = [] } in
      (
        λ h.
            let (after, result, deletes) = apply_all-Deletes (id ∷ ids) before h in
            (after, rw result refl, deletes),
        λ h. rw (apply_all_refuses (id ∷ ids) before h) refl,
      )
