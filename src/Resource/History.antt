-- ===== src/Resource/History.antt =====
-- The entity transactions of internal/web/resource.go and internal/web/bulk.go keep the changelog and the
-- events in step.
use mathlib.Core.List.{append-nil, append_assoc}
use almanaut.Base.{
  Bool, Bool-cases, List, Option, String, [], arith, bool_eq, false, if◌then◌else◌, inl, inr,
  list_eq, map, nat_eq, none, not, pair_eq, refl, some, string_eq, sym, true, ℕ, ◌++◌, ◌==◌, ◌∙◌,
  ◌∷◌, ◌≡◌,
}
use almanaut.Resource.Removal.{map-append}
use almanaut.Base.Assoc.{Assoc, lookup}
use almanaut.Base.Text.{Text}
use almanaut.Base.Result.{
  Result, Returns, bind-Returns, bind-Returns_any, err, ok, refuse_if, then-Returns,
}
use almanaut.Inventory.{EntityRef}
use almanaut.Resource.{
  Answer, BulkAction, ChangeEvent, Event, Fault, FieldChange, Kind, Session, Tables, bad_request,
  broken_json, bulk_delete, failed, found, invalid_item, not_found, redirected, refused, set_field,
  tag_add, tag_remove, with_tx, without_entity,
}
use almanaut.Resource.Diff.{diff}
use almanaut.Resource.Bulk.{
  apply_action, apply_all, bulk, bulk_set_field, merge_field, parse_action, run_bulk,
}
use almanaut.Resource.Transactions.{
  announce_update, create_entity_tx, create_row, delete_entity_tx, new_change, remove_entity,
  update_entity_tx, update_row,
}

-- Which entity, what happened to it, by whom and when.
abbrev pub Head : Type 0
Head = EntityRef × String × Text × Text

-- The changelog's word for an action and the webhook's.
abbrev pub announced_as : String → String
announced_as action =
    if action == "create"
    then "created"
    else if action == "update"
    then "updated"
    else if action == "delete"
    then "deleted"
    else action

abbrev pub change_head : ChangeEvent → Head
change_head c = (c.entity, announced_as c.action, c.actor, c.created_at)

abbrev pub event_head : Event → Head
event_head e = (e.entity, e.action, e.actor, e.timestamp)

-- The changelog grew by some entries, and for each of them there is one new event, in this order.
abbrev pub Announced : {T : Type 0} → Session T → Session T → Type 0
Announced st after =
    (log : List ChangeEvent) × (after.tables.changelog ≡ st.tables.changelog ++ log)
    × (map event_head after.events ≡ map event_head st.events ++ map change_head log)

abbrev all_of : {A : Type 0} → (A → Bool) → Option A → Bool
all_of p none = true
all_of p (some a) = p a

module _ {T S : Type 0} (k : Kind T S) where
  Announced-refl : (st : Session T) → Announced st st
  Announced-refl st =
      ([], sym (append-nil st.tables.changelog), sym (append-nil (map event_head st.events)))

  Announced-trans : (a b c : Session T) → Announced a b → Announced b c → Announced a c
  Announced-trans a b c (log, p, q) (later, r, s) = (
    log ++ later,
    r ∙ rw p (append_assoc a.tables.changelog log later),
    s
        ∙ rw (q, map-append change_head log later)
            (append_assoc (map event_head a.events) (map change_head log) (map change_head later)),
  )

  pub delete_entity_tx-Announced :
      (id : ℕ) (actor now : Text) (st : Session T)
      → Returns (Announced st) (delete_entity_tx k id actor now st)
  unfolding Returns delete_entity_tx remove_entity without_entity
  delete_entity_tx-Announced id actor now st =
      bind-Returns_any _ (found not_found (lookup id st.tables.rows)) _
        λ item. (new_change k id (k.label item) "delete" actor [] now ∷ [], refl, map-append _ _ _)

  announce_update-Announced :
      (item : T) (changes : List FieldChange) (actor now : Text) (content : Option Text)
      (t : Tables T) (st : Session T)
      → t.changelog ≡ st.tables.changelog
      → Returns (Announced st) (announce_update k item changes actor now content t st.events)
  unfolding Returns announce_update
  announce_update-Announced item [] actor now content t st h =
      ([], h ∙ sym (append-nil _), sym (append-nil _))
  announce_update-Announced item (c ∷ cs) actor now none t st h = tt
  announce_update-Announced item (c ∷ cs) actor now (some raw) t st h = (
    new_change k (k.id_of item) (k.label item) "update" actor (c ∷ cs) now ∷ [],
    rw h refl,
    map-append _ _ _,
  )

  pub update_entity_tx-Announced :
      (item : T) (cf : Assoc ℕ Text) (actor now : Text) (st : Session T)
      → Returns (Announced st) (update_entity_tx k item cf actor now st)
  unfolding Returns update_entity_tx
  update_entity_tx-Announced item cf actor now st =
      bind-Returns_any _ (found not_found (lookup (k.id_of item) st.tables.rows)) _ λ old.
        bind-Returns _ (λ saved. saved.changelog ≡ st.tables.changelog)
          (update_row k item st.tables) _
          (then-Returns _ (refuse_if (not (k.accepts st.tables.rows (k.id_of item) item)) refused) _
            refl)
          λ saved same.
            bind-Returns_any _ (diff k old item) _
              λ changes. announce_update-Announced item changes actor now (k.marshal item) _ st same

  create_entity_tx-Announced :
      (item : T) (cf : Assoc ℕ Text) (actor now : Text) (st : Session T)
      → Returns (λ r. Announced st r.1) (create_entity_tx k item cf actor now st)
  unfolding Returns create_entity_tx
  create_entity_tx-Announced item cf actor now st =
      bind-Returns _ (λ saved. saved.changelog ≡ st.tables.changelog) (create_row k item st.tables)
        _
        (then-Returns _ (refuse_if (not (k.accepts st.tables.rows st.tables.next_id item)) refused)
          _ refl)
        λ saved same. bind-Returns_any _ (diff k k.new_item item) _ λ changes.
          bind-Returns_any _ (found broken_json (k.marshal item)) _ λ raw. (
            new_change k st.tables.next_id (k.label item) "create" actor changes now ∷ [],
            rw same refl,
            map-append _ _ _,
          )

  bulk_set_field-Announced :
      (id : ℕ) (field value actor now : Text) (st : Session T)
      → Returns (Announced st) (bulk_set_field k id field value actor now st)
  unfolding Returns bulk_set_field
  bulk_set_field-Announced id field value actor now st =
      bind-Returns_any _ (found not_found (lookup id st.tables.rows)) _ λ old.
        bind-Returns_any _ (merge_field k old field value) _ λ updated.
          then-Returns _ (refuse_if (not (k.is_valid (k.with_id id updated))) invalid_item) _
            (update_entity_tx-Announced (k.with_id id updated) [] actor now st)

  -- Tags are logged but have no event.
  abbrev pub is_announced : BulkAction → Bool
  is_announced bulk_delete = true
  is_announced (tag_add tag) = false
  is_announced (tag_remove tag) = false
  is_announced (set_field field value) = true

  apply_action-Announced :
      (action : BulkAction) (id : ℕ) (actor now : Text) (st : Session T)
      → is_announced action ≡ true
      → Returns (Announced st) (apply_action k action id actor now st)
  unfolding apply_action
  apply_action-Announced bulk_delete id actor now st h = delete_entity_tx-Announced id actor now st
  apply_action-Announced (tag_add tag) id actor now st h = absurd (cc h)
  apply_action-Announced (tag_remove tag) id actor now st h = absurd (cc h)
  apply_action-Announced (set_field field value) id actor now st h =
      bulk_set_field-Announced id field value actor now st

  Returns-trans :
      (st after : Session T) (r : Result Fault (Session T))
      → Announced st after
      → Returns (Announced after) r
      → Returns (Announced st) r
  unfolding Returns
  Returns-trans st after (err fault) p q = tt
  Returns-trans st after (ok last) p q = Announced-trans st after last p q

  -- Deleting the selected entities, or setting a field of each of them, writes entries to the changelog
  -- and gathers events that correspond one to one and in order, with the same entity, action, actor
  -- and time, when no call in it fails.
  pub apply_all-Announced :
      (action : BulkAction) (ids : List ℕ) (actor now : Text) (st : Session T)
      → is_announced action ≡ true
      → Returns (Announced st) (apply_all k action ids actor now st)
  unfolding Returns apply_all
  apply_all-Announced action [] actor now st h = Announced-refl st
  apply_all-Announced action (id ∷ ids) actor now st h =
      bind-Returns _ (Announced st) (apply_action k action id actor now st) _
        (apply_action-Announced action id actor now st h)
        λ after step.
          Returns-trans st after _ step (apply_all-Announced action ids actor now after h)

  -- Of the tables before a request, the tables after it and the events that it dispatched.
  pub record AnnouncedAs (t : Tables T) (result : Tables T × List Event × Answer) : Type 0 where
    pub log : List ChangeEvent
    pub logged : result.0.changelog ≡ t.changelog ++ log
    pub told : map event_head result.1 ≡ map change_head log

  nothing-AnnouncedAs : (t : Tables T) (answer : Answer) → AnnouncedAs t (t, [], answer)
  nothing-AnnouncedAs t answer = record {
    log = [];
    logged = sym (append-nil t.changelog);
    told = refl;
  }

  with_tx-AnnouncedAs :
      (t : Tables T) (r : Result Fault (Session T))
      → Returns (Announced (record { tables = t; events = [] })) r
      → AnnouncedAs t (with_tx t r)
  unfolding Returns
  with_tx-AnnouncedAs t (err fault) h = nothing-AnnouncedAs t (failed fault)
  with_tx-AnnouncedAs t (ok st) (log, logged, told) = record {
    log = log;
    logged = logged;
    told = told;
  }

  run_bulk-AnnouncedAs :
      (action : Option BulkAction) (ids : List ℕ) (actor now : Text) (t : Tables T)
      → all_of is_announced action ≡ true
      → AnnouncedAs t (run_bulk k action ids actor now t)
  unfolding run_bulk
  run_bulk-AnnouncedAs none ids actor now t h = nothing-AnnouncedAs t bad_request
  run_bulk-AnnouncedAs (some action) ids actor now t h =
      with_tx-AnnouncedAs t _
        (apply_all-Announced action ids actor now (record { tables = t; events = [] }) h)

  parse_action-announced :
      (action : String) (tag field value : Text)
      → (action == "tag-add") ≡ false
      → (action == "tag-remove") ≡ false
      → all_of is_announced (parse_action k action tag field value) ≡ true
  unfolding parse_action
  parse_action-announced action tag field value a r = elim (Bool-cases (action == "delete")) [
    | inl d ↦ rw d refl
    | inr n ↦ rw (n, a, r) (ground arith)
  ]

  -- What a bulk request writes to the changelog and the events that it dispatches correspond one to
  -- one and in order, with the same entity, action, actor and time, whatever the selection is and
  -- also where the request fails or is refused. Only adding and removing tags is logged without events.
  pub bulk-AnnouncedAs :
      (action : String) (ids : List ℕ) (tag field value actor now : Text) (t : Tables T)
      → (action == "tag-add") ≡ false
      → (action == "tag-remove") ≡ false
      → AnnouncedAs t (bulk k action ids tag field value actor now t)
  unfolding bulk
  bulk-AnnouncedAs action [] tag field value actor now t a r = nothing-AnnouncedAs t redirected
  bulk-AnnouncedAs action (id ∷ ids) tag field value actor now t a r =
      run_bulk-AnnouncedAs (parse_action k action tag field value) (id ∷ ids) actor now t
        (parse_action-announced action tag field value a r)
