-- ===== src/Resource/Bulk.antt =====
-- internal/web/bulk.go: one action for every selected entity, in one transaction.
use almanaut.Base.Result.{Result, err, ok, refuse_if, ◌>>=◌, ◌>>◌}
use almanaut.Base.Text.{Text, text_lt, text_of, trim_space}
use almanaut.Base.Assoc.{Assoc, has_key, insert, keys, lookup}
use almanaut.Base.{
  Bool, List, Option, String, [], bool_eq, contains, false, if◌then◌else◌, list_eq, nat_eq, none,
  not, pair_eq, select, some, string_eq, ℕ, ◌&&◌, ◌==◌, ◌∷◌,
}
use almanaut.Inventory.{EntityRef}
use almanaut.Base.Sort.{sort_by}
use almanaut.Resource.{
  Answer, BulkAction, ChangeEvent, Event, Fault, Kind, Session, Tables, Tag, Value, add_tag,
  bad_request, broken_json, bulk_delete, check_tag, found, invalid_item, list_value, log_change,
  new_tag, normalize_tag, not_found, null_value, redirected, scalar_value, set_field, tag_add,
  tag_remove, text_value, unknown_field, with_tx,
}
use almanaut.Resource.Diff.{to_map}
use almanaut.Resource.Transactions.{delete_entity_tx, new_change, ref, update_entity_tx}

module _ {T S : Type 0} (k : Kind T S) where
  is_text : Text × Value S → Bool
  is_text (name, text_value t) = not (name == text_of "id")
  is_text (name, null_value) = false
  is_text (name, list_value parts) = false
  is_text (name, scalar_value x) = false

  unfoldable pub text_fields : Result Fault (Assoc Text (Value S)) → List Text
  unfolding is_text
  text_fields (err fault) = []
  text_fields (ok m) = sort_by text_lt (keys (select is_text m))

  abbrev pub string_fields : List Text
  string_fields = text_fields (to_map k k.new_item)

  abbrev pub is_string_field : Text → Bool
  is_string_field field = contains string_fields field

  unfoldable pub merge_field : T → Text → Text → Result Fault T
  merge_field item field value = do
    m ← to_map k item
    refuse_if (not (has_key field m)) unknown_field
    raw ← found broken_json (k.encode (insert field (text_value value) m))
    found broken_json (k.unmarshal raw)

  abbrev pub tag_change : ℕ → T → Text → Text → Text → Text → ChangeEvent
  tag_change id item old updated actor now =
      new_change k id (k.label item) "update" actor
        (record { field = text_of "tags"; old = old; updated = updated } ∷ []) now

  unfoldable pub bulk_add_tag : ℕ → Text → Text → Text → Session T → Result Fault (Session T)
  unfolding normalize_tag
  bulk_add_tag id tag actor now st = do
    item ← found not_found (lookup id st.tables.rows)
    check_tag k.to_lower (new_tag (ref k id) tag)
    let stored = new_tag (ref k id) (normalize_tag k.to_lower tag)
    let tagged = record st.tables { tags = add_tag stored st.tables.tags }
    ok (record st { tables = log_change (tag_change id item [] tag actor now) tagged })

  -- DELETE FROM tags WHERE entity_type = ? AND entity_id = ? AND name = ?
  abbrev pub remove_by_name : EntityRef → Text → List Tag → List Tag
  remove_by_name of name tags = select (λ t. not (t.entity == of && t.name == name)) tags

  unfoldable pub bulk_remove_tag : ℕ → Text → Text → Text → Session T → Result Fault (Session T)
  unfolding normalize_tag
  bulk_remove_tag id tag actor now st = do
    item ← found not_found (lookup id st.tables.rows)
    let name = normalize_tag k.to_lower tag
    let untagged = record st.tables { tags = remove_by_name (ref k id) name st.tables.tags }
    ok (record st { tables = log_change (tag_change id item tag [] actor now) untagged })

  unfoldable pub bulk_set_field :
      ℕ → Text → Text → Text → Text → Session T → Result Fault (Session T)
  unfolding merge_field update_entity_tx
  bulk_set_field id field value actor now st = do
    old ← found not_found (lookup id st.tables.rows)
    updated ← merge_field old field value
    refuse_if (not (k.is_valid (k.with_id id updated))) invalid_item
    update_entity_tx k (k.with_id id updated) [] actor now st

  unfoldable pub apply_action : BulkAction → ℕ → Text → Text → Session T → Result Fault (Session T)
  unfolding delete_entity_tx bulk_add_tag bulk_remove_tag bulk_set_field
  apply_action bulk_delete id actor now st = delete_entity_tx k id actor now st
  apply_action (tag_add tag) id actor now st = bulk_add_tag id tag actor now st
  apply_action (tag_remove tag) id actor now st = bulk_remove_tag id tag actor now st
  apply_action (set_field field value) id actor now st = bulk_set_field id field value actor now st

  -- The loop over the selection, which the first error ends. The code reads the clock for each entity;
  -- here one instant stands for the request.
  unfoldable pub apply_all :
      BulkAction → List ℕ → Text → Text → Session T → Result Fault (Session T)
  unfolding apply_action
  apply_all action [] actor now st = ok st
  apply_all action (id ∷ ids) actor now st =
      apply_action action id actor now st >>= λ after. apply_all action ids actor now after

  -- The action by its name, with its inputs checked.
  unfoldable pub parse_action : String → Text → Text → Text → Option BulkAction
  unfolding text_fields
  parse_action action tag field value =
      let name = trim_space tag in
      let key = trim_space field in
      if action == "delete"
      then some bulk_delete
      else if action == "tag-add" && not (name == [])
      then some (tag_add name)
      else if action == "tag-remove" && not (name == [])
      then some (tag_remove name)
      else if action == "set-field" && is_string_field key
      then some (set_field key value)
      else none

  unfoldable pub run_bulk :
      Option BulkAction → List ℕ → Text → Text → Tables T → Tables T × List Event × Answer
  run_bulk none ids actor now t = (t, [], bad_request)
  run_bulk (some action) ids actor now t =
      with_tx t (apply_all action ids actor now (record { tables = t; events = [] }))

  -- The tables after the request, the events that are dispatched and the answer. Without a selection
  -- there is nothing to do.
  unfoldable pub bulk :
      String → List ℕ → Text → Text → Text → Text → Text → Tables T → Tables T × List Event × Answer
  unfolding run_bulk parse_action apply_all
  bulk action [] tag field value actor now t = (t, [], redirected)
  bulk action (id ∷ ids) tag field value actor now t =
      run_bulk (parse_action action tag field value) (id ∷ ids) actor now t
