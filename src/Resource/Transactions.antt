-- ===== src/Resource/Transactions.antt =====
-- `createEntityTx`, `updateEntityTx` and `deleteEntityTx` of internal/web/resource.go.
use almanaut.Base.{
  List, Option, String, [], bool_eq, list_eq, nat_eq, none, not, pair_eq, some, string_eq, suc, ℕ,
  ◌++◌, ◌∷◌,
}
use almanaut.Base.Assoc.{Assoc, delete, insert, lookup, map_values}
use almanaut.Base.Result.{Result, err, ok, refuse_if, ◌>>=◌, ◌>>◌}
use almanaut.Base.Text.{Text}
use almanaut.Inventory.{EntityRef}
use almanaut.Resource.{
  ChangeEvent, Event, Fault, FieldChange, Kind, Session, Tables, broken_json, found, log_change,
  not_found, refused, set_values, without_entity,
}
use almanaut.Resource.Diff.{diff}

module _ {T S : Type 0} (k : Kind T S) where
  abbrev pub ref : ℕ → EntityRef
  ref id = (k.sing, id)

  abbrev pub new_event : ℕ → String → Text → Text → Option Text → Event
  new_event id action actor now content = record {
    entity = ref id;
    action = action;
    actor = actor;
    timestamp = now;
    content = content;
  }

  abbrev pub new_change : ℕ → Text → String → Text → List FieldChange → Text → ChangeEvent
  new_change id label action actor changes now = record {
    entity = ref id;
    label = label;
    action = action;
    actor = actor;
    changes = changes;
    created_at = now;
  }

  -- The repo's `CreateTx` and `UpdateTx`.
  abbrev pub create_row : T → Tables T → Result Fault (Tables T)
  create_row item t =
      refuse_if (not (k.accepts t.rows t.next_id item)) refused
      >> ok (record t {
        rows = insert t.next_id (k.with_id t.next_id item) t.rows;
        next_id = suc t.next_id;
      })

  abbrev pub update_row : T → Tables T → Result Fault (Tables T)
  update_row item t =
      refuse_if (not (k.accepts t.rows (k.id_of item) item)) refused
      >> ok (record t { rows = insert (k.id_of item) item t.rows })

  -- The entity, its values, its entry in the changelog and its event.
  unfoldable pub create_entity_tx :
      T → Assoc ℕ Text → Text → Text → Session T → Result Fault (ℕ × Session T)
  create_entity_tx item cf actor now st = do
    created ← create_row item st.tables
    let id = st.tables.next_id
    changes ← diff k k.new_item item
    content ← found broken_json (k.marshal item)
    let valued = record created { custom_values = set_values (ref id) cf created.custom_values }
    ok (
      id,
      record {
        tables = log_change (new_change id (k.label item) "create" actor changes now) valued;
        events = st.events ++ new_event id "created" actor now (some content) ∷ [];
      },
    )

  -- A save that changes no typed field is neither logged nor announced.
  unfoldable pub announce_update :
      T
      → List FieldChange
      → Text
      → Text
      → Option Text
      → Tables T
      → List Event
      → Result Fault (Session T)
  announce_update item [] actor now content t events = ok (record { tables = t; events = events })
  announce_update item (change ∷ changes) actor now none t events = err broken_json
  announce_update item (change ∷ changes) actor now (some content) t events = ok (record {
    tables =
        log_change (new_change (k.id_of item) (k.label item) "update" actor (change ∷ changes) now)
          t;
    events = events ++ new_event (k.id_of item) "updated" actor now (some content) ∷ [];
  })

  unfoldable pub update_entity_tx :
      T → Assoc ℕ Text → Text → Text → Session T → Result Fault (Session T)
  unfolding announce_update
  update_entity_tx item cf actor now st = do
    old ← found not_found (lookup (k.id_of item) st.tables.rows)
    saved ← update_row item st.tables
    let valued = record saved {
      custom_values = set_values (ref (k.id_of item)) cf saved.custom_values;
    }
    changes ← diff k old item
    announce_update item changes actor now (k.marshal item) valued st.events

  -- The repo's `DeleteTx`.
  abbrev pub delete_row : ℕ → Tables T → Tables T
  delete_row id t = record t { rows = delete id (map_values (k.on_delete id) t.rows) }

  unfoldable pub remove_entity : ℕ → T → Text → Text → Session T → Session T
  remove_entity id item actor now st =
      let cleaned = without_entity (ref id) (delete_row id st.tables) in
      record {
        tables = log_change (new_change id (k.label item) "delete" actor [] now) cleaned;
        events = st.events ++ new_event id "deleted" actor now none ∷ [];
      }

  unfoldable pub delete_entity_tx : ℕ → Text → Text → Session T → Result Fault (Session T)
  unfolding remove_entity
  delete_entity_tx id actor now st =
      found not_found (lookup id st.tables.rows) >>= λ item. ok (remove_entity id item actor now st)
