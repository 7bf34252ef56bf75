-- ===== src/Resource.antt =====
-- internal/web/resource.go (the entity transactions), internal/web/bulk.go, internal/domain/changelog.go
-- and tag.go, and the tables they write: relationship_repo.go, tag_repo.go, customfield_repo.go,
-- journal_repo.go, attachment_repo.go and changelog_repo.go of internal/store. One kind of entity with
-- its table of rows. A transaction is a function on a session, the tables and the webhook events that
-- wait for the commit. An error gives no session, since the transaction is rolled back. JSON, the fields
-- of the entity and its checks are those of `Kind`. Failures of the database are left out.
use almanaut.Base.Result.{Result, err, ok, refuse_if}
use almanaut.Base.Text.{Text, trim_space}
use almanaut.Base.Assoc.{Assoc, delete, insert, retain}
pub mod Diff
pub mod Transactions
pub mod Bulk
pub mod Changes
pub mod History
pub mod Removal
pub mod Selection
use almanaut.Base.{
  Bool, List, Option, String, [], any, bool_eq, if◌then◌else◌, list_eq, map, nat_eq, none, not,
  pair_eq, select, some, string_eq, true, ℕ, ◌&&◌, ◌++◌, ◌==◌, ◌||◌, ◌∷◌,
}
use almanaut.Inventory.{EntityRef, Relationship}

-- A JSON value as `any` holds it. `S` has the numbers, the Booleans and the parts of lists.
pub data Value (S : Type 0) : Type 0 where
  null_value : Value S
  text_value : Text → Value S
  list_value : List S → Value S
  scalar_value : S → Value S

-- An entity type: what `resource[T]` holds and what `encoding/json` does with its entities.
pub record Kind (T S : Type 0) : Type 0 where
  pub sing : String
  pub new_item : T
  pub id_of : T → ℕ
  pub with_id : ℕ → T → T
  pub label : T → Text
  pub is_valid : T → Bool
  -- Whether the constraints of the table admit this row.
  pub accepts : Assoc ℕ T → ℕ → T → Bool
  -- What the repo's `Delete` of a row does to another row of the table, from their ids: a port forgets
  -- the deleted peer, every other kind keeps its rows. The ports that `NICRepo.Delete` clears are
  -- another table's, and are left out here; Ports has them.
  pub on_delete : ℕ → ℕ → T → T
  pub marshal : T → Option Text
  pub decode : Text → Option (Assoc Text (Value S))
  pub encode : Assoc Text (Value S) → Option Text
  pub unmarshal : Text → Option T
  pub format_scalar : S → Text
  pub to_lower : ℕ → ℕ

pub record FieldChange : Type 0 where
  pub field : Text
  pub old : Text
  pub updated : Text

pub record ChangeEvent : Type 0 where
  pub entity : EntityRef
  pub label : Text
  pub action : String
  pub actor : Text
  pub changes : List FieldChange
  pub created_at : Text

pub record Event : Type 0 where
  pub entity : EntityRef
  pub action : String
  pub actor : Text
  pub timestamp : Text
  pub content : Option Text

pub record Tag : Type 0 where
  pub entity : EntityRef
  pub name : Text

pub record JournalEntry : Type 0 where
  pub entity : EntityRef
  pub kind : Text
  pub body : Text
  pub created_at : Text

pub record Attachment : Type 0 where
  pub entity : EntityRef
  pub filename : Text
  pub content_type : Text
  pub size : ℕ
  pub content : Text
  pub uploaded_at : Text
  pub uploaded_by : Text

pub record Tables (T : Type 0) : Type 0 where
  pub rows : Assoc ℕ T
  pub next_id : ℕ
  pub relationships : List Relationship
  pub tags : List Tag
  pub journal : List JournalEntry
  pub attachments : List Attachment
  -- By entity and field definition.
  pub custom_values : Assoc (EntityRef × ℕ) Text
  -- Oldest first.
  pub changelog : List ChangeEvent

pub record Session (T : Type 0) : Type 0 where
  pub tables : Tables T
  pub events : List Event

pub data Fault : Type 0 where
  not_found refused broken_json unknown_field invalid_item invalid_tag : Fault

pub data BulkAction : Type 0 where
  bulk_delete : BulkAction
  tag_add tag_remove : Text → BulkAction
  set_field : Text → Text → BulkAction

pub data Answer : Type 0 where
  redirected bad_request : Answer
  failed : Fault → Answer

abbrev pub found : {A : Type 0} → Fault → Option A → Result Fault A
found fault none = err fault
found fault (some a) = ok a

abbrev pub set_values :
    EntityRef → Assoc ℕ Text → Assoc (EntityRef × ℕ) Text → Assoc (EntityRef × ℕ) Text
set_values ref [] table = table
set_values ref ((def, value) ∷ values) table =
    set_values ref values
      (if value == [] then delete (ref, def) table else insert (ref, def) value table)

abbrev pub touches : EntityRef → Relationship → Bool
touches ref r = (r.from_type, r.from_id) == ref || (r.to_type, r.to_id) == ref

-- The five `DeleteByEntity`.
unfoldable pub without_entity : {T : Type 0} → EntityRef → Tables T → Tables T
without_entity ref t = record t {
  relationships = select (λ r. not (touches ref r)) t.relationships;
  tags = select (λ x. not (x.entity == ref)) t.tags;
  journal = select (λ x. not (x.entity == ref)) t.journal;
  custom_values = retain (λ at value. not (at.0 == ref)) t.custom_values;
  attachments = select (λ x. not (x.entity == ref)) t.attachments;
}

abbrev pub log_change : {T : Type 0} → ChangeEvent → Tables T → Tables T
log_change entry t = record t { changelog = t.changelog ++ entry ∷ [] }

unfoldable pub normalize_tag : (ℕ → ℕ) → Text → Text
normalize_tag to_lower s = map to_lower (trim_space (without_mark (trim_space s)))
  where
    without_mark : Text → Text
    without_mark [] = []
    without_mark (c ∷ rest) = if c == 35 then rest else c ∷ rest

-- `Tag.Validate`; the type is that of the resource.
abbrev pub check_tag : (ℕ → ℕ) → Tag → Result Fault (Unit {0})
check_tag to_lower t =
    refuse_if (t.entity.1 == 0 || normalize_tag to_lower t.name == []) invalid_tag

-- INSERT OR IGNORE INTO tags
abbrev pub add_tag : Tag → List Tag → List Tag
add_tag tag tags =
    if any (λ t. t.entity == tag.entity && t.name == tag.name) tags then tags else tags ++ tag ∷ []

abbrev pub mark_keys : List Text → Assoc Text Bool → Assoc Text Bool
mark_keys [] marked = marked
mark_keys (k ∷ ks) marked = mark_keys ks (insert k true marked)

-- `store.WithTx`, and the events that are dispatched after a commit.
abbrev pub with_tx :
    {T : Type 0} → Tables T → Result Fault (Session T) → Tables T × List Event × Answer
with_tx before (err fault) = (before, [], failed fault)
with_tx before (ok st) = (st.tables, st.events, redirected)

abbrev pub new_tag : EntityRef → Text → Tag
new_tag of name = record { entity = of; name = name }
