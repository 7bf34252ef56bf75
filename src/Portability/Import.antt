-- ===== src/Portability/Import.antt =====
-- `Export` and `Import` of internal/store/portability.go, as functions on a database. The order of a
-- table's rows is the one that its `List` gives. An import that fails leaves the database as it was,
-- since nothing is written before the transaction, which is rolled back. Failures of the database are
-- left out, but for rows that its constraints refuse.
use almanaut.Base.{
  Bool, List, Option, String, [], bool_eq, contains, false, if◌then◌else◌, is_some, length, list_eq,
  ltb, map, nat_eq, none, not, pair_eq, select, some, string_eq, ℕ, ◌&&◌, ◌++◌, ◌+◌, ◌==◌, ◌∷◌,
}
use almanaut.Base.Text.{Text, text_of}
use almanaut.Base.Result.{Result, ok, refuse_if, ◌>>=◌, ◌>>◌}
use almanaut.Base.Assoc.{has_unique_keys, keys, lookup}
use almanaut.Inventory.{EntityRef, Relationship}
use almanaut.Resource.{Attachment, ChangeEvent, JournalEntry, Tag, normalize_tag}
use almanaut.Ports.{Nic, Port}
use almanaut.Portability.{
  CustomFieldDef, CustomFieldValue, ImportFault, Snapshot, check_port_nics, constraint_failed, keep,
  newer_version, pair_port_links, validate_all,
}

-- What the code calls: `Validate` of the records, the tables' constraints, and the tags' lower case.
pub record Checks (E : Type 0) : Type 0 where
  -- By the label of the list.
  pub is_valid : String → ℕ → E → Bool
  pub is_valid_nic : ℕ → Nic → Bool
  pub is_valid_port : ℕ → Port → Bool
  pub is_valid_relationship : ℕ → Relationship → Bool
  pub is_valid_tag : ℕ → Tag → Bool
  pub is_valid_entry : ℕ → JournalEntry → Bool
  pub is_valid_def : ℕ → CustomFieldDef → Bool
  pub is_valid_value : ℕ → CustomFieldValue → Bool
  pub admits : Snapshot E → Bool
  pub to_lower : ℕ → ℕ
  -- `%d`
  pub decimal : ℕ → Text

pub record Database (E : Type 0) : Type 0 where
  -- The tables of `inventoryTables`.
  pub inventory : Snapshot E
  -- The rows of `derivedStateTables`.
  pub liveness_state : List Text
  pub cert_probe_state : List Text
  pub notification_state : List Text
  pub attachments : List Attachment
  -- Oldest first.
  pub changelog : List ChangeEvent

abbrev pub snapshot_version : ℕ
snapshot_version = 1

unfoldable pub export : {E : Type 0} → Database E → Snapshot E
export db = record db.inventory { version = snapshot_version }

abbrev with_id : Relationship → ℕ × Relationship
with_id r = (r.id, r)

unfoldable pub validate_snapshot :
    {E : Type 0} → Checks E → Snapshot E → Result ImportFault (Unit {0})
validate_snapshot c s = do
  validate_all "host" (c.is_valid "host") s.hosts
  validate_all "service" (c.is_valid "service") s.services
  validate_all "network" (c.is_valid "network") s.networks
  validate_all "domain" (c.is_valid "domain") s.domains
  validate_all "certificate" (c.is_valid "certificate") s.certificates
  validate_all "backup" (c.is_valid "backup") s.backups
  validate_all "hardware" (c.is_valid "hardware") s.hardware
  validate_all "subscription" (c.is_valid "subscription") s.subscriptions
  validate_all "account" (c.is_valid "account") s.accounts
  validate_all "vlan" (c.is_valid "vlan") s.vlans
  validate_all "reservation" (c.is_valid "reservation") s.reservations
  validate_all "contact" (c.is_valid "contact") s.contacts
  validate_all "site" (c.is_valid "site") s.sites
  validate_all "location" (c.is_valid "location") s.locations
  validate_all "rack" (c.is_valid "rack") s.racks
  validate_all "nic" c.is_valid_nic s.nics
  validate_all "port" c.is_valid_port s.ports
  validate_all "relationship" c.is_valid_relationship (map with_id s.relationships)
  validate_all "tag" c.is_valid_tag s.tags
  validate_all "journal_entry" c.is_valid_entry s.journal_entries
  validate_all "custom_field_def" c.is_valid_def s.custom_field_defs
  validate_all "custom_field_value" c.is_valid_value s.custom_field_values

-- The ids of the records of a type, where `entityTables` names its table.
unfoldable pub ids_of : {E : Type 0} → Snapshot E → String → Option (List ℕ)
ids_of s type =
    if type == "host"
    then some (keys s.hosts)
    else if type == "service"
    then some (keys s.services)
    else if type == "network"
    then some (keys s.networks)
    else if type == "domain"
    then some (keys s.domains)
    else if type == "certificate"
    then some (keys s.certificates)
    else if type == "backup"
    then some (keys s.backups)
    else if type == "hardware"
    then some (keys s.hardware)
    else if type == "subscription"
    then some (keys s.subscriptions)
    else if type == "account"
    then some (keys s.accounts)
    else if type == "vlan"
    then some (keys s.vlans)
    else if type == "reservation"
    then some (keys s.reservations)
    else if type == "contact"
    then some (keys s.contacts)
    else if type == "site"
    then some (keys s.sites)
    else if type == "location"
    then some (keys s.locations)
    else if type == "rack"
    then some (keys s.racks)
    else if type == "nic"
    then some (keys s.nics)
    else if type == "port"
    then some (keys s.ports)
    else none

abbrev pub is_among : ℕ → Option (List ℕ) → Bool
is_among id none = false
is_among id (some ids) = contains ids id

unfoldable pub has : {E : Type 0} → Snapshot E → EntityRef → Bool
has s ref = is_among ref.1 (ids_of s ref.0)

abbrev pub has_ends : {E : Type 0} → Snapshot E → Relationship → Bool
has_ends s r = has s (r.from_type, r.from_id) && has s (r.to_type, r.to_id)

abbrev is_def_of : String → Option CustomFieldDef → Bool
is_def_of type none = false
is_def_of type (some def) = def.entity_type == type

abbrev pub has_field : {E : Type 0} → Snapshot E → CustomFieldValue → Bool
has_field s v = is_def_of v.entity.0 (lookup v.def_id s.custom_field_defs) && has s v.entity

-- With the number of entries it dropped.
unfoldable pub drop_dangling_refs : {E : Type 0} → Snapshot E → Snapshot E × ℕ
drop_dangling_refs s =
    let relationships = keep (has_ends s) s.relationships in
    let tags = keep (λ (x : ℕ × Tag). has s x.1.entity) s.tags in
    let entries = keep (λ (x : ℕ × JournalEntry). has s x.1.entity) s.journal_entries in
    let values = keep (λ (x : ℕ × CustomFieldValue). has_field s x.1) s.custom_field_values in
    (
      record s {
        relationships = relationships.items;
        tags = tags.items;
        journal_entries = entries.items;
        custom_field_values = values.items;
      },
      relationships.count + tags.count + entries.count + values.count,
    )

-- The snapshot with its dangling references and its links repaired, and the number of repairs.
unfoldable pub repair : {E : Type 0} → Snapshot E → Result ImportFault (Snapshot E × ℕ)
repair s = do
  let kept = drop_dangling_refs s
  paired ← pair_port_links kept.0.ports
  carded ← check_port_nics paired.items kept.0.nics
  ok (record kept.0 { ports = carded.items }, kept.1 + (paired.count + carded.count))

-- One of the deletions of `reconcileSideTables`.
abbrev pub is_orphan : {E : Type 0} → Snapshot E → Attachment → Bool
is_orphan s a = is_some (ids_of s a.entity.0) && not (has s a.entity)

-- The tables that are no part of a snapshot.
unfoldable pub reconcile_side_tables : {E : Type 0} → Database E → Database E
reconcile_side_tables db = record db {
  liveness_state = [];
  cert_probe_state = [];
  notification_state = [];
  attachments = select (λ a. not (is_orphan db.inventory a)) db.attachments;
}

abbrev pub normalized : (ℕ → ℕ) → ℕ × Tag → ℕ × Tag
normalized to_lower (id, tag) = (id, record tag { name = normalize_tag to_lower tag.name })

-- Every row with its id and columns; the tags' names are normalised. A nil list of addresses and an
-- empty one are one list here.
unfoldable pub replace_inventory :
    {E : Type 0} → Checks E → Snapshot E → Database E → Result ImportFault (Database E)
replace_inventory c s db = do
  let written = record s { tags = map (normalized c.to_lower) s.tags }
  refuse_if (not (has_unique_keys s.ports && c.admits written)) constraint_failed
  ok (record db { inventory = written })

unfoldable pub count_records : {E : Type 0} → Snapshot E → ℕ
count_records s =
    length s.hosts
    + length s.services
    + length s.networks
    + length s.domains
    + length s.certificates
    + length s.backups
    + length s.hardware
    + length s.subscriptions
    + length s.accounts
    + length s.vlans
    + length s.reservations
    + length s.contacts
    + length s.sites
    + length s.locations
    + length s.racks
    + length s.nics
    + length s.ports
    + length s.relationships
    + length s.tags
    + length s.journal_entries
    + length s.custom_field_defs
    + length s.custom_field_values

abbrev pub import_entry : {E : Type 0} → Checks E → Text → Snapshot E → ℕ → ChangeEvent
import_entry c now s skipped = record {
  entity = ("", 0);
  label = text_of "inventory";
  action = "import";
  actor = [];
  changes =
      record { field = text_of "records"; old = []; updated = c.decimal (count_records s) }
      ∷ (if skipped == 0
          then []
          else record {
            field = text_of "dangling references skipped";
            old = [];
            updated = c.decimal skipped;
          }
            ∷ []);
  created_at = now;
}

-- What the transaction does once the inventory is replaced.
abbrev pub finish_import : {E : Type 0} → Checks E → Text → Snapshot E × ℕ → Database E → Database E
finish_import c now repaired replaced =
    let reconciled = reconcile_side_tables replaced in
    record reconciled {
      changelog = reconciled.changelog ++ import_entry c now repaired.0 repaired.1 ∷ [];
    }

unfoldable pub import_snapshot :
    {E : Type 0} → Checks E → Text → Snapshot E → Database E → Result ImportFault (Database E)
import_snapshot c now s db = do
  refuse_if (ltb snapshot_version s.version) newer_version
  validate_snapshot c s
  repaired ← repair s
  replaced ← replace_inventory c repaired.0 db
  ok (finish_import c now repaired replaced)
