-- ===== src/Portability.antt =====
-- internal/store/portability.go: a snapshot of the inventory, its checks and repairs, and the import
-- that replaces the inventory with it. A list of records is a list of ids with the other columns.
-- `E` has the columns of the entities that the code only carries.
pub mod Links
pub mod Whole
pub mod Cabling
pub mod RoundTrip
pub mod Import
use almanaut.Base.{
  Bool, List, Option, String, [], bool_eq, if◌then◌else◌, list_eq, nat_eq, none, pair_eq, some,
  string_eq, ℕ, ◌+◌, ◌==◌, ◌∷◌,
}
use almanaut.Base.Text.{Text}
use almanaut.Base.Result.{Result, err, ok, ◌>>=◌}
use almanaut.Base.Assoc.{Assoc, keys, lookup, map_values}
use almanaut.Inventory.{EntityRef, Relationship}
use almanaut.Resource.{JournalEntry, Tag}
use almanaut.Ports.{Nic, Port}

pub record CustomFieldDef : Type 0 where
  pub entity_type : String
  pub name : Text
  pub label : Text
  pub kind : Text
  pub created_at : Text

pub record CustomFieldValue : Type 0 where
  pub entity : EntityRef
  pub def_id : ℕ
  pub value : Text

pub record Snapshot (E : Type 0) : Type 0 where
  pub version : ℕ
  pub hosts : Assoc ℕ E
  pub services : Assoc ℕ E
  pub networks : Assoc ℕ E
  pub domains : Assoc ℕ E
  pub certificates : Assoc ℕ E
  pub backups : Assoc ℕ E
  pub hardware : Assoc ℕ E
  pub subscriptions : Assoc ℕ E
  pub accounts : Assoc ℕ E
  pub vlans : Assoc ℕ E
  pub reservations : Assoc ℕ E
  pub contacts : Assoc ℕ E
  pub sites : Assoc ℕ E
  pub locations : Assoc ℕ E
  pub racks : Assoc ℕ E
  pub nics : Assoc ℕ Nic
  pub ports : Assoc ℕ Port
  pub relationships : List Relationship
  pub tags : Assoc ℕ Tag
  pub journal_entries : Assoc ℕ JournalEntry
  pub custom_field_defs : Assoc ℕ CustomFieldDef
  pub custom_field_values : Assoc ℕ CustomFieldValue

pub data ImportFault : Type 0 where
  newer_version constraint_failed : ImportFault
  -- What `Validate` refused, by its label and id.
  invalid : String → ℕ → ImportFault
  -- A port, its peer, and the port that this one is connected to.
  contradiction : ℕ → ℕ → ℕ → ImportFault
  -- A port and its NIC.
  other_host_nic : ℕ → ℕ → ImportFault

-- A list after a repair, and how many entries the repair dropped or cleared.
pub record Repaired (A : Type 0) : Type 0 where
  pub items : List A
  pub count : ℕ

unfoldable pub keep : {A : Type 0} → (A → Bool) → List A → Repaired A
keep accepts [] = record { items = []; count = 0 }
keep accepts (x ∷ xs) =
    let rest = keep accepts xs in
    if accepts x
    then record { items = x ∷ rest.items; count = rest.count }
    else record { items = rest.items; count = rest.count + 1 }

-- `validateAll`
unfoldable pub validate_all :
    {A : Type 0} → String → (ℕ → A → Bool) → Assoc ℕ A → Result ImportFault (Unit {0})
validate_all label is_valid [] = ok tt
validate_all label is_valid ((id, x) ∷ items) =
    if is_valid id x then validate_all label is_valid items else err (invalid label id)

abbrev pub with_peer : ℕ → ℕ → ℕ → Port → Port
with_peer id peer k p = if k == id then record p { peer_port_id = peer } else p

-- The peer of a port, written in place.
abbrev pub set_peer : ℕ → ℕ → Assoc ℕ Port → Assoc ℕ Port
set_peer id peer ports = map_values (with_peer id peer) ports

abbrev pub Paired : Type 0
Paired = Repaired (ℕ × Port)

-- The peer of a port with a link, looked up.
unfoldable pub pair_with : ℕ → ℕ → Option Port → Paired → Result ImportFault Paired
pair_with id peer_id none s = ok (record { items = set_peer id 0 s.items; count = s.count + 1 })
pair_with id peer_id (some peer) s =
    if peer.peer_port_id == id
    then ok s
    else if peer.peer_port_id == 0
    then ok (record s { items = set_peer peer_id id s.items })
    else err (contradiction id peer_id peer.peer_port_id)

unfoldable pub pair_port : ℕ → Option Port → Paired → Result ImportFault Paired
pair_port id none s = ok s
pair_port id (some p) s =
    if p.peer_port_id == 0
    then ok s
    else pair_with id p.peer_port_id (lookup p.peer_port_id s.items) s

-- The loop of `pairPortLinks` over the ports of these ids.
unfoldable pub pair_ports : List ℕ → Paired → Result ImportFault Paired
pair_ports [] s = ok s
pair_ports (id ∷ ids) s = pair_port id (lookup id s.items) s >>= pair_ports ids

-- No two ports of the list have one id; a file with two is refused by the primary key.
unfoldable pub pair_port_links : Assoc ℕ Port → Result ImportFault Paired
pair_port_links ports = pair_ports (keys ports) (record { items = ports; count = 0 })

abbrev pub add_port : ℕ → Port → Paired → Paired
add_port id p rest = record rest { items = (id, p) ∷ rest.items }

-- The NIC of a port that names one, looked up: what becomes of the port, and whether it was cleared.
unfoldable pub check_port_nic : ℕ → Port → Option Nic → Result ImportFault (Port × ℕ)
check_port_nic id p none = ok (record p { nic_id = 0 }, 1)
check_port_nic id p (some nic) =
    if nic.host_id == p.owner_id then ok (p, 0) else err (other_host_nic id p.nic_id)

unfoldable pub check_port_nics : Assoc ℕ Port → Assoc ℕ Nic → Result ImportFault Paired
check_port_nics [] nics = ok (record { items = []; count = 0 })
check_port_nics ((id, p) ∷ ports) nics = do
  checked ← if p.nic_id == 0 then ok (p, 0) else check_port_nic id p (lookup p.nic_id nics)
  rest ← check_port_nics ports nics
  ok (record { items = (id, checked.0) ∷ rest.items; count = checked.1 + rest.count })
