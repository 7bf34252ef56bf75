-- ===== src/Ports.antt =====
-- internal/store/port_repo.go and internal/domain/port.go: ports and their cables. The two tables
-- are maps from row ids, an SQL statement is a function on them, and a refused call returns an
-- error and no state, since its transaction is rolled back. Failures of the database are left out.
pub mod Cables
pub mod Removal
use almanaut.Base.{
  Bool, Option, String, [], bool_eq, if◌then◌else◌, list_eq, nat_eq, none, not, pair_eq, some,
  string_eq, ℕ, ◌&&◌, ◌+◌, ◌==◌, ◌||◌,
}
use almanaut.Base.Text.{Text, trim_space}
use almanaut.Base.Assoc.{Assoc, any_value, delete, insert, lookup, map_values}
use almanaut.Base.Result.{Result, err, ok, refuse_if, ◌>>=◌, ◌>>◌}

-- The persisted columns but the id.
pub record Port : Type 0 where
  pub owner_type : String
  pub owner_id : ℕ
  pub nic_id : ℕ
  pub name : Text
  pub mac : Text
  pub mgmt_only : Bool
  pub peer_port_id : ℕ
  pub notes : Text

pub record Nic : Type 0 where
  pub host_id : ℕ
  pub name : Text
  pub kind : String
  pub model : Text
  pub serial : Text
  pub notes : Text

pub record Db : Type 0 where
  pub ports : Assoc ℕ Port
  pub nics : Assoc ℕ Nic
  -- The next id of the AUTOINCREMENT column of `ports`.
  pub next_id : ℕ

pub data PortError : Type 0 where
  name_required invalid_owner_type owner_required nic_on_hardware self_connected bad_mac : PortError
  nic_missing nic_elsewhere peer_missing peer_taken unique_violation not_found : PortError

-- `Validate`. An id is a natural number, so the tests for negative references are gone.
-- `parse_mac` says whether `net.ParseMAC` accepts a text.
unfoldable pub validate : (Text → Bool) → ℕ → Port → Result PortError (Unit {0})
validate parse_mac id p = do
  refuse_if (trim_space p.name == []) name_required
  refuse_if (not (p.owner_type == "host" || p.owner_type == "hardware")) invalid_owner_type
  refuse_if (p.owner_id == 0) owner_required
  refuse_if (not (p.nic_id == 0) && not (p.owner_type == "host")) nic_on_hardware
  refuse_if (not (id == 0) && p.peer_port_id == id) self_connected
  let mac = trim_space p.mac
  refuse_if (not (mac == []) && not (parse_mac mac)) bad_mac

check_card : Port → Option Nic → Result PortError (Unit {0})
check_card v none = err nic_missing
check_card v (some nic) =
    refuse_if (not (v.owner_type == "host") || not (nic.host_id == v.owner_id)) nic_elsewhere

unfoldable pub check_nic : Db → Port → Result PortError (Unit {0})
unfolding check_card
check_nic db v = if v.nic_id == 0 then ok tt else check_card v (lookup v.nic_id db.nics)

check_free : ℕ → Option Port → Result PortError (Unit {0})
check_free id none = err peer_missing
check_free id (some p) =
    refuse_if (not (p.peer_port_id == 0) && not (p.peer_port_id == id)) peer_taken

-- UPDATE ports SET peer_port_id = 0 WHERE id = ? OR peer_port_id = ?
unplug : ℕ → ℕ → Port → Port
unplug id k p = if k == id || p.peer_port_id == id then record p { peer_port_id = 0 } else p

-- UPDATE ports SET peer_port_id = CASE id WHEN ? THEN ? ELSE ? END WHERE id IN (?, ?)
plug : ℕ → ℕ → ℕ → Port → Port
plug id peer k p =
    if k == id
    then record p { peer_port_id = peer }
    else if k == peer
    then record p { peer_port_id = id }
    else p

-- What the unique index on `peer_port_id` refuses: a second row that names one of the two ports.
is_claimed : ℕ → ℕ → ℕ → Port → Bool
is_claimed id peer k p = p.peer_port_id == peer || p.peer_port_id == id

unfoldable pub connect : Db → ℕ → ℕ → Result PortError Db
unfolding check_free unplug plug is_claimed
connect db id peer = do
  refuse_if (peer == id) self_connected
  if peer == 0 then ok tt else check_free id (lookup peer db.ports)
  let unplugged = map_values (unplug id) db.ports
  if peer == 0 then ok (record db { ports = unplugged }) else do
    refuse_if (any_value (is_claimed id peer) unplugged) unique_violation
    ok (record db { ports = map_values (plug id peer) unplugged })

-- `Create` returns the new row's id.
unfoldable pub create : Db → Port → Result PortError (Db × ℕ)
create db v = do
  check_nic db v
  let id = db.next_id
  let row : Port = record v { peer_port_id = 0 }
  db' ← connect (record db { ports = insert id row db.ports; next_id = id + 1 }) id v.peer_port_id
  ok (db', id)

-- All columns but the peer's.
overwrite : Db → ℕ → Port → Option Port → Result PortError Db
overwrite db id v none = err not_found
overwrite db id v (some old) =
    ok (record db { ports = insert id (record v { peer_port_id = old.peer_port_id }) db.ports })

unfoldable pub update : Db → ℕ → Port → Result PortError Db
unfolding overwrite
update db id v = do
  check_nic db v
  db' ← overwrite db id v (lookup id db.ports)
  connect db' id v.peer_port_id

clear_peer : ℕ → ℕ → Port → Port
clear_peer id k p = if p.peer_port_id == id then record p { peer_port_id = 0 } else p

unfoldable pub delete_port : Db → ℕ → Db
unfolding clear_peer
delete_port db id = record db { ports = delete id (map_values (clear_peer id) db.ports) }

-- NICRepo.Delete: the ports on the card lose it.
clear_nic : ℕ → ℕ → Port → Port
clear_nic id k p = if p.nic_id == id then record p { nic_id = 0 } else p

unfoldable pub delete_nic : Db → ℕ → Db
unfolding clear_nic
delete_nic db id = record db {
  ports = map_values (clear_nic id) db.ports;
  nics = delete id db.nics;
}

-- NICRepo.Create, with the id that the AUTOINCREMENT column gives.
unfoldable pub create_nic : ℕ → Nic → Db → Db
create_nic id v db = record db { nics = insert id v db.nics }

-- UPDATE ports SET nic_id = 0 WHERE nic_id = ? AND NOT (owner_type = 'host' AND owner_id = ?)
drop_moved : ℕ → Nic → ℕ → Port → Port
drop_moved id v k p =
    if p.nic_id == id && not (p.owner_type == "host" && p.owner_id == v.host_id)
    then record p { nic_id = 0 }
    else p

overwrite_nic : Db → ℕ → Nic → Option Nic → Result PortError Db
unfolding drop_moved
overwrite_nic db id v none = err not_found
overwrite_nic db id v (some old) =
    ok (record db { ports = map_values (drop_moved id v) db.ports; nics = insert id v db.nics })

-- NICRepo.Update: the ports of the old host lose a card that moves.
unfoldable pub update_nic : Db → ℕ → Nic → Result PortError Db
unfolding overwrite_nic
update_nic db id v = overwrite_nic db id v (lookup id db.nics)
