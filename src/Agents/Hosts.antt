-- ===== src/Agents/Hosts.antt =====
-- `Host.Validate` of internal/domain/host.go, with the checks of liveness.go and rack.go there, and the
-- hosts as `agentReport` sees them.
use almanaut.Base.{
  Bool, List, Option, String, [], all, bool_eq, contains, false, if◌then◌else◌, is_some, leb,
  list_eq, ltb, map, nat_eq, none, not, pair_eq, some, string_eq, true, ℕ, ◌&&◌, ◌==◌, ◌||◌, ◌∷◌,
}
use almanaut.Base.Result.{Result, err, ok}
use almanaut.Base.Text.{Text, trim_space}
use almanaut.Base.Assoc.{Assoc}
use almanaut.Inventory.{Host}
use almanaut.Resource.{Fault, FieldChange, Kind}
use almanaut.Agents.{HostRef, Library}

abbrev pub rows_of : Assoc ℕ Host → List Host
rows_of [] = []
rows_of ((id, h) ∷ rows) = h ∷ rows_of rows

abbrev pub host_types : List String
host_types = "physical" ∷ "vm" ∷ "lxc" ∷ "vps" ∷ []

-- The hosts that no agent reports for, in the order of `HostRepo.List`.
unfoldable pub candidates : List ℕ → List Host → List HostRef
candidates bound [] = []
candidates bound (h ∷ hosts) =
    if contains bound h.id
    then candidates bound hosts
    else record { id = h.id; name = h.name; ips = h.ips } ∷ candidates bound hosts

module _ {Ip : Type 0} (lib : Library Ip) where
  abbrev is_port : Option ℕ → Bool
  is_port none = false
  is_port (some p) = leb 1 p && leb p 65535

  abbrev is_target : Option (Text × Text) → Bool
  is_target none = false
  is_target (some (host, port)) = not (trim_space host == []) && is_port (lib.parse_number port)

  abbrev pub is_check_address : Text → Bool
  is_check_address addr = trim_space addr == [] || is_target (lib.split_host_port addr)

  abbrev pub is_rack_placement : ℕ → ℕ → ℕ → Bool
  is_rack_placement rack_id position u_height =
      rack_id == 0 || (not (ltb position 1) && not (ltb u_height 1))

  -- `Host.Validate`
  unfoldable pub is_valid_host : Host → Bool
  is_valid_host h =
      not (trim_space h.name == [])
      && contains host_types h.type
      && all (λ ip. is_some (lib.parse_ip ip)) h.ips
      && is_check_address h.check_address
      && is_rack_placement h.rack_id h.rack_position h.u_height

abbrev pub empty_host : Host
empty_host = record {
  id = 0;
  name = [];
  type = "";
  os = [];
  cpu = [];
  ram = [];
  disk = [];
  status = [];
  ips = [];
  notes = [];
  check_address = [];
  rack_id = 0;
  rack_position = 0;
  u_height = 0;
}

-- The resource of the hosts, where `json` has what `encoding/json` does.
abbrev pub host_kind : {Ip S : Type 0} → Library Ip → Kind Host S → Kind Host S
host_kind lib json = record json {
  sing = "host";
  new_item = empty_host;
  id_of = λ h. h.id;
  with_id = λ id h. record h { id = id };
  label = λ h. h.name;
  is_valid = is_valid_host lib;
  accepts = λ rows id h. true;
  on_delete = λ deleted id h. h;
  to_lower = lib.to_lower;
}

abbrev pub names_of : Result Fault (List FieldChange) → List Text
names_of (err problem) = []
names_of (ok changes) = map (λ c. c.field) changes
