-- ===== src/Agents/Resolve.antt =====
-- internal/agentapi/report.go and resolve.go, and the merge of internal/web/agent_merge.go.
use almanaut.Base.Text.{Text, text_lt, text_of, trim_space}
use almanaut.Base.{
  Bool, List, Option, String, [], any, bool_eq, contains, if◌then◌else◌, list_eq, map, nat_eq, none,
  not, pair_eq, some, string_eq, ℕ, ◌&&◌, ◌++◌, ◌==◌, ◌||◌, ◌∷◌,
}
use almanaut.Base.Sort.{sort_by}
use almanaut.Inventory.{Host}
use almanaut.Agents.{
  Binding, Decision, HostRef, Interface, Library, Report, cut, decide_adopt, decide_conflict,
  decide_create, decide_update, join, prepend_found, split,
}

module _ {Ip : Type 0} (lib : Library Ip) where
  unfoldable pub normalize_name : Text → Text
  normalize_name s = map lib.to_lower (trim_space s)

  abbrev pub macs_of : List Interface → List Text
  macs_of [] = []
  macs_of (i ∷ rest) =
      let mac = normalize_name i.mac in if mac == [] then macs_of rest else mac ∷ macs_of rest

  unfoldable pub fingerprint : Report → Text
  fingerprint r =
      normalize_name r.hostname
      ++ text_of "|"
      ++ join (text_of ",") (sort_by text_lt (macs_of r.interfaces))

  usable_ip : Option Ip → Option Text
  usable_ip none = none
  usable_ip (some ip) =
      if lib.is_loopback ip || lib.is_link_local ip then none else some (lib.show_ip ip)

  -- The text without a prefix length and without a zone.
  unfoldable pub sanitize_reported_ip : Text → Option Text
  unfolding usable_ip
  sanitize_reported_ip a =
      let bare = trim_space a in
      if bare == [] then none else usable_ip (lib.parse_ip (cut 37 (cut 47 bare).0).0)

  abbrev pub sanitize_all : List Text → List Text
  sanitize_all [] = []
  sanitize_all (a ∷ addrs) = prepend_found (sanitize_reported_ip a) (sanitize_all addrs)

  unfoldable pub reported_ips : List Interface → List Text
  reported_ips [] = []
  reported_ips (i ∷ rest) = sanitize_all i.addrs ++ reported_ips rest

  split_macs : Text → List Text
  split_macs [] = []
  split_macs (c ∷ s) = split 44 (c ∷ s)

  unfoldable pub split_fingerprint : Text → Text × List Text
  unfolding split_macs
  split_fingerprint fp = ((cut 124 fp).0, split_macs (cut 124 fp).1)

  unfoldable pub is_clone : Text → Text → Bool
  unfolding split_fingerprint
  is_clone old now =
      let before = split_fingerprint old in
      let current = split_fingerprint now in
      not (before.0 == current.0) && not (any (contains before.1) current.1)

  -- By the normalised name first, then by any shared address.
  abbrev pub match_name : Text → List HostRef → Option ℕ
  match_name want [] = none
  match_name want (h ∷ hosts) =
      if normalize_name h.name == want then some h.id else match_name want hosts

  abbrev pub match_ip : List Text → List HostRef → Option ℕ
  match_ip reported [] = none
  match_ip reported (h ∷ hosts) =
      if any (contains reported) h.ips then some h.id else match_ip reported hosts

  abbrev pub or_else : Option ℕ → Option ℕ → Option ℕ
  or_else none other = other
  or_else (some id) other = some id

  unfoldable pub match_host : Report → List HostRef → Option ℕ
  unfolding reported_ips
  match_host r hosts =
      or_else (match_name (normalize_name r.hostname) hosts)
        (match_ip (reported_ips r.interfaces) hosts)

  abbrev pub adopt_or_create : Option ℕ → Decision
  adopt_or_create none = decide_create
  adopt_or_create (some id) = decide_adopt id

  unfoldable pub resolve : Report → Option Binding → List HostRef → Decision
  unfolding is_clone match_host fingerprint
  resolve r (some existing) hosts =
      if is_clone existing.fingerprint (fingerprint r)
      then decide_conflict existing.host_id
      else decide_update existing.host_id
  resolve r none hosts = adopt_or_create (match_host r hosts)

  abbrev pub prefer_reported : Text → Text → Text
  prefer_reported [] current = current
  prefer_reported (c ∷ s) current = c ∷ s

  -- Also for what the agent cannot know: "physical".
  abbrev pub host_type_of : String → String
  host_type_of virt_kind =
      if virt_kind == "vm" || virt_kind == "kvm"
      then "vm"
      else if virt_kind == "lxc"
      then "lxc"
      else "physical"

  abbrev pub prefer_ips : List Text → List Text → List Text
  prefer_ips [] current = current
  prefer_ips (ip ∷ ips) current = ip ∷ ips

  unfoldable pub merge_agent_report : Host → Report → Bool → Host
  unfolding reported_ips
  merge_agent_report h r is_create =
      let merged : Host = record h {
        os = prefer_reported r.os h.os;
        cpu = prefer_reported r.cpu h.cpu;
        ram = prefer_reported r.ram h.ram;
        disk = prefer_reported r.disk h.disk;
        ips = prefer_ips (reported_ips r.interfaces) h.ips;
      } in
      if is_create
      then record merged { name = r.hostname; type = host_type_of r.virt_kind }
      else merged
