-- ===== src/Agents.antt =====
-- The reports of the agents that run on the hosts: internal/agentapi (the report and its resolution to a
-- host), internal/web/agent_merge.go, agent.go and agent_unbind.go, and internal/store/agent_repo.go. What
-- package `net` makes of an address and `unicode.ToLower` are parameters.
use almanaut.Base.Result.{Result, refuse_if, ◌>>=◌, ◌>>◌}
use almanaut.Base.Text.{Text, trim_space}
pub mod Resolve
pub mod Store
pub mod Hosts
pub mod Reporting
pub mod Bindings
pub mod Saving
pub mod Aims
pub mod Owners
pub mod Invariant
pub mod Removal
pub mod Requests
pub mod Conflicts
pub mod History
use almanaut.Base.{
  Bool, List, Option, String, [], bool_eq, if◌then◌else◌, list_eq, nat_eq, none, not, pair_eq, some,
  string_eq, ℕ, ◌++◌, ◌==◌, ◌∷◌,
}

pub record Interface : Type 0 where
  pub name : Text
  pub mac : Text
  pub addrs : List Text

-- The fields that the server reads.
pub record Report : Type 0 where
  pub schema_version : ℕ
  pub agent_id : Text
  pub agent_version : Text
  pub hostname : Text
  pub virt_kind : String
  pub os : Text
  pub cpu : Text
  pub ram : Text
  pub disk : Text
  pub interfaces : List Interface

abbrev pub schema_version : ℕ
schema_version = 1

pub data ReportFault : Type 0 where
  unsupported_schema agent_id_required hostname_required : ReportFault

-- `Report.Validate`
unfoldable pub check_report : Report → Result ReportFault (Unit {0})
check_report r = do
  refuse_if (not (r.schema_version == schema_version)) unsupported_schema
  refuse_if (trim_space r.agent_id == []) agent_id_required
  refuse_if (trim_space r.hostname == []) hostname_required

pub record Binding : Type 0 where
  pub host_id : ℕ
  pub agent_id : Text
  pub fingerprint : Text

pub record HostRef : Type 0 where
  pub id : ℕ
  pub name : Text
  pub ips : List Text

-- With the host's id.
pub data Decision : Type 0 where
  decide_create : Decision
  decide_adopt decide_update decide_conflict : ℕ → Decision

-- `strings.Join`
abbrev pub join : Text → List Text → Text
join sep [] = []
join sep (s ∷ []) = s
join sep (s ∷ t ∷ rest) = s ++ sep ++ join sep (t ∷ rest)

-- `strings.Cut` at one character: what stands before and after it, and all of the text if it is absent.
abbrev pub cut : ℕ → Text → Text × Text
cut mark [] = ([], [])
cut mark (c ∷ s) = if c == mark then ([], s) else (c ∷ (cut mark s).0, (cut mark s).1)

prepend : ℕ → List Text → List Text
prepend c [] = (c ∷ []) ∷ []
prepend c (part ∷ parts) = (c ∷ part) ∷ parts

-- `strings.Split` at one character.
unfoldable pub split : ℕ → Text → List Text
unfolding prepend
split mark [] = [] ∷ []
split mark (c ∷ s) = if c == mark then [] ∷ split mark s else prepend c (split mark s)

-- Package `net` and `unicode.ToLower`.
pub record Library (Ip : Type 0) : Type 0 where
  pub parse_ip : Text → Option Ip
  pub is_loopback : Ip → Bool
  pub is_link_local : Ip → Bool
  pub show_ip : Ip → Text
  pub to_lower : ℕ → ℕ
  -- `net.SplitHostPort` and `strconv.Atoi`.
  pub split_host_port : Text → Option (Text × Text)
  pub parse_number : Text → Option ℕ

abbrev pub prepend_found : Option Text → List Text → List Text
prepend_found none texts = texts
prepend_found (some t) texts = t ∷ texts
