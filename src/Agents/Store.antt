-- ===== src/Agents/Store.antt =====
-- internal/store/agent_repo.go: which agent reports for which host, and the last reports of each host.
use almanaut.Base.{
  Bool, List, Option, [], any, bool_eq, find, if◌then◌else◌, list_eq, map, nat_eq, not, pair_eq,
  select, string_eq, suc, zero, ℕ, ◌&&◌, ◌==◌, ◌∷◌,
}
use almanaut.Base.Result.{Result, ok, refuse_if, ◌>>◌}
use almanaut.Base.Text.{Text}

pub record AgentBinding : Type 0 where
  pub host_id : ℕ
  pub agent_id : Text
  pub fingerprint : Text
  pub last_seen : Text
  pub last_conflict_at : Text
  pub last_conflict_hostname : Text

pub record StoredReport : Type 0 where
  pub host_id : ℕ
  pub agent_id : Text
  pub received_at : Text
  pub agent_version : Text
  pub schema_version : ℕ
  pub payload : Text

-- The tables `host_agents` and `agent_reports`, the latter newest first.
pub record AgentDb : Type 0 where
  pub bindings : List AgentBinding
  pub reports : List StoredReport

-- The UNIQUE column `agent_id` refused the row.
pub data BindFault : Type 0 where
  agent_id_conflict : BindFault

abbrev pub agent_report_retention : ℕ
agent_report_retention = 30

abbrev pub by_agent_id : Text → List AgentBinding → Option AgentBinding
by_agent_id agent_id bindings = find (λ b. b.agent_id == agent_id) bindings

abbrev pub by_host_id : ℕ → List AgentBinding → Option AgentBinding
by_host_id host_id bindings = find (λ b. b.host_id == host_id) bindings

-- ON CONFLICT(host_id) DO UPDATE
unfoldable pub put_binding : AgentBinding → List AgentBinding → List AgentBinding
put_binding b [] = b ∷ []
put_binding b (row ∷ rows) = if row.host_id == b.host_id then b ∷ rows else row ∷ put_binding b rows

-- Another host's row has the agent id.
abbrev pub is_taken : AgentBinding → List AgentBinding → Bool
is_taken b bindings =
    any (λ row. row.agent_id == b.agent_id && not (row.host_id == b.host_id)) bindings

abbrev pub refreshed : ℕ → Text → Text → Text → AgentBinding
refreshed host_id agent_id fingerprint now = record {
  host_id = host_id;
  agent_id = agent_id;
  fingerprint = fingerprint;
  last_seen = now;
  last_conflict_at = [];
  last_conflict_hostname = [];
}

unfoldable pub upsert : AgentBinding → AgentDb → Result BindFault AgentDb
unfolding put_binding
upsert b db =
    refuse_if (is_taken b db.bindings) agent_id_conflict
    >> ok (record db { bindings = put_binding b db.bindings })

-- The keys of the set.
unfoldable pub bound_host_ids : List AgentBinding → List ℕ
bound_host_ids [] = []
bound_host_ids (b ∷ bindings) = b.host_id ∷ bound_host_ids bindings

-- Whether a binding was there to remove, and the table without it.
unfoldable pub unbind : ℕ → AgentDb → Bool × AgentDb
unbind host_id db = (
  any (λ b. b.host_id == host_id) db.bindings,
  record db { bindings = select (λ b. not (b.host_id == host_id)) db.bindings },
)

abbrev pub stamp : Text → Text → Text → AgentBinding → AgentBinding
stamp agent_id hostname at b =
    if b.agent_id == agent_id
    then record b { last_conflict_at = at; last_conflict_hostname = hostname }
    else b

unfoldable pub record_conflict : Text → Text → Text → AgentDb → AgentDb
record_conflict agent_id hostname at db = record db {
  bindings = map (stamp agent_id hostname at) db.bindings;
}

-- DELETE … WHERE host_id = ? AND id NOT IN (… ORDER BY id DESC LIMIT ?), from the newest row on.
unfoldable pub prune : ℕ → ℕ → List StoredReport → List StoredReport
prune host_id limit [] = []
prune host_id zero (r ∷ reports) =
    if r.host_id == host_id then prune host_id zero reports else r ∷ prune host_id zero reports
prune host_id (suc limit) (r ∷ reports) =
    if r.host_id == host_id
    then r ∷ prune host_id limit reports
    else r ∷ prune host_id (suc limit) reports

unfoldable pub record_report : StoredReport → AgentDb → AgentDb
unfolding prune
record_report r db = record db { reports = prune r.host_id agent_report_retention (r ∷ db.reports) }

unfoldable pub latest_report : ℕ → AgentDb → Option StoredReport
latest_report host_id db = find (λ r. r.host_id == host_id) db.reports

-- ON DELETE CASCADE of both tables, when a host is deleted.
unfoldable pub forget_host : ℕ → AgentDb → AgentDb
forget_host host_id db = record db {
  bindings = select (λ b. not (b.host_id == host_id)) db.bindings;
  reports = select (λ r. not (r.host_id == host_id)) db.reports;
}
