-- ===== src/Agents/Reporting.antt =====
-- `agentReport` of internal/web/agent.go and `unbindAgent` of agent_unbind.go, on the tables of the hosts
-- and of the agents. A transaction gives both, or an error and neither.
use almanaut.Base.{
  List, Option, [], bool_eq, false, list_eq, nat_eq, none, not, pair_eq, some, string_eq, true, ℕ,
  ◌++◌, ◌∷◌,
}
use almanaut.Base.Result.{Result, err, ok, refuse_if, ◌>>=◌, ◌>>◌}
use almanaut.Base.Text.{Text, text_lt, text_of}
use almanaut.Base.Sort.{sort_by}
use almanaut.Base.Assoc.{lookup}
use almanaut.Inventory.{Host}
use almanaut.Resource.{Event, Fault, Kind, Session, Tables, found, log_change, not_found}
use almanaut.Resource.Diff.{diff}
use almanaut.Resource.Transactions.{
  create_entity_tx, delete_entity_tx, new_change, update_entity_tx,
}
use almanaut.Agents.{
  Binding, Decision, Library, Report, ReportFault, check_report, decide_adopt, decide_conflict,
  decide_create, decide_update,
}
use almanaut.Agents.Resolve.{fingerprint, merge_agent_report, resolve}
use almanaut.Agents.Store.{
  AgentBinding, AgentDb, BindFault, StoredReport, agent_id_conflict, bound_host_ids, by_agent_id,
  by_host_id, forget_host, record_conflict, record_report, refreshed, unbind, upsert,
}
use almanaut.Agents.Hosts.{candidates, empty_host, host_kind, is_valid_host, names_of, rows_of}

pub record Db : Type 0 where
  pub hosts : Tables Host
  pub agents : AgentDb

-- What a transaction leaves, with the host and the fields that changed.
pub record Done : Type 0 where
  pub host_id : ℕ
  pub changed_fields : List Text
  pub hosts : Session Host
  pub agents : AgentDb

pub data Refusal : Type 0 where
  agent_conflict invalid_host : Refusal
  fault : Fault → Refusal

pub data Reply : Type 0 where
  accepted : ℕ → List Text → Reply
  malformed conflict rejected_host : Reply
  invalid_report : ReportFault → Reply
  server_error : Fault → Reply

abbrev pub lift : {A : Type 0} → Result Fault A → Result Refusal A
lift (err problem) = err (fault problem)
lift (ok a) = ok a

abbrev pub binding_of : Option AgentBinding → Option Binding
binding_of none = none
binding_of (some b) =
    some (record { host_id = b.host_id; agent_id = b.agent_id; fingerprint = b.fingerprint })

abbrev pub agent_actor : Report → Text
agent_actor r = text_of "agent:" ++ r.hostname

abbrev pub open_session : Tables Host → Session Host
open_session t = record { tables = t; events = [] }

module _ {Ip S : Type 0} (lib : Library Ip) (json : Kind Host S) where
  -- Only an agent without a binding is matched with the hosts.
  unfoldable pub decide : Report → Option AgentBinding → Db → Decision
  decide r (some b) db = resolve lib r (binding_of (some b)) []
  decide r none db = resolve lib r none (
      candidates (bound_host_ids db.agents.bindings)
        (sort_by (λ a b. text_lt a.name b.name) (rows_of db.hosts.rows)))

  unfoldable pub create_host :
      Report → Text → Tables Host → Result Refusal (ℕ × List Text × Session Host)
  create_host r now hosts =
      let h = merge_agent_report lib empty_host r true in
      refuse_if (not (is_valid_host lib h)) invalid_host
      >> (lift (create_entity_tx (host_kind lib json) h [] (agent_actor r) now (open_session hosts))
          >>= λ made. ok (made.0, names_of (diff json empty_host h), made.1))

  unfoldable pub update_host :
      ℕ → Report → Text → Tables Host → Result Refusal (ℕ × List Text × Session Host)
  update_host id r now hosts = lift (found not_found (lookup id hosts.rows)) >>= λ h.
      let merged = merge_agent_report lib h r false in
      refuse_if (not (is_valid_host lib merged)) invalid_host
      >> (lift (
            update_entity_tx (host_kind lib json) merged [] (agent_actor r) now
              (open_session hosts))
          >>= λ st. ok (id, names_of (diff json h merged), st))

  unfoldable pub save_host :
      Decision → Report → Text → Tables Host → Result Refusal (ℕ × List Text × Session Host)
  unfolding create_host update_host
  save_host decide_create r now hosts = create_host r now hosts
  save_host (decide_adopt id) r now hosts = update_host id r now hosts
  save_host (decide_update id) r now hosts = update_host id r now hosts
  save_host (decide_conflict id) r now hosts = err agent_conflict

  unfoldable pub or_conflict : Result BindFault AgentDb → Result Refusal AgentDb
  or_conflict (err agent_id_conflict) = err agent_conflict
  or_conflict (ok agents) = ok agents

  abbrev pub stored : ℕ → Report → Text → Text → StoredReport
  stored host_id r raw now = record {
    host_id = host_id;
    agent_id = r.agent_id;
    received_at = now;
    agent_version = r.agent_version;
    schema_version = r.schema_version;
    payload = raw;
  }

  unfoldable pub bind_host :
      Report → Text → Text → AgentDb → ℕ × List Text × Session Host → Result Refusal Done
  unfolding or_conflict upsert record_report
  bind_host r raw now agents (id, names, st) =
      or_conflict (upsert (refreshed id r.agent_id (fingerprint lib r) now) agents) >>= λ bound.
      ok (record {
        host_id = id;
        changed_fields = names;
        hosts = st;
        agents = record_report (stored id r raw now) bound;
      })

  -- The transaction of `agentReport`.
  unfoldable pub report_tx : Report → Text → Text → Db → Result Refusal Done
  unfolding decide save_host bind_host
  report_tx r raw now db =
      save_host (decide r (by_agent_id r.agent_id db.agents.bindings) db) r now db.hosts
      >>= bind_host r raw now db.agents

  unfoldable pub settle : Report → Text → Db → Result Refusal Done → Db × List Event × Reply
  unfolding record_conflict
  settle r now db (err agent_conflict) =
      (record db { agents = record_conflict r.agent_id r.hostname now db.agents }, [], conflict)
  settle r now db (err invalid_host) = (db, [], rejected_host)
  settle r now db (err (fault problem)) = (db, [], server_error problem)
  settle r now db (ok last) = (
    record { hosts = last.hosts.tables; agents = last.agents },
    last.hosts.events,
    accepted last.host_id last.changed_fields,
  )

  unfoldable pub checked :
      Report → Text → Text → Text → Db → Result ReportFault (Unit {0}) → Db × List Event × Reply
  unfolding report_tx settle
  checked r raw now later db (err problem) = (db, [], invalid_report problem)
  checked r raw now later db (ok valid) = settle r later db (report_tx r raw now db)

  unfoldable pub parsed : Option Report → Text → Text → Text → Db → Db × List Event × Reply
  unfolding checked check_report
  parsed none raw now later db = (db, [], malformed)
  parsed (some r) raw now later db = checked r raw now later db (check_report r)

  -- The request with its body, after the gate on the token's scope. `parse` is `json.Unmarshal`; a
  -- conflict is written down at the instant `later`.
  unfoldable pub agent_report :
      (Text → Option Report) → Text → Text → Text → Db → Db × List Event × Reply
  unfolding parsed
  agent_report parse raw now later db = parsed (parse raw) raw now later db

  -- `unbindAgent`. A host without an agent is left as it is.
  unfoldable pub unbound : ℕ → Text → Text → Db → Host → Option AgentBinding → Db
  unfolding unbind
  unbound id actor now db h none = db
  unbound id actor now db h (some b) = record {
    hosts =
        log_change
          (new_change (host_kind lib json) id h.name "update" actor
            (record { field = text_of "agent"; old = b.agent_id; updated = [] } ∷ []) now)
          db.hosts;
    agents = (unbind id db.agents).1;
  }

  unfoldable pub unbind_agent : ℕ → Text → Text → Db → Result Fault Db
  unfolding unbound
  unbind_agent id actor now db = found not_found (lookup id db.hosts.rows) >>= λ h.
      ok (unbound id actor now db h (by_host_id id db.agents.bindings))

  -- A deletion through the resource, with the cascades of the agents' tables.
  unfoldable pub delete_host : ℕ → Text → Text → Db → Result Fault Db
  unfolding forget_host
  delete_host id actor now db =
      delete_entity_tx (host_kind lib json) id actor now (open_session db.hosts) >>= λ st.
      ok (record { hosts = st.tables; agents = forget_host id db.agents })
