-- ===== src/Agents/Requests.antt =====
-- The requests on agents as a whole: `agentReport` of internal/web/agent.go, `unbindAgent` of agent_unbind.go
-- and the deletion of a host keep the bindings in order.
use almanaut.Base.{
  Option, ap, arith, bool_eq, list_eq, nat_beq_iff, nat_eq, none, pair_eq, refl, some, string_eq, ℕ,
  ◌∙◌, ◌≡◌, ◌≢◌,
}
use almanaut.Base.Assoc.{delete, lookup, lookup-delete, map_values-id}
use almanaut.Base.Result.{Result, Returns, bind-Returns, bind-Returns_any, err, ok, ok-Returns}
use almanaut.Agents.{Library, Report, ReportFault, check_report}
use almanaut.Agents.Reporting.{
  Db, Done, Refusal, agent_conflict, agent_report, checked, delete_host, fault, invalid_host,
  parsed, settle, unbind_agent, unbound,
}
use almanaut.Resource.Transactions.{delete_entity_tx, remove_entity}
use almanaut.Resource.{Fault, Kind, Session, found, not_found, without_entity}
use almanaut.Agents.Owners.{IsValid, Reported, report_tx-Reported}
use almanaut.Agents.Removal.{
  deleted-IsKeyed, stamped-IsUndisturbed, stamped-IsValid, without-IsValid,
}
use almanaut.Agents.Invariant.{
  IsUndisturbed, IsUndisturbed-refl, Reported-IsUndisturbed, Reported-IsValid,
}
use almanaut.Base.Text.{Text}
use almanaut.Inventory.{Host}
use almanaut.Agents.Store.{AgentBinding, by_host_id, forget_host, unbind}

module _ {Ip S : Type 0} (lib : Library Ip) (json : Kind Host S) where
  settle-IsValid :
      (r : Report) (now : Text) (db : Db) (call : Result Refusal Done)
      → IsValid db
      → Returns (Reported r db) call
      → IsValid (settle lib json r now db call).0
  unfolding settle Returns
  settle-IsValid r now db (err agent_conflict) v h = stamped-IsValid db r.agent_id r.hostname now v
  settle-IsValid r now db (err invalid_host) v h = v
  settle-IsValid r now db (err (fault problem)) v h = v
  settle-IsValid r now db (ok last) v h = Reported-IsValid r db last v h

  settle-IsUndisturbed :
      (other : Text) (r : Report) (now : Text) (db : Db) (call : Result Refusal Done)
      → other ≢ r.agent_id
      → Returns (Reported r db) call
      → IsUndisturbed other db (settle lib json r now db call).0
  unfolding settle Returns
  settle-IsUndisturbed other r now db (err agent_conflict) apart h =
      stamped-IsUndisturbed other db r.agent_id r.hostname now apart
  settle-IsUndisturbed other r now db (err invalid_host) apart h = IsUndisturbed-refl other db
  settle-IsUndisturbed other r now db (err (fault problem)) apart h = IsUndisturbed-refl other db
  settle-IsUndisturbed other r now db (ok last) apart h =
      Reported-IsUndisturbed other r db last apart h

  checked-IsValid :
      (r : Report) (raw now later : Text) (db : Db) (test : Result ReportFault (Unit {0}))
      → IsValid db
      → IsValid (checked lib json r raw now later db test).0
  unfolding checked
  checked-IsValid r raw now later db (err problem) v = v
  checked-IsValid r raw now later db (ok valid) v =
      settle-IsValid r later db _ v (report_tx-Reported lib json r raw now db v)

  checked-IsUndisturbed :
      (other : Text) (r : Report) (raw now later : Text) (db : Db)
      (test : Result ReportFault (Unit {0}))
      → IsValid db
      → other ≢ r.agent_id
      → IsUndisturbed other db (checked lib json r raw now later db test).0
  unfolding checked
  checked-IsUndisturbed other r raw now later db (err problem) v apart = IsUndisturbed-refl other db
  checked-IsUndisturbed other r raw now later db (ok valid) v apart =
      settle-IsUndisturbed other r later db _ apart (report_tx-Reported lib json r raw now db v)

  parsed-IsValid :
      (report : Option Report) (raw now later : Text) (db : Db)
      → IsValid db
      → IsValid (parsed lib json report raw now later db).0
  unfolding parsed
  parsed-IsValid none raw now later db v = v
  parsed-IsValid (some r) raw now later db v = checked-IsValid r raw now later db (check_report r) v

  parsed-IsUndisturbed :
      (other : Text) (report : Option Report) (raw now later : Text) (db : Db)
      → IsValid db
      → ((r : Report) → report ≡ some r → other ≢ r.agent_id)
      → IsUndisturbed other db (parsed lib json report raw now later db).0
  unfolding parsed
  parsed-IsUndisturbed other none raw now later db v apart = IsUndisturbed-refl other db
  parsed-IsUndisturbed other (some r) raw now later db v apart =
      checked-IsUndisturbed other r raw now later db (check_report r) v (apart r refl)

  unbound-IsValid :
      (id : ℕ) (actor now : Text) (db : Db) (h : Host) (row : Option AgentBinding)
      → IsValid db
      → IsValid (unbound lib json id actor now db h row)
  unfolding unbound unbind
  unbound-IsValid id actor now db h none v = v
  unbound-IsValid id actor now db h (some b) v =
      without-IsValid id db _ v refl (record { keyed = v.keyed.keyed; fresh = v.keyed.fresh })
        λ j apart. refl

  -- One agent per host and one host per agent, each with its row: a report, whatever it is and however it
  -- is answered, keeps this, and so do unbinding an agent and deleting a host, when they return no
  -- error.
  pub agents-IsValid :
      (db : Db)
      → IsValid db
      → ((parse : Text → Option Report) (raw now later : Text)
          → IsValid (agent_report lib json parse raw now later db).0)
        × ((id : ℕ) (actor now : Text) → Returns IsValid (unbind_agent lib json id actor now db))
        × ((id : ℕ) (actor now : Text) → Returns IsValid (delete_host lib json id actor now db))
  unfolding agent_report unbind_agent delete_host delete_entity_tx remove_entity without_entity
      forget_host
  agents-IsValid db v = (
    λ parse raw now later. parsed-IsValid (parse raw) raw now later db v,
    λ id actor now. bind-Returns_any IsValid (found not_found (lookup id db.hosts.rows)) _ λ h.
        ok-Returns Fault IsValid _
          (unbound-IsValid id actor now db h (by_host_id id db.agents.bindings) v),
    λ id actor now.
        bind-Returns IsValid
          (λ (st : Session Host).
            IsValid (record { hosts = st.tables; agents = forget_host id db.agents }))
          _ _
          (bind-Returns_any _ (found not_found (lookup id db.hosts.rows)) _ λ h.
            ok-Returns Fault _ _ (
              without-IsValid id db _ v refl
                (deleted-IsKeyed id db.hosts _ v.keyed
                  (ap (delete id) (map_values-id db.hosts.rows)) refl)
                λ j apart.
                  ap (λ rows. lookup j (delete id rows)) (map_values-id db.hosts.rows)
                  ∙ lookup-delete id j db.hosts.rows
                  ∙ ground (arith, nat_beq_iff id j)))
          λ st valid. ok-Returns Fault IsValid _ valid,
  )

  -- A report does not disturb the other agents: while the bindings are in order, the binding of any
  -- agent but the one that the report names is as it was, and so is the row of its host. This holds
  -- however the report is answered, also where it matches that host by name or address.
  pub agent_report-IsUndisturbed :
      (parse : Text → Option Report) (raw now later : Text) (db : Db) (other : Text)
      → IsValid db
      → ((r : Report) → parse raw ≡ some r → other ≢ r.agent_id)
      → IsUndisturbed other db (agent_report lib json parse raw now later db).0
  unfolding agent_report
  agent_report-IsUndisturbed parse raw now later db other v apart =
      parsed-IsUndisturbed other (parse raw) raw now later db v apart
