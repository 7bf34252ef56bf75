-- ===== src/Agents/Owners.antt =====
-- Who reports for which host: `agentReport` of internal/web/agent.go, `unbindAgent` of agent_unbind.go and
-- the deletion of a host.
use almanaut.Base.{
  Bool-cases, List, arith, bool_eq, contains, false, inl, inr, is_nodup, is_some, list_eq, nat_eq,
  pair_eq, refl, string_eq, true, ℕ, ◌≡◌,
}
use almanaut.Base.Result.{Returns, bind-Returns, weaken-Returns}
use almanaut.Base.Text.{Text}
use almanaut.Base.Assoc.{lookup}
use almanaut.Inventory.{Host}
use almanaut.Resource.{Kind, Session}
use almanaut.Agents.{
  Decision, Library, Report, decide_adopt, decide_conflict, decide_create, decide_update,
}
use almanaut.Agents.Resolve.{fingerprint}
use almanaut.Agents.Store.{
  AgentBinding, bound_host_ids, by_agent_id, is_taken, put_binding, record_report, refreshed,
  upsert,
}
use almanaut.Agents.Reporting.{Db, Done, bind_host, decide, or_conflict, report_tx, save_host}
use almanaut.Agents.Bindings.{agent_ids, is_free_for, unbound-is_free_for}
use almanaut.Agents.Saving.{IsKeyed, Saved, Writes, create_host-Saved, update_host-Saved}
use almanaut.Agents.Aims.{Aims, decide-Aims}

-- One agent per host, one host per agent, and no agent without a host.
pub record IsValid (db : Db) : Type 0 where
  pub keyed : IsKeyed db.hosts
  pub hosts : is_nodup (bound_host_ids db.agents.bindings) ≡ true
  pub agents : is_nodup (agent_ids db.agents.bindings) ≡ true
  pub bound :
      (id : ℕ)
      → contains (bound_host_ids db.agents.bindings) id ≡ true
      → is_some (lookup id db.hosts.rows) ≡ true

-- What a report that is taken leaves: the row of a host that no other agent reports for is written, and
-- bound to the agent.
pub record Reported (r : Report) (db : Db) (last : Done) : Type 0 where
  pub free : is_free_for last.host_id r.agent_id db.agents.bindings ≡ true
  pub writes : Writes last.host_id db.hosts last.hosts.tables
  pub binding : AgentBinding
  pub is_its_agent : binding.agent_id ≡ r.agent_id
  pub is_its_host : binding.host_id ≡ last.host_id
  pub not_taken : is_taken binding db.agents.bindings ≡ false
  pub put : last.agents.bindings ≡ put_binding binding db.agents.bindings

abbrev FreeSaved : Report → Db → ℕ × List Text × Session Host → Type 0
FreeSaved r db made =
    (is_free_for made.0 r.agent_id db.agents.bindings ≡ true) × Writes made.0 db.hosts made.2.tables

Saved-FreeSaved :
    (r : Report) (db : Db) (id : ℕ) (made : ℕ × List Text × Session Host)
    → is_free_for id r.agent_id db.agents.bindings ≡ true
    → Saved id db.hosts made
    → FreeSaved r db made
Saved-FreeSaved r db id made free (w, same) = (rw same free, rw same w)

next-free :
    (db : Db) (agent : Text)
    → IsValid db
    → is_free_for db.hosts.next_id agent db.agents.bindings ≡ true
next-free db agent v =
    unbound-is_free_for db.hosts.next_id agent db.agents.bindings
      (elim (Bool-cases (contains (bound_host_ids db.agents.bindings) db.hosts.next_id)) [
        | inl there ↦
            let low = v.keyed.fresh db.hosts.next_id (v.bound db.hosts.next_id there) in
            absurd (omega (arith, low))
        | inr gone ↦ gone
      ])

module _ {Ip S : Type 0} (lib : Library Ip) (json : Kind Host S) where
  save_host-FreeSaved :
      (d : Decision) (r : Report) (now : Text) (db : Db)
      → IsValid db
      → Aims lib json r.agent_id db.agents.bindings d
      → Returns (FreeSaved r db) (save_host lib json d r now db.hosts)
  unfolding save_host
  save_host-FreeSaved decide_create r now db v aim =
      weaken-Returns _ _ _ (create_host-Saved lib json db.hosts r now v.keyed)
        λ made. Saved-FreeSaved r db db.hosts.next_id made (next-free db r.agent_id v)
  save_host-FreeSaved (decide_adopt id) r now db v aim =
      weaken-Returns _ _ _ (update_host-Saved lib json db.hosts id r now v.keyed)
        λ made. Saved-FreeSaved r db id made aim
  save_host-FreeSaved (decide_update id) r now db v aim =
      weaken-Returns _ _ _ (update_host-Saved lib json db.hosts id r now v.keyed)
        λ made. Saved-FreeSaved r db id made aim
  save_host-FreeSaved (decide_conflict id) r now db v aim = unfold Returns in tt

  bind_host-Reported :
      (r : Report) (raw now : Text) (db : Db) (made : ℕ × List Text × Session Host)
      → FreeSaved r db made
      → Returns (Reported r db) (bind_host lib json r raw now db.agents made)
  unfolding bind_host upsert record_report or_conflict
  bind_host-Reported r raw now db (id, names, st) (free, w) =
      let b = refreshed id r.agent_id (fingerprint lib r) now in
      elim (Bool-cases (is_taken b db.agents.bindings)) [
        | inl taken ↦ rw taken (unfold Returns in tt)
        | inr new ↦ rw new (
            unfold Returns in
            record {
              free = free;
              writes = w;
              binding = b;
              is_its_agent = refl;
              is_its_host = refl;
              not_taken = new;
              put = refl;
            })
      ]

  pub report_tx-Reported :
      (r : Report) (raw now : Text) (db : Db)
      → IsValid db
      → Returns (Reported r db) (report_tx lib json r raw now db)
  unfolding report_tx
  report_tx-Reported r raw now db v =
      let row = by_agent_id r.agent_id db.agents.bindings in
      bind-Returns _ (FreeSaved r db) (save_host lib json (decide lib json r row db) r now db.hosts)
        _
        (save_host-FreeSaved (decide lib json r row db) r now db v
          (decide-Aims lib json r db row v.hosts refl))
        λ made. bind_host-Reported r raw now db made
