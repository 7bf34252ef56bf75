-- ===== src/Agents/Conflicts.antt =====
-- When a report is refused as a conflict: internal/web/agent.go, and `isClone` of internal/agentapi/resolve.go.
use almanaut.Base.Text.{Text}
use almanaut.Base.Assoc.{lookup}
use almanaut.Base.Result.{Result, Returns, err, ok, refuse_if, ◌>>=◌, ◌>>◌}
use almanaut.Inventory.{Host}
use almanaut.Agents.{Library, Report}
use almanaut.Agents.Resolve.{adopt_or_create, fingerprint, is_clone, merge_agent_report, resolve}
use almanaut.Agents.Saving.{create_host-Saved, update_host-Saved}
use almanaut.Agents.Reporting.{
  Db, Refusal, agent_actor, agent_conflict, bind_host, create_host, decide, fault, invalid_host,
  lift, open_session, or_conflict, report_tx, save_host, update_host,
}
use almanaut.Resource.Transactions.{create_entity_tx, update_entity_tx}
use almanaut.Agents.Hosts.{empty_host, host_kind, is_valid_host}
use almanaut.Resource.{Fault, Kind, Session, Tables, found, not_found}
use almanaut.Agents.Owners.{IsValid}
use almanaut.Base.{
  Bool, Bool-cases, List, Option, [], ap, arith, bool_eq, contains, false, inl, inr, is_nodup,
  list_beq_iff, list_eq, nat_beq_iff, nat_eq, none, not, pair_eq, refl, some, string_eq, true, ℕ,
  ◌==◌, ◌∙◌, ◌∷◌, ◌≡◌,
}
use almanaut.Agents.Store.{AgentBinding, by_agent_id, is_taken, refreshed, upsert}
use almanaut.Agents.Bindings.{agent_ids}

-- No row has the agent but those of this host.
unknown-is_taken :
    (b : AgentBinding) (bs : List AgentBinding)
    → by_agent_id b.agent_id bs ≡ none
    → is_taken b bs ≡ false
unknown-is_taken b [] h = refl
unknown-is_taken b (c ∷ bs) h = elim (Bool-cases (c.agent_id == b.agent_id)) [
  | inl here ↦ absurd (cc (rw here at h))
  | inr other ↦ rw other (unknown-is_taken b bs (rw other at h))
]

absent-is_taken :
    (b : AgentBinding) (bs : List AgentBinding)
    → contains (agent_ids bs) b.agent_id ≡ false
    → is_taken b bs ≡ false
absent-is_taken b [] h = refl
absent-is_taken b (c ∷ bs) h = ground (arith, absent-is_taken b bs)

known-is_taken :
    (b row : AgentBinding) (bs : List AgentBinding)
    → is_nodup (agent_ids bs) ≡ true
    → by_agent_id b.agent_id bs ≡ some row
    → row.host_id ≡ b.host_id
    → is_taken b bs ≡ false
known-is_taken b row [] u h same = refl
known-is_taken b row (c ∷ bs) u h same = elim (Bool-cases (c.agent_id == b.agent_id)) [
  | inl here ↦
      let head : some c ≡ some row = rw here at h in
      let e : c ≡ row = cc head in
      let i : c.host_id ≡ b.host_id = ap (λ (x : AgentBinding). x.host_id) e ∙ same in
      let gone : contains (agent_ids bs) b.agent_id ≡ false =
        rw (← (list_beq_iff c.agent_id b.agent_id).0 here) (ground arith) in
      ground (arith, (nat_beq_iff c.host_id b.host_id).1 i, absent-is_taken b bs gone)
  | inr other ↦ rw other (known-is_taken b row bs (ground arith) (rw other at h) same)
]

abbrev pub is_conflict : {A : Type 0} → Result Refusal A → Bool
is_conflict (err agent_conflict) = true
is_conflict (err invalid_host) = false
is_conflict (err (fault problem)) = false
is_conflict (ok a) = false

is_conflict-lift :
    {A B : Type 0} (call : Result Fault A) (next : A → Result Refusal B)
    → ((a : A) → is_conflict (next a) ≡ false)
    → is_conflict (lift call >>= next) ≡ false
is_conflict-lift (err problem) next h = refl
is_conflict-lift (ok a) next h = h a

is_conflict-then :
    {B : Type 0} (test : Bool) (next : Result Refusal B)
    → is_conflict next ≡ false
    → is_conflict (refuse_if test invalid_host >> next) ≡ false
is_conflict-then true next h = refl
is_conflict-then false next h = h

is_conflict-bind :
    {A B : Type 0} (Q : A → Type 0) (call : Result Refusal A) (next : A → Result Refusal B)
    → is_conflict call ≡ false
    → Returns Q call
    → ((a : A) → Q a → is_conflict (next a) ≡ false)
    → is_conflict (call >>= next) ≡ false
unfolding Returns
is_conflict-bind Q (err agent_conflict) next h q step = absurd (cc h)
is_conflict-bind Q (err invalid_host) next h q step = refl
is_conflict-bind Q (err (fault problem)) next h q step = refl
is_conflict-bind Q (ok a) next h q step = step a q

-- The report of a machine other than the one that the binding was made for.
abbrev pub is_clone_of : {Ip : Type 0} → Library Ip → Report → Option AgentBinding → Bool
is_clone_of lib r none = false
is_clone_of lib r (some b) = is_clone lib b.fingerprint (fingerprint lib r)

module _ {Ip S : Type 0} (lib : Library Ip) (json : Kind Host S) where
  create_host-no_conflict :
      (r : Report) (now : Text) (t : Tables Host)
      → is_conflict (create_host lib json r now t) ≡ false
  unfolding create_host
  create_host-no_conflict r now t =
      let h = merge_agent_report lib empty_host r true in
      is_conflict-then (not (is_valid_host lib h)) _ (
        is_conflict-lift
          (create_entity_tx (host_kind lib json) h [] (agent_actor r) now (open_session t)) _
          λ made. refl)

  update_host-no_conflict :
      (id : ℕ) (r : Report) (now : Text) (t : Tables Host)
      → is_conflict (update_host lib json id r now t) ≡ false
  unfolding update_host
  update_host-no_conflict id r now t = is_conflict-lift (found not_found (lookup id t.rows)) _ λ h.
      let merged = merge_agent_report lib h r false in
      is_conflict-then (not (is_valid_host lib merged)) _ (
        is_conflict-lift
          (update_entity_tx (host_kind lib json) merged [] (agent_actor r) now (open_session t)) _
          λ st. refl)

  bind_host-no_conflict :
      (r : Report) (raw now : Text) (db : Db) (made : ℕ × List Text × Session Host)
      → is_taken (refreshed made.0 r.agent_id (fingerprint lib r) now) db.agents.bindings ≡ false
      → is_conflict (bind_host lib json r raw now db.agents made) ≡ false
  unfolding bind_host upsert or_conflict
  bind_host-no_conflict r raw now db (id, names, st) free = rw free refl

  create_any :
      (r : Report) (raw now : Text) (db : Db)
      → IsValid db
      → by_agent_id r.agent_id db.agents.bindings ≡ none
      → is_conflict (create_host lib json r now db.hosts >>= bind_host lib json r raw now db.agents)
        ≡ false
  create_any r raw now db v unknown =
      is_conflict-bind _ (create_host lib json r now db.hosts) _
        (create_host-no_conflict r now db.hosts) (create_host-Saved lib json db.hosts r now v.keyed)
        λ made saved. bind_host-no_conflict r raw now db made (
          unknown-is_taken (refreshed made.0 r.agent_id (fingerprint lib r) now) db.agents.bindings
            unknown)

  update_any :
      (id : ℕ) (r : Report) (raw now : Text) (db : Db)
      → IsValid db
      → is_taken (refreshed id r.agent_id (fingerprint lib r) now) db.agents.bindings ≡ false
      → is_conflict
          (update_host lib json id r now db.hosts >>= bind_host lib json r raw now db.agents)
        ≡ false
  update_any id r raw now db v new =
      is_conflict-bind _ (update_host lib json id r now db.hosts) _
        (update_host-no_conflict id r now db.hosts)
        (update_host-Saved lib json db.hosts id r now v.keyed)
        λ made saved. bind_host-no_conflict r raw now db made (rw saved.1 new)

  adopted-no_conflict :
      (d : Option ℕ) (r : Report) (raw now : Text) (db : Db)
      → IsValid db
      → by_agent_id r.agent_id db.agents.bindings ≡ none
      → is_conflict (
          save_host lib json (adopt_or_create lib d) r now db.hosts
          >>= bind_host lib json r raw now db.agents)
        ≡ false
  unfolding save_host
  adopted-no_conflict none r raw now db v unknown = create_any r raw now db v unknown
  adopted-no_conflict (some id) r raw now db v unknown = update_any id r raw now db v (
      unknown-is_taken (refreshed id r.agent_id (fingerprint lib r) now) db.agents.bindings unknown)

  decided-conflict :
      (r : Report) (raw now : Text) (db : Db) (row : Option AgentBinding)
      → IsValid db
      → by_agent_id r.agent_id db.agents.bindings ≡ row
      → is_conflict (
          save_host lib json (decide lib json r row db) r now db.hosts
          >>= bind_host lib json r raw now db.agents)
        ≡ is_clone_of lib r row
  unfolding decide resolve
  decided-conflict r raw now db none v e = adopted-no_conflict _ r raw now db v e
  decided-conflict r raw now db (some b) v e =
      elim (Bool-cases (is_clone lib b.fingerprint (fingerprint lib r))) [
        | inl clone ↦ rw clone (unfold save_host in refl)
        | inr same ↦ rw same (
            unfold save_host in
            update_any b.host_id r raw now db v (
              known-is_taken (refreshed b.host_id r.agent_id (fingerprint lib r) now) b
                db.agents.bindings v.agents e refl))
      ]

  -- While the bindings are in order, the transaction of a report is refused as a conflict if and only if
  -- the agent is bound already and `is_clone` finds neither the host name nor a hardware address of
  -- the report in the fingerprint of that binding. The table's own refusal of an agent id never shows.
  pub report_tx-is_conflict :
      (r : Report) (raw now : Text) (db : Db)
      → IsValid db
      → is_conflict (report_tx lib json r raw now db)
        ≡ is_clone_of lib r (by_agent_id r.agent_id db.agents.bindings)
  unfolding report_tx
  report_tx-is_conflict r raw now db v =
      decided-conflict r raw now db (by_agent_id r.agent_id db.agents.bindings) v refl
