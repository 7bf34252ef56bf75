-- ===== src/Agents/Removal.antt =====
-- What a conflict, an unbinding and a deletion leave of the rows of `host_agents`, for internal/web/agent.go
-- and agent_unbind.go.
use almanaut.Agents.Reporting.{Db}
use almanaut.Resource.{Tables}
use almanaut.Agents.Owners.{IsValid}
use almanaut.Agents.Invariant.{
  IsUndisturbed, by_agent_id-stamp, stamp-agent_ids, stamp-bound_host_ids,
}
use almanaut.Base.{
  Bool-cases, List, [], ap, arith, bool_eq, contains, false, inl, inr, is_nodup, list_eq,
  nat_beq_iff, nat_eq, not, pair_eq, refl, select, string_eq, sym, true, ℕ, ◌&&◌, ◌==◌, ◌∙◌, ◌∷◌,
  ◌≡◌, ◌≢◌,
}
use almanaut.Base.Text.{Text}
use almanaut.Base.Assoc.{delete, lookup, lookup-delete}
use almanaut.Inventory.{Host}
use almanaut.Agents.Store.{AgentBinding, bound_host_ids, record_conflict}
use almanaut.Agents.Bindings.{agent_ids}
use almanaut.Agents.Saving.{IsKeyed}

pub stamped-IsValid :
    (db : Db) (agent hostname at : Text)
    → IsValid db
    → IsValid (record db { agents = record_conflict agent hostname at db.agents })
unfolding record_conflict
stamped-IsValid db agent hostname at v = record {
  keyed = v.keyed;
  hosts = rw (stamp-bound_host_ids agent hostname at db.agents.bindings) v.hosts;
  agents = rw (stamp-agent_ids agent hostname at db.agents.bindings) v.agents;
  bound = λ id h. v.bound id (
      sym (ap (λ ids. contains ids id) (stamp-bound_host_ids agent hostname at db.agents.bindings))
      ∙ h);
}

pub stamped-IsUndisturbed :
    (other : Text) (db : Db) (agent hostname at : Text)
    → other ≢ agent
    → IsUndisturbed other db (record db { agents = record_conflict agent hostname at db.agents })
unfolding record_conflict
stamped-IsUndisturbed other db agent hostname at apart = record {
  binding = by_agent_id-stamp agent hostname at other db.agents.bindings apart;
  host = λ b h. refl;
}

module _ (id : ℕ) where
  contains-bound_host_ids-without :
      (bs : List AgentBinding) (j : ℕ)
      → contains (bound_host_ids (select (λ b. not (b.host_id == id)) bs)) j
        ≡ (not (id == j) && contains (bound_host_ids bs) j)
  unfolding bound_host_ids
  contains-bound_host_ids-without [] j = ground arith
  contains-bound_host_ids-without (b ∷ bs) j = elim (Bool-cases (b.host_id == id)) [
    | inl hit ↦
        rw hit
          (ground (arith, contains-bound_host_ids-without bs j, (nat_beq_iff b.host_id id).0 hit))
    | inr miss ↦ rw miss (
        ground (
          arith,
          contains-bound_host_ids-without bs j,
          nat_beq_iff b.host_id j,
          nat_beq_iff id j,
          nat_beq_iff b.host_id id,
        ))
  ]

  without-nodup_hosts :
      (bs : List AgentBinding)
      → is_nodup (bound_host_ids bs) ≡ true
      → is_nodup (bound_host_ids (select (λ b. not (b.host_id == id)) bs)) ≡ true
  unfolding bound_host_ids
  without-nodup_hosts [] h = refl
  without-nodup_hosts (b ∷ bs) h =
      ground (arith, without-nodup_hosts bs, contains-bound_host_ids-without bs b.host_id)

  contains-agent_ids-without :
      (bs : List AgentBinding) (agent : Text)
      → contains (agent_ids bs) agent ≡ false
      → contains (agent_ids (select (λ b. not (b.host_id == id)) bs)) agent ≡ false
  contains-agent_ids-without [] agent h = refl
  contains-agent_ids-without (b ∷ bs) agent h = ground (arith, contains-agent_ids-without bs agent)

  without-nodup_agents :
      (bs : List AgentBinding)
      → is_nodup (agent_ids bs) ≡ true
      → is_nodup (agent_ids (select (λ b. not (b.host_id == id)) bs)) ≡ true
  without-nodup_agents [] h = refl
  without-nodup_agents (b ∷ bs) h =
      ground (arith, without-nodup_agents bs, contains-agent_ids-without bs b.agent_id)

  -- The bindings without those of a host whose row may be gone.
  pub without-IsValid :
      (db after : Db)
      → IsValid db
      → after.agents.bindings ≡ select (λ b. not (b.host_id == id)) db.agents.bindings
      → IsKeyed after.hosts
      → ((j : ℕ) → id ≢ j → lookup j after.hosts.rows ≡ lookup j db.hosts.rows)
      → IsValid after
  without-IsValid db after v bindings k rows = record {
    keyed = k;
    hosts = rw bindings (without-nodup_hosts db.agents.bindings v.hosts);
    agents = rw bindings (without-nodup_agents db.agents.bindings v.agents);
    bound = λ j h.
        let kept =
          sym (contains-bound_host_ids-without db.agents.bindings j)
          ∙ (sym (ap (λ bs. contains (bound_host_ids bs) j) bindings) ∙ h) in
        rw (rows j λ same. absurd (ground (arith, (nat_beq_iff id j).1 same, kept)))
          (v.bound j (ground (arith, kept)));
  }

pub deleted-IsKeyed :
    (id : ℕ) (t after : Tables Host)
    → IsKeyed t
    → after.rows ≡ delete id t.rows
    → after.next_id ≡ t.next_id
    → IsKeyed after
deleted-IsKeyed id t after k rows next = record {
  keyed = λ j h e.
      let at_old = sym (lookup-delete id j t.rows) ∙ (sym (ap (λ m. lookup j m) rows) ∙ e) in
      elim (Bool-cases (id == j)) [
        | inl gone ↦ absurd (cc (rw gone at at_old))
        | inr kept ↦ k.keyed j h (rw kept at at_old)
      ];
  fresh = λ j e.
      let at_old = rw (rows, lookup-delete id j t.rows) at e in
      elim (Bool-cases (id == j)) [
        | inl gone ↦ absurd (cc (rw gone at at_old))
        | inr kept ↦ rw next (k.fresh j (rw kept at at_old))
      ];
}
