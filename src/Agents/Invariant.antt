-- ===== src/Agents/Invariant.antt =====
-- What the requests of internal/web/agent.go and agent_unbind.go keep.
use almanaut.Base.{
  Bool-cases, List, [], ap, arith, bool_eq, contains, false, if◌then◌else◌, inl, inr, list_beq_iff,
  list_eq, map, nat_beq_iff, nat_eq, pair_eq, refl, some, string_eq, sym, true, ℕ, ◌==◌, ◌||◌, ◌∙◌,
  ◌∷◌, ◌≡◌, ◌≢◌,
}
use almanaut.Base.Text.{Text}
use almanaut.Base.Assoc.{lookup}
use almanaut.Agents.{Report}
use almanaut.Agents.Store.{AgentBinding, bound_host_ids, by_agent_id, stamp}
use almanaut.Agents.Reporting.{Db, Done}
use almanaut.Agents.Bindings.{
  agent_ids, by_agent_id-put_binding, contains-bound_host_ids-put, is_free_for,
  put_binding-nodup_agents, put_binding-nodup_hosts,
}
use almanaut.Agents.Owners.{IsValid, Reported}

-- The binding of an agent and the row of its host are as they were.
pub record IsUndisturbed (other : Text) (db after : Db) : Type 0 where
  pub binding : by_agent_id other after.agents.bindings ≡ by_agent_id other db.agents.bindings
  pub host :
      (b : AgentBinding)
      → by_agent_id other db.agents.bindings ≡ some b
      → lookup b.host_id after.hosts.rows ≡ lookup b.host_id db.hosts.rows

pub IsUndisturbed-refl : (other : Text) (db : Db) → IsUndisturbed other db db
IsUndisturbed-refl other db = record { binding = refl; host = λ b h. refl }

module _ (agent hostname at : Text) where
  pub stamp-bound_host_ids :
      (bs : List AgentBinding)
      → bound_host_ids (map (stamp agent hostname at) bs) ≡ bound_host_ids bs
  unfolding bound_host_ids
  stamp-bound_host_ids [] = refl
  stamp-bound_host_ids (b ∷ bs) = elim (Bool-cases (b.agent_id == agent)) [
    | inl hit ↦ rw hit (ap (λ l. b.host_id ∷ l) (stamp-bound_host_ids bs))
    | inr miss ↦ rw miss (ap (λ l. b.host_id ∷ l) (stamp-bound_host_ids bs))
  ]

  pub stamp-agent_ids :
      (bs : List AgentBinding) → agent_ids (map (stamp agent hostname at) bs) ≡ agent_ids bs
  stamp-agent_ids [] = refl
  stamp-agent_ids (b ∷ bs) = elim (Bool-cases (b.agent_id == agent)) [
    | inl hit ↦ rw hit (ap (λ l. b.agent_id ∷ l) (stamp-agent_ids bs))
    | inr miss ↦ rw miss (ap (λ l. b.agent_id ∷ l) (stamp-agent_ids bs))
  ]

  pub by_agent_id-stamp :
      (other : Text) (bs : List AgentBinding)
      → other ≢ agent
      → by_agent_id other (map (stamp agent hostname at) bs) ≡ by_agent_id other bs
  by_agent_id-stamp other [] apart = refl
  by_agent_id-stamp other (b ∷ bs) apart = elim (Bool-cases (b.agent_id == agent)) [
    | inl hit ↦
        let same = (list_beq_iff b.agent_id agent).0 hit in
        let no_match : (b.agent_id == other) ≡ false =
          ground (arith, list_beq_iff b.agent_id other, same) in
        rw (hit, no_match) (by_agent_id-stamp other bs apart)
    | inr miss ↦
        rw miss
          (ap (λ o. if b.agent_id == other then some b else o) (by_agent_id-stamp other bs apart))
  ]

free-apart :
    (id : ℕ) (agent other : Text) (bs : List AgentBinding) (b : AgentBinding)
    → other ≢ agent
    → is_free_for id agent bs ≡ true
    → by_agent_id other bs ≡ some b
    → id ≢ b.host_id
free-apart id agent other [] b apart free h = absurd (cc h)
free-apart id agent other (c ∷ bs) b apart free h = elim (Bool-cases (c.agent_id == other)) [
  | inl here ↦
      let head : some c ≡ some b = rw here at h in
      let e : c ≡ b = cc head in
      let i : c.host_id ≡ b.host_id = ap (λ (x : AgentBinding). x.host_id) e in
      λ same. absurd (
        ground (
          arith,
          (list_beq_iff c.agent_id other).0 here,
          list_beq_iff c.agent_id agent,
          (nat_beq_iff c.host_id id).1 (i ∙ sym same),
          free,
        ))
  | inr other_row ↦ free-apart id agent other bs b apart (ground arith) (rw other_row at h)
]

abbrev pub left_by : Done → Db
left_by last = record { hosts = last.hosts.tables; agents = last.agents }

pub Reported-IsValid :
    (r : Report) (db : Db) (last : Done) → IsValid db → Reported r db last → IsValid (left_by last)
Reported-IsValid r db last v p = record {
  keyed = p.writes.is_keyed;
  hosts = rw p.put (put_binding-nodup_hosts p.binding db.agents.bindings v.hosts);
  agents =
      rw p.put (put_binding-nodup_agents p.binding db.agents.bindings v.hosts v.agents p.not_taken);
  bound = λ id h.
      let in_old : (p.binding.host_id == id || contains (bound_host_ids db.agents.bindings) id)
          ≡ true =
        sym (contains-bound_host_ids-put p.binding db.agents.bindings id)
        ∙ (sym (ap (λ bs. contains (bound_host_ids bs) id) p.put) ∙ h) in
      elim (Bool-cases (p.binding.host_id == id)) [
        | inl its ↦
            rw (← (sym p.is_its_host ∙ (nat_beq_iff p.binding.host_id id).0 its)) p.writes.there
        | inr not_its ↦
            rw
              (p.writes.elsewhere id
                λ same. cc (not_its, (nat_beq_iff p.binding.host_id id).1 (p.is_its_host ∙ same)))
              (v.bound id (ground arith))
      ];
}

pub Reported-IsUndisturbed :
    (other : Text) (r : Report) (db : Db) (last : Done)
    → other ≢ r.agent_id
    → Reported r db last
    → IsUndisturbed other db (left_by last)
Reported-IsUndisturbed other r db last apart p = record {
  binding = rw p.put (
      by_agent_id-put_binding other p.binding db.agents.bindings
        (λ same. apart (same ∙ p.is_its_agent)) (rw (p.is_its_host, p.is_its_agent) p.free));
  host = λ b h.
      p.writes.elsewhere b.host_id
        (free-apart last.host_id r.agent_id other db.agents.bindings b apart p.free h);
}
