-- ===== src/Agents/Bindings.antt =====
-- The rows of `host_agents` in internal/store/agent_repo.go: one per host and one per agent.
use almanaut.Base.{
  Bool, Bool-cases, List, [], all, ap, arith, beq_refl, bool_eq, contains, false, inl, inr,
  is_nodup, list_beq_iff, list_eq, nat_beq_iff, nat_eq, not, pair_eq, refl, some, string_eq, true,
  ℕ, ◌==◌, ◌||◌, ◌∷◌, ◌≡◌, ◌≢◌,
}
use almanaut.Base.Text.{Text}
use almanaut.Agents.Store.{AgentBinding, bound_host_ids, by_agent_id, is_taken, put_binding}

abbrev pub agent_ids : List AgentBinding → List Text
agent_ids [] = []
agent_ids (b ∷ bs) = b.agent_id ∷ agent_ids bs

-- No other agent reports for the host.
abbrev pub is_free_for : ℕ → Text → List AgentBinding → Bool
is_free_for id agent bs = all (λ b. not (b.host_id == id) || b.agent_id == agent) bs

pub unbound-is_free_for :
    (id : ℕ) (agent : Text) (bs : List AgentBinding)
    → contains (bound_host_ids bs) id ≡ false
    → is_free_for id agent bs ≡ true
unfolding bound_host_ids
unbound-is_free_for id agent [] h = refl
unbound-is_free_for id agent (b ∷ bs) h = ground (arith, unbound-is_free_for id agent bs)

pub by_agent_id-found :
    (agent : Text) (bs : List AgentBinding) (b : AgentBinding)
    → by_agent_id agent bs ≡ some b
    → (b.agent_id ≡ agent) × (contains (bound_host_ids bs) b.host_id ≡ true)
unfolding bound_host_ids
by_agent_id-found agent [] b h = absurd (cc h)
by_agent_id-found agent (c ∷ bs) b h = elim (Bool-cases (c.agent_id == agent)) [
  | inl same ↦
      let head : some c ≡ some b = rw same at h in
      let e : c ≡ b = cc head in
      rw (← e) ((list_beq_iff c.agent_id agent).0 same, ground (arith, beq_refl c.host_id))
  | inr other ↦ let (p, q) = by_agent_id-found agent bs b (rw other at h) in (p, ground (arith, q))
]

pub by_agent_id-is_free_for :
    (agent : Text) (bs : List AgentBinding) (b : AgentBinding)
    → is_nodup (bound_host_ids bs) ≡ true
    → by_agent_id agent bs ≡ some b
    → is_free_for b.host_id agent bs ≡ true
unfolding bound_host_ids
by_agent_id-is_free_for agent [] b u h = refl
by_agent_id-is_free_for agent (c ∷ bs) b u h = elim (Bool-cases (c.agent_id == agent)) [
  | inl same ↦
      let head : some c ≡ some b = rw same at h in
      let e : c ≡ b = cc head in
      let i : c.host_id ≡ b.host_id = ap (λ (x : AgentBinding). x.host_id) e in
      let gone : contains (bound_host_ids bs) b.host_id ≡ false = rw (← i) (ground arith) in
      ground (arith, unbound-is_free_for b.host_id agent bs gone)
  | inr other ↦
      let tail : by_agent_id agent bs ≡ some b = rw other at h in
      let there = (by_agent_id-found agent bs b tail).1 in
      ground
        (arith, there, by_agent_id-is_free_for agent bs b, tail, nat_beq_iff c.host_id b.host_id)
]

pub by_agent_id-put_binding :
    (other : Text) (b : AgentBinding) (bs : List AgentBinding)
    → other ≢ b.agent_id
    → is_free_for b.host_id b.agent_id bs ≡ true
    → by_agent_id other (put_binding b bs) ≡ by_agent_id other bs
unfolding put_binding
by_agent_id-put_binding other b [] apart free = ground (arith, list_beq_iff b.agent_id other)
by_agent_id-put_binding other b (c ∷ bs) apart free = ground (
  arith,
  by_agent_id-put_binding other b bs,
  list_beq_iff b.agent_id other,
  list_beq_iff c.agent_id other,
  list_beq_iff c.agent_id b.agent_id,
)

pub contains-bound_host_ids-put :
    (b : AgentBinding) (bs : List AgentBinding) (id : ℕ)
    → contains (bound_host_ids (put_binding b bs)) id
      ≡ (b.host_id == id || contains (bound_host_ids bs) id)
unfolding put_binding bound_host_ids
contains-bound_host_ids-put b [] id = refl
contains-bound_host_ids-put b (c ∷ bs) id =
    ground (arith, contains-bound_host_ids-put b bs id, nat_beq_iff c.host_id b.host_id)

pub put_binding-nodup_hosts :
    (b : AgentBinding) (bs : List AgentBinding)
    → is_nodup (bound_host_ids bs) ≡ true
    → is_nodup (bound_host_ids (put_binding b bs)) ≡ true
unfolding put_binding bound_host_ids
put_binding-nodup_hosts b [] h = refl
put_binding-nodup_hosts b (c ∷ bs) h = ground (
  arith,
  put_binding-nodup_hosts b bs,
  contains-bound_host_ids-put b bs c.host_id,
  nat_beq_iff c.host_id b.host_id,
  nat_beq_iff b.host_id c.host_id,
)

contains-agent_ids-put :
    (b : AgentBinding) (bs : List AgentBinding) (agent : Text)
    → contains (agent_ids bs) agent ≡ false
    → (b.agent_id == agent) ≡ false
    → contains (agent_ids (put_binding b bs)) agent ≡ false
unfolding put_binding
contains-agent_ids-put b [] agent h k = ground arith
contains-agent_ids-put b (c ∷ bs) agent h k = ground (arith, contains-agent_ids-put b bs agent)

not_taken :
    (b : AgentBinding) (bs : List AgentBinding)
    → contains (bound_host_ids bs) b.host_id ≡ false
    → is_taken b bs ≡ false
    → contains (agent_ids bs) b.agent_id ≡ false
unfolding bound_host_ids
not_taken b [] h k = refl
not_taken b (c ∷ bs) h k = ground (arith, not_taken b bs)

pub put_binding-nodup_agents :
    (b : AgentBinding) (bs : List AgentBinding)
    → is_nodup (bound_host_ids bs) ≡ true
    → is_nodup (agent_ids bs) ≡ true
    → is_taken b bs ≡ false
    → is_nodup (agent_ids (put_binding b bs)) ≡ true
unfolding put_binding bound_host_ids
put_binding-nodup_agents b [] u v t = refl
put_binding-nodup_agents b (c ∷ bs) u v t = elim (Bool-cases (c.host_id == b.host_id)) [
  | inl same ↦ rw same (ground (arith, not_taken b bs, (nat_beq_iff c.host_id b.host_id).0 same))
  | inr other ↦ rw other (
      ground (
        arith,
        put_binding-nodup_agents b bs,
        contains-agent_ids-put b bs c.agent_id,
        list_beq_iff c.agent_id b.agent_id,
        list_beq_iff b.agent_id c.agent_id,
      ))
]
