-- ===== src/Agents/Aims.antt =====
-- A report never aims at the host of another agent: `Resolve` of internal/agentapi/resolve.go on the hosts
-- that `agentReport` of internal/web/agent.go offers to it.
use almanaut.Base.{
  Bool-cases, List, Option, [], any, arith, bool_eq, contains, false, inl, inr, is_nodup, list_eq,
  nat_beq_iff, nat_eq, none, pair_eq, refl, some, string_eq, true, ℕ, ◌==◌, ◌∷◌, ◌≡◌, ◌⊎◌,
}
use almanaut.Base.Text.{Text}
use almanaut.Inventory.{Host}
use almanaut.Resource.{Kind}
use almanaut.Agents.{
  Decision, HostRef, Library, Report, decide_adopt, decide_conflict, decide_create, decide_update,
}
use almanaut.Agents.Resolve.{
  adopt_or_create, fingerprint, is_clone, match_host, match_ip, match_name, normalize_name, or_else,
  reported_ips, resolve,
}
use almanaut.Agents.Store.{AgentBinding, bound_host_ids, by_agent_id}
use almanaut.Agents.Hosts.{candidates}
use almanaut.Agents.Reporting.{Db, decide}
use almanaut.Agents.Bindings.{by_agent_id-is_free_for, is_free_for, unbound-is_free_for}

candidates-unbound :
    (bound : List ℕ) (hosts : List Host) (id : ℕ)
    → any (λ h. h.id == id) (candidates bound hosts) ≡ true
    → contains bound id ≡ false
unfolding candidates
candidates-unbound bound [] id h = absurd (cc h)
candidates-unbound bound (x ∷ hosts) id h = elim (Bool-cases (contains bound x.id)) [
  | inl taken ↦ candidates-unbound bound hosts id (rw taken at h)
  | inr free ↦ elim (Bool-cases (x.id == id)) [
    | inl same ↦ rw (← (nat_beq_iff x.id id).0 same) free
    | inr other ↦ candidates-unbound bound hosts id (rw (free, other) at h)
  ]
]

module _ {Ip S : Type 0} (lib : Library Ip) (json : Kind Host S) where
  -- The decision names no host, or one that no other agent reports for.
  abbrev pub Aims : Text → List AgentBinding → Decision → Type 0
  Aims agent bs decide_create = Unit
  Aims agent bs (decide_adopt id) = is_free_for id agent bs ≡ true
  Aims agent bs (decide_update id) = is_free_for id agent bs ≡ true
  Aims agent bs (decide_conflict id) = Unit

  match_name-any :
      (want : Text) (refs : List HostRef) (id : ℕ)
      → match_name lib want refs ≡ some id
      → any (λ h. h.id == id) refs ≡ true
  match_name-any want [] id h = absurd (cc h)
  match_name-any want (x ∷ refs) id h = elim (Bool-cases (normalize_name lib x.name == want)) [
    | inl here ↦
        let e : some x.id ≡ some id = rw here at h in
        let same : x.id ≡ id = cc e in ground (arith, (nat_beq_iff x.id id).1 same)
    | inr other ↦ ground (arith, match_name-any want refs id (rw other at h))
  ]

  match_ip-any :
      (reported : List Text) (refs : List HostRef) (id : ℕ)
      → match_ip lib reported refs ≡ some id
      → any (λ h. h.id == id) refs ≡ true
  match_ip-any reported [] id h = absurd (cc h)
  match_ip-any reported (x ∷ refs) id h = elim (Bool-cases (any (contains reported) x.ips)) [
    | inl here ↦
        let e : some x.id ≡ some id = rw here at h in
        let same : x.id ≡ id = cc e in ground (arith, (nat_beq_iff x.id id).1 same)
    | inr other ↦ ground (arith, match_ip-any reported refs id (rw other at h))
  ]

  or_else-either :
      (a b : Option ℕ) (id : ℕ) → or_else lib a b ≡ some id → (a ≡ some id) ⊎ (b ≡ some id)
  or_else-either none b id h = inr h
  or_else-either (some x) b id h = inl h

  match_host-any :
      (r : Report) (refs : List HostRef) (id : ℕ)
      → match_host lib r refs ≡ some id
      → any (λ h. h.id == id) refs ≡ true
  unfolding match_host
  match_host-any r refs id h =
      let want = normalize_name lib r.hostname in
      let reported = reported_ips lib r.interfaces in
      elim (or_else-either (match_name lib want refs) (match_ip lib reported refs) id h) [
        | inl by_name ↦ match_name-any want refs id by_name
        | inr by_ip ↦ match_ip-any reported refs id by_ip
      ]

  adopt_or_create-Aims :
      (agent : Text) (bs : List AgentBinding) (hosts : List Host) (found_host : Option ℕ)
      → ((id : ℕ)
          → found_host ≡ some id
          → any (λ h. h.id == id) (candidates (bound_host_ids bs) hosts) ≡ true)
      → Aims agent bs (adopt_or_create lib found_host)
  adopt_or_create-Aims agent bs hosts none h = tt
  adopt_or_create-Aims agent bs hosts (some id) h =
      unbound-is_free_for id agent bs (candidates-unbound (bound_host_ids bs) hosts id (h id refl))

  pub decide-Aims :
      (r : Report) (db : Db) (row : Option AgentBinding)
      → is_nodup (bound_host_ids db.agents.bindings) ≡ true
      → by_agent_id r.agent_id db.agents.bindings ≡ row
      → Aims r.agent_id db.agents.bindings (decide lib json r row db)
  unfolding decide resolve
  decide-Aims r db none unique e =
      adopt_or_create-Aims r.agent_id db.agents.bindings _ _ (match_host-any r _)
  decide-Aims r db (some b) unique e =
      elim (Bool-cases (is_clone lib b.fingerprint (fingerprint lib r))) [
        | inl clone ↦ rw clone tt
        | inr same ↦ rw same (by_agent_id-is_free_for r.agent_id db.agents.bindings b unique e)
      ]
