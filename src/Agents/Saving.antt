-- ===== src/Agents/Saving.antt =====
-- What `agentReport` of internal/web/agent.go writes to the table of the hosts.
use almanaut.Base.{
  Bool-cases, List, Option, [], ap, arith, beq_refl, bool_eq, false, inl, inr, is_some, list_eq,
  nat_beq_iff, nat_eq, none, not, pair_eq, refl, some, string_eq, suc, sym, true, ℕ, ◌<◌, ◌==◌, ◌∙◌,
  ◌∷◌, ◌≡◌, ◌≢◌, ◌≤◌,
}
use almanaut.Base.Result.{
  Result, Returns, bind-Returns, bind-Returns_any, err, ok, ok-Returns, refuse_if, then-Returns,
  weaken-Returns,
}
use almanaut.Agents.Reporting.{
  Refusal, agent_actor, create_host, invalid_host, lift, open_session, update_host,
}
use almanaut.Resource.{
  Event, Fault, FieldChange, Kind, Session, Tables, broken_json, found, log_change, not_found,
}
use almanaut.Base.Assoc.{insert, lookup, lookup-insert}
use almanaut.Inventory.{Host}
use almanaut.Base.Text.{Text}
use almanaut.Resource.Diff.{diff}
use almanaut.Resource.Transactions.{
  announce_update, create_entity_tx, new_change, new_event, update_entity_tx,
}
use almanaut.Agents.{Library, Report}
use almanaut.Agents.Resolve.{merge_agent_report}
use almanaut.Agents.Hosts.{empty_host, host_kind, is_valid_host, names_of}

-- A row has its key as its id, and ids are given in order.
pub record IsKeyed (t : Tables Host) : Type 0 where
  pub keyed : (id : ℕ) (h : Host) → lookup id t.rows ≡ some h → h.id ≡ id
  pub fresh : (id : ℕ) → is_some (lookup id t.rows) ≡ true → id < t.next_id

-- One row was written, and it is there.
pub record Writes (id : ℕ) (t after : Tables Host) : Type 0 where
  pub elsewhere : (j : ℕ) → id ≢ j → lookup j after.rows ≡ lookup j t.rows
  pub there : is_some (lookup id after.rows) ≡ true
  pub is_keyed : IsKeyed after

pub inserted-Writes :
    (h : Host) (t after : Tables Host)
    → IsKeyed t
    → after.rows ≡ insert h.id h t.rows
    → t.next_id ≤ after.next_id
    → h.id < after.next_id
    → Writes h.id t after
inserted-Writes h t after k rows grows below = record {
  elsewhere =
      λ j apart. rw (rows, lookup-insert h.id j h t.rows) (ground (arith, nat_beq_iff h.id j));
  there = rw (rows, lookup-insert h.id h.id h t.rows, beq_refl h.id) refl;
  is_keyed = record {
    keyed = λ id g e.
        let found_at =
          sym (lookup-insert h.id id h t.rows) ∙ (sym (ap (λ m. lookup id m) rows) ∙ e) in
        elim (Bool-cases (h.id == id)) [
          | inl same ↦
              let head : some h ≡ some g = rw same at found_at in
              let same_host : h ≡ g = cc head in
              sym (ap (λ (x : Host). x.id) same_host) ∙ (nat_beq_iff h.id id).0 same
          | inr other ↦ k.keyed id g (rw other at found_at)
        ];
    fresh = λ id e.
        let found_at = rw (rows, lookup-insert h.id id h t.rows) at e in
        elim (Bool-cases (h.id == id)) [
          | inl same ↦ rw (← (nat_beq_iff h.id id).0 same) below
          | inr other ↦ let old = k.fresh id (rw other at found_at) in omega (arith, old)
        ];
  };
}

lift-Returns : {A : Type 0} (P : A → Type 0) (r : Result Fault A) → Returns P r → Returns P (lift r)
unfolding Returns
lift-Returns P (err problem) h = tt
lift-Returns P (ok a) h = h

announce_update-rows :
    {T S : Type 0} (k : Kind T S) (item : T) (changes : List FieldChange) (actor now : Text)
    (content : Option Text) (t : Tables T) (events : List Event)
    → Returns
        (λ st. (st.tables.rows ≡ t.rows) × (st.tables.next_id ≡ t.next_id))
        (announce_update k item changes actor now content t events)
unfolding announce_update Returns
announce_update-rows k item [] actor now content t events = (refl, refl)
announce_update-rows k item (c ∷ cs) actor now none t events = tt
announce_update-rows k item (c ∷ cs) actor now (some raw) t events = (refl, refl)

found-Returns :
    {A : Type 0} (problem : Fault) (o : Option A) → Returns (λ a. o ≡ some a) (found problem o)
unfolding Returns
found-Returns problem none = tt
found-Returns problem (some a) = refl

-- What saving a report leaves: the host, the names of its changed fields and the session.
abbrev pub Saved : ℕ → Tables Host → ℕ × List Text × Session Host → Type 0
Saved id hosts made = Writes id hosts made.2.tables × (made.0 ≡ id)

abbrev Inserted : ℕ → Tables Host → ℕ × Session Host → Type 0
Inserted id hosts made = Writes id hosts made.1.tables × (made.0 ≡ id)

module _ {Ip S : Type 0} (lib : Library Ip) (json : Kind Host S) (hosts : Tables Host) where
  rewritten-Writes :
      (id : ℕ) (h : Host) (t : Tables Host)
      → IsKeyed hosts
      → h.id ≡ id
      → is_some (lookup id hosts.rows) ≡ true
      → (t.rows ≡ insert h.id h hosts.rows) × (t.next_id ≡ hosts.next_id)
      → Writes id hosts t
  rewritten-Writes id h t k same there (rows, next) =
      let below = k.fresh id there in
      rw (← same)
        (inserted-Writes h hosts t k rows (omega (arith, next)) (omega (arith, next, below, same)))

  create_entity_tx-Inserted :
      (h : Host) (actor now : Text)
      → IsKeyed hosts
      → Returns
          (Inserted hosts.next_id hosts)
          (create_entity_tx (host_kind lib json) h [] actor now (open_session hosts))
  unfolding create_entity_tx
  create_entity_tx-Inserted h actor now k =
      bind-Returns_any _ (diff (host_kind lib json) empty_host h) _ λ changes.
        bind-Returns_any _ (found broken_json (json.marshal h)) _ λ content.
          let made : Host = record h { id = hosts.next_id } in
          let last : Tables Host =
            log_change
              (new_change (host_kind lib json) hosts.next_id h.name "create" actor changes now)
              (record hosts {
                rows = insert hosts.next_id made hosts.rows;
                next_id = suc hosts.next_id;
              }) in
          let w : Writes hosts.next_id hosts last =
            inserted-Writes made hosts last k refl (omega arith) (omega arith) in
          ok-Returns Fault (Inserted hosts.next_id hosts)
            (
              hosts.next_id,
              record {
                tables = last;
                events =
                    new_event (host_kind lib json) hosts.next_id "created" actor now (some content)
                    ∷ [];
              },
            )
            (w, refl)

  update_entity_tx-Writes :
      (id : ℕ) (h : Host) (actor now : Text)
      → IsKeyed hosts
      → h.id ≡ id
      → is_some (lookup id hosts.rows) ≡ true
      → Returns
          (λ st. Writes id hosts st.tables)
          (update_entity_tx (host_kind lib json) h [] actor now (open_session hosts))
  unfolding update_entity_tx
  update_entity_tx-Writes id h actor now k same there =
      bind-Returns_any _ (found not_found (lookup h.id hosts.rows)) _ λ old.
        bind-Returns_any _ (diff (host_kind lib json) old h) _ λ changes.
          weaken-Returns _ _ _
            (announce_update-rows (host_kind lib json) h changes actor now (json.marshal h)
              (record hosts { rows = insert h.id h hosts.rows }) [])
            λ (st : Session Host). λ e. rewritten-Writes id h st.tables k same there e

  pub create_host-Saved :
      (r : Report) (now : Text)
      → IsKeyed hosts
      → Returns (Saved hosts.next_id hosts) (create_host lib json r now hosts)
  unfolding create_host
  create_host-Saved r now k =
      let h = merge_agent_report lib empty_host r true in
      then-Returns _ (refuse_if (not (is_valid_host lib h)) invalid_host) _ (
        bind-Returns _ (Inserted hosts.next_id hosts) _ _
          (lift-Returns _ _ (create_entity_tx-Inserted h (agent_actor r) now k))
          λ made p.
            ok-Returns Refusal (Saved hosts.next_id hosts)
              (made.0, names_of (diff json empty_host h), made.1) p)

  saved :
      (id : ℕ) (names : List Text) (st : Session Host)
      → Writes id hosts st.tables
      → Returns {E = Refusal} (Saved id hosts) (ok (id, names, st))
  unfolding Returns
  saved id names st w = (w, refl)

  pub update_host-Saved :
      (id : ℕ) (r : Report) (now : Text)
      → IsKeyed hosts
      → Returns (Saved id hosts) (update_host lib json id r now hosts)
  unfolding update_host merge_agent_report
  update_host-Saved id r now k =
      bind-Returns _ (λ (h : Host). lookup id hosts.rows ≡ some h) _ _
        (lift-Returns _ _ (found-Returns not_found (lookup id hosts.rows)))
        λ h there.
          let merged = merge_agent_report lib h r false in
          then-Returns _ (refuse_if (not (is_valid_host lib merged)) invalid_host) _ (
            bind-Returns _ (λ (st : Session Host). Writes id hosts st.tables) _ _
              (lift-Returns _ _ (
                update_entity_tx-Writes id merged (agent_actor r) now k (k.keyed id h there)
                  (rw there refl)))
              (saved id (names_of (diff json h merged))))
