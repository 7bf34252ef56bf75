-- ===== src/Throttle/History.antt =====
-- What holds of the throttle of internal/web/throttle.go over any sequence of its operations.
use almanaut.Base.{
  Bool, Bool-cases, List, Option, [], arith, bool_eq, false, if◌then◌else◌, inl, inr, list_beq_iff,
  list_eq, map, nat_eq, none, pair_eq, refl, select, some, string_eq, true, ℕ, ◌+◌, ◌<◌, ◌==◌, ◌∙◌,
  ◌∷◌, ◌≡◌, ◌≤◌,
}
use almanaut.Base.Text.{Text, trim_space}
use almanaut.Base.Assoc.{
  delete-has_unique_keys, has_unique_keys, insert-has_unique_keys, keep_if, lookup, lookup-delete,
  lookup-insert, lookup-retain, retain-has_unique_keys,
}
use almanaut.Throttle.{
  AttemptState, LoginThrottle, allowed, cleanup, count_failure, is_kept, lock_status,
  new_login_throttle_with, or_fresh, record_failure, record_success, throttle_key,
}

-- The calls that a server makes on its throttle, each at its time.
pub data Event : Type 0 where
  failure : Text → ℕ → Event
  success : Text → Event
  clean : ℕ → Event

module _ (to_lower : ℕ → ℕ) where
  unfoldable pub step : LoginThrottle → Event → LoginThrottle
  step t (failure u now) = record_failure to_lower t u now
  step t (success u) = record_success to_lower t u
  step t (clean now) = cleanup t now

  unfoldable pub run : LoginThrottle → List Event → LoginThrottle
  unfolding step
  run t [] = t
  run t (e ∷ es) = run (step t e) es

  -- Two names that differ at most in letter case and in the spaces around them.
  abbrev pub is_same_name : Text → Text → Bool
  is_same_name u v = map to_lower (trim_space v) == map to_lower (trim_space u)

  -- The events that bear on a user: those under the same name, and every cleanup.
  abbrev pub concerns : Text → Event → Bool
  concerns u (failure v now) = is_same_name u v
  concerns u (success v) = is_same_name u v
  concerns u (clean now) = true

  -- What an event makes of the entry under the key `k`.
  abbrev effect : ℕ → ℕ → Text → Option AttemptState → Event → Option AttemptState
  effect threshold cooldown k o (failure v now) =
      if throttle_key to_lower v == k
      then some (count_failure threshold cooldown now (or_fresh o))
      else o
  effect threshold cooldown k o (success v) = if throttle_key to_lower v == k then none else o
  effect threshold cooldown k o (clean now) = keep_if (λ key st. is_kept cooldown now st) k o

  lookup-step :
      (t : LoginThrottle) (k : Text) (e : Event)
      → has_unique_keys t.attempts ≡ true
      → lookup k (step t e).attempts ≡ effect t.threshold t.cooldown k (lookup k t.attempts) e
  unfolding step record_failure record_success cleanup
  lookup-step t k (failure v now) h =
      rw (lookup-insert (throttle_key to_lower v) k _ t.attempts)
        (ground (arith, list_beq_iff (throttle_key to_lower v) k))
  lookup-step t k (success v) h = lookup-delete (throttle_key to_lower v) k t.attempts
  lookup-step t k (clean now) h = lookup-retain _ k t.attempts h

  policy-step :
      (t : LoginThrottle) (e : Event)
      → ((step t e).threshold ≡ t.threshold) × ((step t e).cooldown ≡ t.cooldown)
  unfolding step record_failure record_success cleanup
  policy-step t (failure v now) = (refl, refl)
  policy-step t (success v) = (refl, refl)
  policy-step t (clean now) = (refl, refl)

  unique-step :
      (t : LoginThrottle) (e : Event)
      → has_unique_keys t.attempts ≡ true
      → has_unique_keys (step t e).attempts ≡ true
  unfolding step record_failure record_success cleanup
  unique-step t (failure u now) h = insert-has_unique_keys _ _ t.attempts h
  unique-step t (success u) h = delete-has_unique_keys _ t.attempts h
  unique-step t (clean now) h = retain-has_unique_keys _ t.attempts h

  -- Two throttles with one policy that hold the same under a key.
  record SameFor (k : Text) (s t : LoginThrottle) : Type 0 where
    threshold : s.threshold ≡ t.threshold
    cooldown : s.cooldown ≡ t.cooldown
    held : lookup k s.attempts ≡ lookup k t.attempts
    unique_left : has_unique_keys s.attempts ≡ true
    unique_right : has_unique_keys t.attempts ≡ true

  step-SameFor :
      (k : Text) (s t : LoginThrottle) (e : Event) → SameFor k s t → SameFor k (step s e) (step t e)
  step-SameFor k s t e h = record {
    threshold = cc ((policy-step s e).0, (policy-step t e).0, h.threshold);
    cooldown = cc ((policy-step s e).1, (policy-step t e).1, h.cooldown);
    held = cc (
      lookup-step s k e h.unique_left,
      lookup-step t k e h.unique_right,
      h.threshold,
      h.cooldown,
      h.held,
    );
    unique_left = unique-step s e h.unique_left;
    unique_right = unique-step t e h.unique_right;
  }

  effect_of_others :
      (threshold cooldown : ℕ) (u : Text) (o : Option AttemptState) (e : Event)
      → concerns u e ≡ false
      → effect threshold cooldown (throttle_key to_lower u) o e ≡ o
  unfolding throttle_key
  effect_of_others threshold cooldown u o (failure v now) c = rw c
  effect_of_others threshold cooldown u o (success v) c = rw c
  effect_of_others threshold cooldown u o (clean now) c = cc

  skip-SameFor :
      (u : Text) (s t : LoginThrottle) (e : Event)
      → concerns u e ≡ false
      → SameFor (throttle_key to_lower u) s t
      → SameFor (throttle_key to_lower u) (step s e) t
  skip-SameFor u s t e c h = record {
    threshold = cc ((policy-step s e).0, h.threshold);
    cooldown = cc ((policy-step s e).1, h.cooldown);
    held = cc (
      lookup-step s (throttle_key to_lower u) e h.unique_left,
      effect_of_others s.threshold s.cooldown u (lookup (throttle_key to_lower u) s.attempts) e c,
      h.held,
    );
    unique_left = unique-step s e h.unique_left;
    unique_right = h.unique_right;
  }

  run-SameFor :
      (u : Text) (s t : LoginThrottle) (es : List Event)
      → SameFor (throttle_key to_lower u) s t
      → SameFor (throttle_key to_lower u) (run s es) (run t (select (concerns u) es))
  unfolding run
  run-SameFor u s t [] h = h
  run-SameFor u s t (e ∷ es) h = elim (Bool-cases (concerns u e)) [
    | inl c ↦ rw c (run-SameFor u (step s e) (step t e) es (step-SameFor _ s t e h))
    | inr c ↦ rw c (run-SameFor u (step s e) t es (skip-SameFor u s t e c h))
  ]

  -- After any events, `allowed` answers a user as if only the failures and successes under names
  -- that differ from this one at most in letter case and in the spaces around them, and the
  -- cleanups, had happened.
  pub allowed-run_own :
      (t : LoginThrottle) (u : Text) (es : List Event) (now : ℕ)
      → has_unique_keys t.attempts ≡ true
      → allowed to_lower (run t es) u now ≡ allowed to_lower (run t (select (concerns u) es)) u now
  unfolding allowed
  allowed-run_own t u es now unique =
      let start : SameFor (throttle_key to_lower u) t t = record {
        threshold = refl;
        cooldown = refl;
        held = refl;
        unique_left = unique;
        unique_right = unique;
      } in
      cc (run-SameFor u t t es start).held

  -- The clock after an event, and a sequence of events whose clock never goes back.
  abbrev pub time_after : ℕ → Event → ℕ
  time_after c (failure v now) = now
  time_after c (success v) = c
  time_after c (clean now) = now

  abbrev pub InOrder : ℕ → List Event → ℕ → Type 0
  InOrder c [] end = c ≤ end
  InOrder c (e ∷ es) end = (c ≤ time_after c e) × InOrder (time_after c e) es end

  -- What holds of an entry at the time `c`.
  abbrev IsSound : ℕ → ℕ → ℕ → Option AttemptState → Type 0
  IsSound threshold cooldown c none = Unit
  IsSound threshold cooldown c (some st) =
      (st.failures < threshold) × (st.locked_until ≤ st.last_seen + cooldown) × (st.last_seen ≤ c)

  count_failure-IsSound :
      (threshold cooldown c now : ℕ) (o : Option AttemptState)
      → 0 < threshold
      → c ≤ now
      → IsSound threshold cooldown c o
      → IsSound threshold cooldown now (some (count_failure threshold cooldown now (or_fresh o)))
  unfolding count_failure
  count_failure-IsSound threshold cooldown c now none p q h = ground arith
  count_failure-IsSound threshold cooldown c now (some st) p q h = ground arith

  later-IsSound :
      (threshold cooldown c d : ℕ) (o : Option AttemptState)
      → c ≤ d
      → IsSound threshold cooldown c o
      → IsSound threshold cooldown d o
  later-IsSound threshold cooldown c d none q h = tt
  later-IsSound threshold cooldown c d (some st) q h = omega arith

  effect-IsSound :
      (threshold cooldown c : ℕ) (k : Text) (o : Option AttemptState) (e : Event)
      → 0 < threshold
      → c ≤ time_after c e
      → IsSound threshold cooldown c o
      → IsSound threshold cooldown (time_after c e) (effect threshold cooldown k o e)
  effect-IsSound threshold cooldown c k o (failure v now) p q h =
      elim (Bool-cases (throttle_key to_lower v == k)) [
        | inl own ↦ rw own (count_failure-IsSound threshold cooldown c now o p q h)
        | inr other ↦ rw other (later-IsSound threshold cooldown c now o q h)
      ]
  effect-IsSound threshold cooldown c k o (success v) p q h =
      elim (Bool-cases (throttle_key to_lower v == k)) [
        | inl own ↦ rw own tt
        | inr other ↦ rw other h
      ]
  effect-IsSound threshold cooldown c k none (clean now) p q h = tt
  effect-IsSound threshold cooldown c k (some st) (clean now) p q h =
      elim (Bool-cases (is_kept cooldown now st)) [
        | inl keep ↦ rw keep (later-IsSound threshold cooldown c now (some st) q h)
        | inr drop ↦ rw drop tt
      ]

  run-IsSound :
      (threshold cooldown : ℕ) (t : LoginThrottle) (k : Text) (es : List Event) (c end : ℕ)
      → t.threshold ≡ threshold
      → t.cooldown ≡ cooldown
      → 0 < threshold
      → has_unique_keys t.attempts ≡ true
      → InOrder c es end
      → IsSound threshold cooldown c (lookup k t.attempts)
      → IsSound threshold cooldown end (lookup k (run t es).attempts)
  unfolding run
  run-IsSound threshold cooldown t k [] c end eq_t eq_c p unique o h =
      later-IsSound threshold cooldown c end (lookup k t.attempts) o h
  run-IsSound threshold cooldown t k (e ∷ es) c end eq_t eq_c p unique o h =
      run-IsSound threshold cooldown (step t e) k es (time_after c e) end
        ((policy-step t e).0 ∙ eq_t) ((policy-step t e).1 ∙ eq_c) p (unique-step t e unique) o.1
        (rw (lookup-step t k e unique, eq_t, eq_c)
          (effect-IsSound threshold cooldown c k (lookup k t.attempts) e p o.0 h))

  wait_bounded :
      (threshold cooldown now : ℕ) (o : Option AttemptState)
      → 0 < threshold
      → IsSound threshold cooldown now o
      → ((lock_status o now).1 ≤ cooldown) × ((or_fresh o).failures < threshold)
  unfolding lock_status
  wait_bounded threshold cooldown now none p h = omega arith
  wait_bounded threshold cooldown now (some st) p h = ground arith

  -- From a new throttle, after any events whose clock never goes back: a refusal asks the user to
  -- wait no longer than the cooldown, and the counter of failures stays below the threshold.
  pub refusal_bounded :
      (threshold cooldown : ℕ) (u : Text) (es : List Event) (now : ℕ)
      → 0 < threshold
      → InOrder 0 es now
      → let t = run (new_login_throttle_with threshold cooldown) es in
        ((allowed to_lower t u now).1 ≤ cooldown)
        × ((or_fresh (lookup (throttle_key to_lower u) t.attempts)).failures < threshold)
  unfolding allowed new_login_throttle_with
  refusal_bounded threshold cooldown u es now p o =
      let k = throttle_key to_lower u in
      let start = new_login_throttle_with threshold cooldown in
      wait_bounded threshold cooldown now (lookup k (run start es).attempts) p (
        run-IsSound threshold cooldown start k es 0 now refl refl p (unfold has_unique_keys in refl)
          o (unfold lookup in tt))
