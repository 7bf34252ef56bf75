-- ===== src/Throttle/Lockout.antt =====
-- When the lockout of internal/web/throttle.go arms, how long it holds, and that cleaning up
-- never opens it.
use almanaut.Base.{
  List, [], arith, beq_refl, bool_eq, false, if◌then◌else◌, length, list_eq, ltb, nat_eq, pair_eq,
  refl, string_eq, true, ℕ, ◌++◌, ◌+◌, ◌-◌, ◌<◌, ◌∙◌, ◌∷◌, ◌≡◌, ◌≤◌,
}
use almanaut.Base.Assoc.{has_unique_keys, lookup, lookup-insert, lookup-retain}
use almanaut.Base.Text.{Text}
use almanaut.Throttle.{
  AttemptState, LoginThrottle, allowed, cleanup, count_failure, or_fresh, record_failure,
  throttle_key,
}

module _ (to_lower : ℕ → ℕ) where
  -- Failed logins of one user, one at each of the times.
  abbrev pub fail_at : LoginThrottle → Text → List ℕ → LoginThrottle
  fail_at t u [] = t
  fail_at t u (now ∷ later) = fail_at (record_failure to_lower t u now) u later

  -- What the throttle holds against a user, the fresh state included.
  abbrev pub entry : LoginThrottle → Text → AttemptState
  entry t u = or_fresh (lookup (throttle_key to_lower u) t.attempts)

  entry-record_failure :
      (t : LoginThrottle) (u : Text) (now : ℕ)
      → entry (record_failure to_lower t u now) u
        ≡ count_failure t.threshold t.cooldown now (entry t u)
  unfolding record_failure
  entry-record_failure t u now = simp (lookup-insert, beq_refl)

  policy-record_failure :
      (t : LoginThrottle) (u : Text) (now : ℕ)
      → ((record_failure to_lower t u now).threshold ≡ t.threshold)
        × ((record_failure to_lower t u now).cooldown ≡ t.cooldown)
  unfolding record_failure
  policy-record_failure t u now = (refl, refl)

  allowed-entry :
      (t : LoginThrottle) (u : Text) (now : ℕ)
      → allowed to_lower t u now ≡ (
          let until = (entry t u).locked_until in
          if ltb now until then (false, until - now) else (true, 0))
  unfolding allowed
  allowed-entry t u now = ground arith

  -- A failure that stays short of the threshold only counts.
  record_failure_short :
      (t : LoginThrottle) (u : Text) (now : ℕ)
      → (entry t u).failures + 1 < t.threshold
      → ((entry (record_failure to_lower t u now) u).failures ≡ (entry t u).failures + 1)
        × ((entry (record_failure to_lower t u now) u).locked_until ≡ (entry t u).locked_until)
  unfolding count_failure
  record_failure_short t u now h = rw (entry-record_failure t u now) (ground arith)

  -- The failure that reaches it arms the lock.
  record_failure_full :
      (t : LoginThrottle) (u : Text) (now : ℕ)
      → t.threshold ≤ (entry t u).failures + 1
      → (entry (record_failure to_lower t u now) u).locked_until ≡ now + t.cooldown
  unfolding count_failure
  record_failure_full t u now h = rw (entry-record_failure t u now) (ground arith)

  fail_at_short :
      (t : LoginThrottle) (u : Text) (ts : List ℕ)
      → (entry t u).failures + length ts < t.threshold
      → ((entry (fail_at t u ts) u).failures ≡ (entry t u).failures + length ts)
        × ((entry (fail_at t u ts) u).locked_until ≡ (entry t u).locked_until)
        × ((fail_at t u ts).threshold ≡ t.threshold)
        × ((fail_at t u ts).cooldown ≡ t.cooldown)
  fail_at_short t u [] h = (omega arith, refl, refl, refl)
  fail_at_short t u (now ∷ later) h =
      let (p, c) = policy-record_failure t u now in
      let (f, l) = record_failure_short t u now (omega arith) in
      let (f', l', p', c') =
        fail_at_short (record_failure to_lower t u now) u later (omega arith) in
      (omega arith, l' ∙ l, p' ∙ p, c' ∙ c)

  fail_at-append :
      (t : LoginThrottle) (u : Text) (ts : List ℕ) (last : ℕ)
      → fail_at t u (ts ++ last ∷ []) ≡ record_failure to_lower (fail_at t u ts) u last
  fail_at-append t u [] last = refl
  fail_at-append t u (now ∷ later) last =
      fail_at-append (record_failure to_lower t u now) u later last

  -- Fewer failed logins than the threshold, counted from a cleared counter, change nothing in
  -- what `allowed` answers for the user, at any time.
  below-threshold :
      (t : LoginThrottle) (u : Text) (ts : List ℕ) (now : ℕ)
      → (entry t u).failures ≡ 0
      → length ts < t.threshold
      → allowed to_lower (fail_at t u ts) u now ≡ allowed to_lower t u now
  below-threshold t u ts now clear few = rw (
    allowed-entry (fail_at t u ts) u now,
    allowed-entry t u now,
    (fail_at_short t u ts (omega arith)).1,
  )

  -- As many failed logins as the threshold, counted from a cleared counter, lock the user out from
  -- the last of them for exactly the cooldown: `allowed` refuses with the time that is left, and
  -- from the end of the cooldown on it accepts.
  pub lockout_exact :
      (t : LoginThrottle) (u : Text) (ts : List ℕ) (last now : ℕ)
      → (entry t u).failures ≡ 0
      → length ts + 1 ≡ t.threshold
      → allowed to_lower (fail_at t u (ts ++ last ∷ [])) u now
        ≡ (if ltb now (last + t.cooldown) then (false, last + t.cooldown - now) else (true, 0))
  lockout_exact t u ts last now clear full =
      let (f, l, p, c) = fail_at_short t u ts (omega arith) in
      rw (
        fail_at-append t u ts last,
        allowed-entry,
        record_failure_full (fail_at t u ts) u last (omega arith),
        c,
      )

-- Cleaning up drops no lock: at the time of the cleanup and ever after, `allowed` answers every
-- user as it would have without it.
pub allowed-cleanup :
    (to_lower : ℕ → ℕ) (t : LoginThrottle) (u : Text) (now later : ℕ)
    → has_unique_keys t.attempts ≡ true
    → now ≤ later
    → allowed to_lower (cleanup t now) u later ≡ allowed to_lower t u later
unfolding allowed cleanup
allowed-cleanup to_lower t u now later unique h =
    rw (lookup-retain _ (throttle_key to_lower u) t.attempts unique) (ground arith)
