-- ===== src/Throttle.antt =====
-- internal/web/throttle.go: failed logins counted per username, and the lockout. An instant is a
-- number of nanoseconds with Go's zero time at 0, and a method returns the new throttle.
pub mod Lockout
pub mod History
use almanaut.Base.{
  Bool, Option, bool_eq, false, if◌then◌else◌, leb, list_eq, ltb, map, nat_eq, none, pair_eq, some,
  string_eq, true, ℕ, ◌+◌, ◌-◌,
}
use mathlib.Core.List.{[]}
use almanaut.Base.Assoc.{Assoc, delete, insert, lookup, retain}
use almanaut.Base.Text.{Text, trim_space}

pub record AttemptState : Type 0 where
  pub failures : ℕ
  pub locked_until : ℕ
  pub last_seen : ℕ

pub record LoginThrottle : Type 0 where
  pub attempts : Assoc Text AttemptState
  pub threshold : ℕ
  pub cooldown : ℕ

abbrev pub login_failure_threshold : ℕ
login_failure_threshold = 5

-- Fifteen minutes.
abbrev pub login_lockout_duration : ℕ
login_lockout_duration = 900000000000

unfoldable pub new_login_throttle_with : ℕ → ℕ → LoginThrottle
new_login_throttle_with threshold cooldown = record {
  attempts = [];
  threshold = threshold;
  cooldown = cooldown;
}

unfoldable pub new_login_throttle : LoginThrottle
unfolding new_login_throttle_with
new_login_throttle = new_login_throttle_with login_failure_threshold login_lockout_duration

-- `&attemptState{}`
abbrev pub no_attempts : AttemptState
no_attempts = record { failures = 0; locked_until = 0; last_seen = 0 }

abbrev pub or_fresh : Option AttemptState → AttemptState
or_fresh none = no_attempts
or_fresh (some st) = st

-- `now` is before the lock's end, so the subtraction is exact.
lock_status : Option AttemptState → ℕ → Bool × ℕ
lock_status none now = (true, 0)
lock_status (some st) now =
    if ltb now st.locked_until then (false, st.locked_until - now) else (true, 0)

count_failure : ℕ → ℕ → ℕ → AttemptState → AttemptState
count_failure threshold cooldown now st =
    let counted : AttemptState = record st { failures = st.failures + 1; last_seen = now } in
    if leb threshold counted.failures
    then record counted { locked_until = now + cooldown; failures = 0 }
    else counted

-- The test of `cleanup`'s loop, on what it keeps. `now.Sub(lastSeen) >= cooldown` is read as a sum,
-- so that a clock that went back drops nothing.
is_kept : ℕ → ℕ → AttemptState → Bool
is_kept cooldown now st =
    if ltb now st.locked_until
    then true
    else if leb (st.last_seen + cooldown) now
    then false
    else true

module _ (to_lower : ℕ → ℕ) where
  unfoldable pub throttle_key : Text → Text
  throttle_key username = map to_lower (trim_space username)

  unfoldable pub allowed : LoginThrottle → Text → ℕ → Bool × ℕ
  unfolding lock_status
  allowed t username now = lock_status (lookup (throttle_key username) t.attempts) now

  unfoldable pub record_failure : LoginThrottle → Text → ℕ → LoginThrottle
  unfolding count_failure
  record_failure t username now =
      let key = throttle_key username in
      let st = or_fresh (lookup key t.attempts) in
      record t { attempts = insert key (count_failure t.threshold t.cooldown now st) t.attempts }

  unfoldable pub record_success : LoginThrottle → Text → LoginThrottle
  record_success t username = record t { attempts = delete (throttle_key username) t.attempts }

unfoldable pub cleanup : LoginThrottle → ℕ → LoginThrottle
unfolding is_kept
cleanup t now = record t { attempts = retain (λ key st. is_kept t.cooldown now st) t.attempts }
