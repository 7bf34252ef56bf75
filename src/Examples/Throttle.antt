-- ===== src/Examples/Throttle.antt =====
-- Inputs for the theorems on internal/web/throttle.go.
use almanaut.Base.{
  List, [], bool_eq, false, list_eq, nat_eq, pair_eq, refl, select, string_eq, ◌∷◌, ◌≡◌,
}
use almanaut.Base.Assoc.{has_unique_keys, insert, lookup}
use almanaut.Base.Text.{Text, ascii_lower, is_space, text_of, trim_left, trim_space}
use almanaut.Throttle.{LoginThrottle, allowed, record_failure, throttle_key}
use almanaut.Throttle.Lockout.{fail_at, lockout_exact}
use almanaut.Throttle.History.{Event, allowed-run_own, clean, concerns, failure, run, success}

-- Three failures lock for a hundred ticks.
abbrev strict : LoginThrottle
strict = record { attempts = []; threshold = 3; cooldown = 100 }

abbrev ada : Text
ada = text_of "Ada"

abbrev bob : Text
bob = text_of "bob"

lockout_exact_example :
    allowed ascii_lower (fail_at ascii_lower strict ada (10 ∷ 20 ∷ 30 ∷ [])) ada 50 ≡ (false, 80)
unfolding lookup
lockout_exact_example = lockout_exact ascii_lower strict ada (10 ∷ 20 ∷ []) 30 50 refl refl

abbrev locked : LoginThrottle
locked = record strict {
  attempts =
      (text_of "ada", record { failures = 0; locked_until = 130; last_seen = 30 })
      ∷ (bob, record { failures = 1; locked_until = 0; last_seen = 5 })
      ∷ [];
}

abbrev attack : List Event
attack =
    failure (text_of " ADA") 1
    ∷ failure bob 2
    ∷ failure bob 3
    ∷ failure bob 4
    ∷ clean 5
    ∷ success ada
    ∷ []

allowed-run_own_example :
    allowed ascii_lower (run ascii_lower strict attack) ada 6
    ≡ allowed ascii_lower (run ascii_lower strict (select (concerns ascii_lower ada) attack)) ada 6
unfolding has_unique_keys
allowed-run_own_example = allowed-run_own ascii_lower strict ada attack 6 refl

-- The model run: two spellings of one name share their counter.
locks :
    allowed ascii_lower
      (fail_at ascii_lower (fail_at ascii_lower strict ada (1 ∷ 2 ∷ [])) (text_of " ADA") (3 ∷ []))
      ada
      4
    ≡ (false, 99)
unfolding allowed record_failure throttle_key trim_space trim_left is_space ascii_lower lookup
    insert
locks = refl
