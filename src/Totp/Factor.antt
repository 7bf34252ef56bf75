-- ===== src/Totp/Factor.antt =====
-- internal/web/totp.go: setting a second factor up, confirming it, checking it and removing it.
-- A handler is a function of the tables and of what it draws at random; its pages are named by
-- an outcome.
pub mod Guard
use almanaut.Base.{
  Bool, List, Option, [], bool_eq, false, if◌then◌else◌, list_eq, map, nat_eq, none, pair_eq, some,
  string_eq, true, ℕ, ◌==◌,
}
use almanaut.Base.Text.{Text}
use almanaut.Totp.{Primitives, match_totp, normalize_recovery_code}
use almanaut.Totp.Store.{
  TotpDb, UserTotp, disable, enable, get, replace_recovery_codes, set_secret, use_recovery_code,
  use_step,
}

pub data Outcome : Type 0 where
  -- The enrollment page, the recovery codes, the account page, a page with an error, a 404.
  confirmed redirected bad_code missing : Outcome

-- Setup refuses to restart a factor that is enabled, and redirects either way.
start_setup : TotpDb → ℕ → Text → ℕ → Option UserTotp → TotpDb × Outcome
start_setup db user secret now none = (set_secret db user secret now, redirected)
start_setup db user secret now (some t) =
    if t.enabled then (db, redirected) else (set_secret db user secret now, redirected)

unfoldable pub setup_2fa : TotpDb → ℕ → Text → ℕ → TotpDb × Outcome
unfolding start_setup
setup_2fa db user secret now = start_setup db user secret now (get db user)

module _ (lib : Primitives) (hash_token : Text → Text) where
  -- `Enable`, `UseStep` and `ReplaceRecoveryCodes` in one transaction. The row is there, since
  -- `Get` found it, so `Enable` does not fail.
  unfoldable pub confirm_step : TotpDb → ℕ → List Text → Option ℕ → TotpDb × Outcome
  confirm_step db user codes none = (db, bad_code)
  confirm_step db user codes (some step) =
      let db₁ = (enable db user).0 in
      let db₂ = (use_step db₁ user step).0 in
      (
        replace_recovery_codes db₂ user
            (map (λ c. hash_token (normalize_recovery_code lib.to_lower c)) codes),
        confirmed,
      )

  confirm_row : TotpDb → ℕ → Text → List Text → ℕ → Option UserTotp → TotpDb × Outcome
  confirm_row db user code codes now none = (db, missing)
  confirm_row db user code codes now (some t) =
      confirm_step db user codes (match_totp lib t.secret code now)

  -- `codes` are the recovery codes that `GenerateRecoveryCodes` draws.
  unfoldable pub confirm_2fa : TotpDb → ℕ → Text → List Text → ℕ → TotpDb × Outcome
  unfolding confirm_row
  confirm_2fa db user code codes now = confirm_row db user code codes now (get db user)

  -- The part of `verifySecondFactor` that tries the one-time code.
  accept_step : TotpDb → ℕ → Option ℕ → TotpDb × Bool
  accept_step db user none = (db, false)
  accept_step db user (some step) = use_step db user step

  unfoldable pub accept_code : TotpDb → ℕ → Text → Text → ℕ → TotpDb × Bool
  unfolding accept_step
  accept_code db user secret code now =
      if code == [] then (db, false) else accept_step db user (match_totp lib secret code now)

  unfoldable pub accept_recovery : TotpDb → ℕ → Text → TotpDb × Bool
  accept_recovery db user recovery =
      if recovery == []
      then (db, false)
      else use_recovery_code db user (hash_token (normalize_recovery_code lib.to_lower recovery))

  unfoldable pub verify_second_factor : TotpDb → ℕ → Text → Text → Text → ℕ → TotpDb × Bool
  verify_second_factor db user secret code recovery now =
      let (db', accepted) = accept_code db user secret code now in
      if accepted then (db', true) else accept_recovery db' user recovery

  disable_row : TotpDb → ℕ → Text → Text → ℕ → Option UserTotp → TotpDb × Outcome
  disable_row db user code recovery now none = (db, missing)
  disable_row db user code recovery now (some t) =
      let (db', accepted) = verify_second_factor db user t.secret code recovery now in
      if accepted then (disable db' user, redirected) else (db', bad_code)

  unfoldable pub disable_2fa : TotpDb → ℕ → Text → Text → ℕ → TotpDb × Outcome
  unfolding disable_row
  disable_2fa db user code recovery now = disable_row db user code recovery now (get db user)
