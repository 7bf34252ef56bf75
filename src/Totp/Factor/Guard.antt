-- ===== src/Totp/Factor/Guard.antt =====
-- What guards a second factor in internal/web/totp.go.
use almanaut.Base.{
  Bool, Bool-cases, List, Option, Option-cases, arith, beq_refl, bool_eq, false, inl, inr, list_eq,
  ltb, nat_eq, none, pair_eq, refl, some, string_eq, true, ℕ, ◌∙◌, ◌≡◌, ◌≢◌, ◌≤◌, ◌⊎◌,
}
use almanaut.Base.Assoc.{insert, lookup, lookup-delete, lookup-insert}
use almanaut.Base.Text.{Text}
use almanaut.Totp.{Primitives, match_totp}
use almanaut.Totp.Store.{
  TotpDb, UserTotp, disable, enable, get, replace_recovery_codes, use_recovery_code, use_step,
}
use almanaut.Totp.Factor.{
  accept_code, accept_recovery, confirm_2fa, confirm_step, confirmed, disable_2fa, redirected,
  setup_2fa, verify_second_factor,
}

abbrev pub is_enabled : Option UserTotp → Bool
is_enabled none = false
is_enabled (some t) = t.enabled

-- Setting up never disturbs a factor that is enabled: nothing at all changes.
setup_2fa_enabled :
    (db : TotpDb) (user : ℕ) (secret : Text) (now : ℕ)
    → is_enabled (get db user) ≡ true
    → setup_2fa db user secret now ≡ (db, redirected)
unfolding setup_2fa
setup_2fa_enabled db user secret now h = ground arith

module _ (lib : Primitives) (hash_token : Text → Text) where
  use_step-later :
      (db : TotpDb) (user step : ℕ) (t : UserTotp)
      → lookup user db.factors ≡ some t
      → (t' : UserTotp) × (lookup user (use_step db user step).0.factors ≡ some t')
        × (step ≤ t'.last_used_step)
        × (t'.secret ≡ t.secret)
        × (t'.enabled ≡ t.enabled)
  unfolding use_step
  use_step-later db user step t row = elim (Bool-cases (ltb t.last_used_step step)) [
    | inl later ↦ (
      record t { last_used_step = step },
      rw (row, later) (rw lookup-insert (rw (beq_refl user))),
      omega arith,
      refl,
      refl,
    )
    | inr spent ↦ (t, rw (row, spent) row, ground arith, refl, refl)
  ]

  use_step-stale :
      (db : TotpDb) (user step : ℕ) (t : UserTotp)
      → lookup user db.factors ≡ some t
      → step ≤ t.last_used_step
      → use_step db user step ≡ (db, false)
  unfolding use_step
  use_step-stale db user step t row h = rw row (ground arith)

  -- What a confirmation leaves: the factor is on, its secret is the same, the step is spent and
  -- the recovery codes are as many as were drawn.
  confirm_step_lem :
      (db : TotpDb) (user : ℕ) (codes : List Text) (step : ℕ) (t : UserTotp)
      → lookup user db.factors ≡ some t
      → (t' : UserTotp) × (lookup user
            (confirm_step lib hash_token db user codes (some step)).0.factors
          ≡ some t')
        × (step ≤ t'.last_used_step)
        × (t'.secret ≡ t.secret)
        × (t'.enabled ≡ true)
  unfolding confirm_step enable replace_recovery_codes
  confirm_step_lem db user codes step t row = rw row (
      use_step-later (record db { factors = insert user (record t { enabled = true }) db.factors })
        user step (record t { enabled = true }) (rw lookup-insert (rw (beq_refl user))))

  accept_code-stale :
      (db : TotpDb) (user step : ℕ) (t t' : UserTotp) (code : Text) (later : ℕ)
      → lookup user db.factors ≡ some t'
      → t'.secret ≡ t.secret
      → step ≤ t'.last_used_step
      → match_totp lib t.secret code later ≡ some step
      → accept_code lib hash_token db user t.secret code later ≡ (db, false)
  unfolding accept_code
  accept_code-stale db user step t t' code later row same spent again =
      rw (again, use_step-stale db user step t' row spent) (ground arith)

  -- The code that confirmed an enrollment cannot complete a login: at every later instant at which
  -- it would match the same step, it is refused. The confirmation switched the factor on.
  pub confirm_2fa_no_replay :
      (db : TotpDb) (user : ℕ) (code : Text) (codes : List Text) (now later step : ℕ) (t : UserTotp)
      → get db user ≡ some t
      → match_totp lib t.secret code now ≡ some step
      → match_totp lib t.secret code later ≡ some step
      → let r = confirm_2fa lib hash_token db user code codes now in
        (r.1 ≡ confirmed)
        × (is_enabled (get r.0 user) ≡ true)
        × (accept_code lib hash_token r.0 user t.secret code later ≡ (r.0, false))
  unfolding confirm_2fa get confirm_step
  confirm_2fa_no_replay db user code codes now later step t row first again =
      let (t', row', spent, same, on) = confirm_step_lem db user codes step t row in
      let end = (confirm_step lib hash_token db user codes (some step)).0 in
      rw (row, first)
        (refl, rw row' on, accept_code-stale end user step t t' code later row' same spent again)

  use_step-enabled :
      (db : TotpDb) (user step : ℕ)
      → is_enabled (lookup user (use_step db user step).0.factors)
        ≡ is_enabled (lookup user db.factors)
  use_step-enabled db user step = elim (Option-cases (lookup user db.factors)) [
    | inl absent ↦ unfold use_step in rw absent (rw absent)
    | inr (t, row) ↦
        let (t', row', spent, same, on) = use_step-later db user step t row in rw (row, row') on
  ]

  accept_code-enabled :
      (db : TotpDb) (user : ℕ) (secret code : Text) (now : ℕ)
      → is_enabled (lookup user (accept_code lib hash_token db user secret code now).0.factors)
        ≡ is_enabled (lookup user db.factors)
  unfolding accept_code
  accept_code-enabled db user secret code now =
      elim (Option-cases (match_totp lib secret code now)) [
        | inl unmatched ↦ rw unmatched (ground arith)
        | inr (step, matched) ↦ rw matched (ground (arith, use_step-enabled db user step))
      ]

  verify_second_factor-enabled :
      (db : TotpDb) (user : ℕ) (secret code recovery : Text) (now : ℕ)
      → is_enabled (
          lookup user
            (verify_second_factor lib hash_token db user secret code recovery now).0.factors)
        ≡ is_enabled (lookup user db.factors)
  unfolding verify_second_factor accept_recovery use_recovery_code
  verify_second_factor-enabled db user secret code recovery now =
      ground (arith, accept_code-enabled db user secret code now)

  -- Removing the factor takes a code: where `disable_2fa` ends in anything but its redirect, the
  -- factor is on exactly if it was, and where it redirects, the second factor was verified and the
  -- row is gone.
  pub disable_2fa_guarded :
      (db : TotpDb) (user : ℕ) (code recovery : Text) (now : ℕ)
      → let r = disable_2fa lib hash_token db user code recovery now in
        ((r.1 ≡ redirected)
          × (get r.0 user ≡ none)
          × ((t : UserTotp) × (get db user ≡ some t)
              × ((verify_second_factor lib hash_token db user t.secret code recovery now).1
                  ≡ true)))
        ⊎ ((r.1 ≢ redirected) × (is_enabled (get r.0 user) ≡ is_enabled (get db user)))
  unfolding disable_2fa get disable
  disable_2fa_guarded db user code recovery now = elim (Option-cases (lookup user db.factors)) [
    | inl absent ↦ inr (rw absent (λ e. cc e), rw absent (rw absent))
    | inr (t, row) ↦
        elim (Bool-cases
          (verify_second_factor lib hash_token db user t.secret code recovery now).1) [
            | inl accepted ↦ inl (
              rw (row, accepted) refl,
              rw (row, accepted) (rw lookup-delete (rw (beq_refl user))),
              (t, row, accepted),
            )
            | inr refused ↦ inr (
              rw (row, refused) (λ e. cc e),
              rw (row, refused)
                  (verify_second_factor-enabled db user t.secret code recovery now ∙ rw row),
            )
          ]
  ]
