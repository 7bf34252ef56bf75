-- ===== src/Examples/Login.antt =====
-- Inputs for the theorems on signing in: internal/web/auth.go and totp.go. A token and a password are their
-- own hashes.
use almanaut.Base.Text.{Text, ascii_lower, is_space, text_of, trim_space}
use almanaut.Throttle.{allowed}
use almanaut.Totp.{Primitives, normalize_recovery_code}
use almanaut.Totp.Store.{get, is_redeemable, pending_user, use_recovery_code}
use almanaut.Totp.Factor.{accept_code, accept_recovery, verify_second_factor}
use almanaut.Login.{Reply, Site, forward, safe_next, server_error, session_duration}
use almanaut.Login.Handlers.{login, verify_2fa}
use almanaut.Login.Handlers.Grants.{LoginEarns, login_lem, opens}
use almanaut.Login.Handlers.Factor.{FactorEarns, verify_2fa_lem}
use almanaut.Base.{
  Bool, [], bool_eq, false, list_eq, nat_eq, pair_eq, refl, some, string_eq, true, ℕ, ◌++◌, ◌+◌,
  ◌<◌, ◌==◌, ◌∷◌, ◌≡◌, ◌⊎◌,
}
use almanaut.Base.Assoc.{lookup}

abbrev plain : Primitives
plain = record {
  decode_base32 = λ s. some s;
  hmac_sha1 = λ key message. message ++ key;
  to_upper = λ c. c;
  to_lower = ascii_lower;
}

-- Ann has a password alone, Bob has a second factor too, and a challenge waits for him.
abbrev site : Site
site = record {
  users =
      record { id = 1; username = text_of "ann"; password_hash = text_of "pw" }
      ∷ record { id = 2; username = text_of "bob"; password_hash = text_of "pw" }
      ∷ [];
  sessions = [];
  totp = record {
    factors = (2, record { secret = []; enabled = true; created_at = 0; last_used_step = 0 }) ∷ [];
    recovery = record { user_id = 2; code_hash = text_of "aa"; used = false } ∷ [];
    pending = (text_of "cookie", record { user_id = 2; expires_at = 90 }) ∷ [];
  };
  throttle = record { attempts = []; threshold = 5; cooldown = 900 };
}

abbrev same_text : Text → Text → Bool
same_text a b = a == b

abbrev seconds : ℕ → ℕ
seconds now = now

login_lem_example :
    ((key : Text) (user at : ℕ)
      → opens
          (login plain
            (λ t. t)
            same_text
            (text_of "dummy")
            seconds
            (text_of "ann")
            (text_of "pw")
            (text_of "/hosts")
            (text_of "token")
            10
            site).0.sessions
          key
          user
          at
        ≡ true
      → (opens site.sessions key user at ≡ true)
        ⊎ LoginEarns plain
            (λ t. t)
            same_text
            (text_of "dummy")
            seconds
            (text_of "ann")
            (text_of "pw")
            (text_of "token")
            10
            site
            key
            user)
    × ((user at : ℕ)
        → LoginEarns plain
            (λ t. t)
            same_text
            (text_of "dummy")
            seconds
            (text_of "ann")
            (text_of "pw")
            (text_of "token")
            10
            site
            (text_of "token")
            user
        → at < 10 + session_duration
        → ((login plain
              (λ t. t)
              same_text
              (text_of "dummy")
              seconds
              (text_of "ann")
              (text_of "pw")
              (text_of "/hosts")
              (text_of "token")
              10
              site).1
            ≡ forward (safe_next (text_of "/hosts")))
          × (opens
                (login plain
                  (λ t. t)
                  same_text
                  (text_of "dummy")
                  seconds
                  (text_of "ann")
                  (text_of "pw")
                  (text_of "/hosts")
                  (text_of "token")
                  10
                  site).0.sessions
                (text_of "token")
                user
                at
              ≡ true))
login_lem_example =
    login_lem plain (λ t. t) same_text (text_of "dummy") seconds (text_of "ann") (text_of "pw")
      (text_of "/hosts") (text_of "token") 10 site refl

-- Bob answers with a recovery code.
abbrev answered : Site × Reply
answered =
    verify_2fa plain (λ t. t) same_text (text_of "dummy") seconds (text_of "cookie") []
      (text_of "AA") (text_of "//evil") (text_of "token") 20 20 site

answered_opens : opens answered.0.sessions (text_of "token") 2 50 ≡ true
unfolding verify_2fa lookup pending_user allowed get verify_second_factor accept_code
    accept_recovery use_recovery_code is_redeemable normalize_recovery_code trim_space is_space
    ascii_lower
answered_opens = refl

verify_2fa_lem_example :
    ((key : Text) (user at : ℕ)
      → opens answered.0.sessions key user at ≡ true
      → (opens site.sessions key user at ≡ true)
        ⊎ FactorEarns plain
            (λ t. t)
            same_text
            (text_of "dummy")
            seconds
            (text_of "cookie")
            []
            (text_of "AA")
            (text_of "token")
            20
            20
            site
            answered.0
            key
            user)
    × ((user at : ℕ)
        → (text_of "cookie" == []) ≡ false
        → FactorEarns plain
            (λ t. t)
            same_text
            (text_of "dummy")
            seconds
            (text_of "cookie")
            []
            (text_of "AA")
            (text_of "token")
            20
            20
            site
            answered.0
            (text_of "token")
            user
        → at < 20 + session_duration
        → (answered.1 ≡ forward (safe_next (text_of "//evil")))
          × (opens answered.0.sessions (text_of "token") user at ≡ true))
verify_2fa_lem_example =
    verify_2fa_lem plain (λ t. t) same_text (text_of "dummy") seconds (text_of "cookie") []
      (text_of "AA") (text_of "//evil") (text_of "token") 20 20 site

-- Another site is no place to go on to.
forwarded : answered.1 ≡ forward (text_of "/")
unfolding verify_2fa lookup pending_user allowed get verify_second_factor accept_code
    accept_recovery use_recovery_code is_redeemable normalize_recovery_code trim_space is_space
    ascii_lower
forwarded = refl

-- The password that stands for an unknown user gets past the test, and the session is refused only by
-- its foreign key.
stand_in :
    (login plain
      (λ t. t)
      same_text
      (text_of "dummy")
      seconds
      (text_of "eve")
      (text_of "dummy")
      []
      (text_of "token")
      10
      site).1
    ≡ server_error
unfolding login lookup allowed trim_space is_space get
stand_in = refl
