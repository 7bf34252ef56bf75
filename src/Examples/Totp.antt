-- ===== src/Examples/Totp.antt =====
-- Inputs for the theorems on one-time codes. Base32 reads as itself and the digest is the message
-- and the key, one after the other, so that the code of a step is the step.
use almanaut.Base.{
  [], bool_eq, false, list_eq, nat_eq, none, pair_eq, refl, some, string_eq, true, ℕ, ◌++◌, ◌∷◌,
  ◌≡◌, ◌≢◌, ◌⊎◌,
}
use almanaut.Base.Text.{Text, ascii_lower, is_space, text_of, trim_left, trim_space}
use almanaut.Base.Assoc.{insert, lookup}
use almanaut.Totp.{
  Primitives, big_endian, hotp, match_steps, match_totp, totp_code, truncate, zero_padded,
}
use almanaut.Totp.Store.{TotpDb, UserTotp, get, use_recovery_code, use_step}
use almanaut.Totp.Store.SingleUse.{Rises, present, present-Rises, use_recovery_code_once}
use almanaut.Totp.Factor.{
  Outcome, accept_code, confirm_2fa, confirmed, disable_2fa, redirected, verify_second_factor,
}
use almanaut.Totp.Factor.Guard.{confirm_2fa_no_replay, disable_2fa_guarded, is_enabled}

abbrev plain : Primitives
plain = record {
  decode_base32 = λ s. some s;
  hmac_sha1 = λ key message. message ++ key;
  to_upper = λ c. c;
  to_lower = ascii_lower;
}

abbrev secret : Text
secret = text_of "JBSWY3DPEHPD"

abbrev two : Text
two = text_of "000002"

shown : totp_code plain secret 60 ≡ some two
unfolding totp_code hotp trim_space trim_left is_space zero_padded big_endian truncate
shown = refl

matched : match_totp plain secret (text_of " 000002") 95 ≡ some 2
unfolding match_totp match_steps totp_code hotp trim_space trim_left is_space
matched = refl

-- User 7 is enrolling, user 8 has a factor.
abbrev db : TotpDb
db = record {
  factors =
      (7, record { secret = secret; enabled = false; created_at = 40; last_used_step = 0 })
      ∷ (8, record { secret = secret; enabled = true; created_at = 30; last_used_step = 1 })
      ∷ [];
  recovery =
      record { user_id = 8; code_hash = text_of "aa"; used = false }
      ∷ record { user_id = 8; code_hash = text_of "bb"; used = false }
      ∷ [];
  pending = [];
}

present-Rises_example : Rises 1 (present db 8 (5 ∷ 5 ∷ 4 ∷ 1 ∷ 6 ∷ [])).1
unfolding lookup
present-Rises_example = present-Rises db 8 (5 ∷ 5 ∷ 4 ∷ 1 ∷ 6 ∷ [])

use_recovery_code_once_example :
    ((use_recovery_code (use_recovery_code db 8 (text_of "aa")).0 8 (text_of "aa")).1 ≡ false)
    × ((other : ℕ) (h : Text)
        → (other ≢ 8) ⊎ (h ≢ text_of "aa")
        → (use_recovery_code (use_recovery_code db 8 (text_of "aa")).0 other h).1
          ≡ (use_recovery_code db other h).1)
use_recovery_code_once_example = use_recovery_code_once db 8 (text_of "aa")

abbrev enrolling_row : UserTotp
enrolling_row = record { secret = secret; enabled = false; created_at = 40; last_used_step = 0 }

row_7 : get db 7 ≡ some enrolling_row
unfolding get lookup
row_7 = refl

matched_at : (match_totp plain secret two 65 ≡ some 2) × (match_totp plain secret two 90 ≡ some 2)
unfolding match_totp match_steps totp_code hotp trim_space trim_left is_space
matched_at = (refl, refl)

abbrev confirmed_db : TotpDb × Outcome
confirmed_db = confirm_2fa plain (λ s. s) db 7 two (text_of "cc" ∷ []) 65

confirm_2fa_no_replay_example :
    (confirmed_db.1 ≡ confirmed)
    × (is_enabled (get confirmed_db.0 7) ≡ true)
    × (accept_code plain (λ s. s) confirmed_db.0 7 secret two 90 ≡ (confirmed_db.0, false))
confirm_2fa_no_replay_example =
    confirm_2fa_no_replay plain (λ s. s) db 7 two (text_of "cc" ∷ []) 65 90 2 enrolling_row row_7
      matched_at.0 matched_at.1

abbrev removed : TotpDb × Outcome
removed = disable_2fa plain (λ s. s) db 8 two [] 65

disable_2fa_guarded_example :
    ((removed.1 ≡ redirected)
      × (get removed.0 8 ≡ none)
      × ((t : UserTotp) × (get db 8 ≡ some t)
          × ((verify_second_factor plain (λ s. s) db 8 t.secret two [] 65).1 ≡ true)))
    ⊎ ((removed.1 ≢ redirected) × (is_enabled (get removed.0 8) ≡ is_enabled (get db 8)))
disable_2fa_guarded_example = disable_2fa_guarded plain (λ s. s) db 8 two [] 65

-- A spent step is refused, and a fresh one removes the factor.
removes : removed.1 ≡ redirected
unfolding disable_2fa verify_second_factor accept_code use_step match_totp match_steps totp_code
    hotp get trim_space trim_left is_space lookup insert
removes = refl
