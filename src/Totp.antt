-- ===== src/Totp.antt =====
-- internal/domain/totp.go: one-time codes. Instants are Unix seconds from 30 on, so that the step
-- before an instant is a number; base32, HMAC-SHA1 and `unicode.ToUpper` are Go's library.
pub mod Codes
pub mod Store
pub mod Factor
use mathlib.Core.Option
use almanaut.Base.{
  Bool, List, Option, [], bool_eq, get_or, if◌then◌else◌, is_some, length, list_eq, map, nat_eq,
  none, not, pair_eq, select, some, string_eq, suc, zero, ℕ, ◌%◌, ◌&&◌, ◌*◌, ◌++◌, ◌+◌, ◌-◌, ◌/◌,
  ◌==◌, ◌^◌, ◌∷◌,
}
use almanaut.Base.Text.{Text, trim_space}

-- The parts of Go's library that the codes rest on.
pub record Primitives : Type 0 where
  -- `base32.StdEncoding.WithPadding(base32.NoPadding).DecodeString`
  pub decode_base32 : Text → Option (List ℕ)
  -- `hmac.New(sha1.New, key)` over one message.
  pub hmac_sha1 : List ℕ → List ℕ → List ℕ
  -- `unicode.ToUpper` and `unicode.ToLower`
  pub to_upper : ℕ → ℕ
  pub to_lower : ℕ → ℕ

abbrev pub totp_digits : ℕ
totp_digits = 6

abbrev pub totp_period : ℕ
totp_period = 30

-- The `n` lowest decimal digits, most significant first: `%0*d` of a number below `10 ^ n`.
unfoldable pub zero_padded : ℕ → ℕ → Text
zero_padded zero value = []
zero_padded (suc n) value = zero_padded n (value / 10) ++ (48 + value % 10) ∷ []

-- `binary.BigEndian.PutUint64`
unfoldable pub big_endian : ℕ → ℕ → List ℕ
big_endian zero value = []
big_endian (suc n) value = big_endian n (value / 256) ++ (value % 256) ∷ []

unfoldable pub pow10 : ℕ → ℕ
pow10 zero = 1
pow10 (suc n) = pow10 n * 10 % 2 ^ 32

-- Four bytes from `offset`, the sign bit off. The shifted bytes do not overlap, so `|` is a sum.
unfoldable pub truncate : List ℕ → ℕ → ℕ
truncate sum offset =
    (get_or sum offset 0 % 128) * 2 ^ 24
    + get_or sum (offset + 1) 0 * 2 ^ 16
    + get_or sum (offset + 2) 0 * 2 ^ 8
    + get_or sum (offset + 3) 0

-- One round of the loop over the skews, with what the later rounds give. An error ends the loop.
abbrev pub try_step : Option Text → Text → ℕ → Option ℕ → Option ℕ
try_step none code step later = none
try_step (some want) code step later = if want == code then some step else later

module _ (lib : Primitives) where
  unfoldable pub hotp : List ℕ → ℕ → Text
  unfolding zero_padded big_endian truncate pow10
  hotp key counter =
      let sum = lib.hmac_sha1 key (big_endian 8 counter) in
      let offset = get_or sum (length sum - 1) 0 % 16 in
      zero_padded totp_digits (truncate sum offset % pow10 totp_digits)

  -- `none` for a secret that is not base32.
  unfoldable pub totp_code : Text → ℕ → Option Text
  unfolding hotp
  totp_code secret t =
      Option.map (λ key. hotp key (t / totp_period))
        (lib.decode_base32 (map lib.to_upper (trim_space secret)))

  unfoldable pub match_steps : Text → Text → List ℕ → Option ℕ
  match_steps secret code [] = none
  match_steps secret code (step ∷ steps) =
      try_step (totp_code secret (step * totp_period)) code step (match_steps secret code steps)

  -- The step that the code matches: this one, the one before or the one after.
  unfoldable pub match_totp : Text → Text → ℕ → Option ℕ
  match_totp secret code now =
      let code = trim_space code in
      let counter = now / totp_period in
      if not (length code == totp_digits)
      then none
      else match_steps secret code (counter ∷ (counter - 1) ∷ (counter + 1) ∷ [])

  unfoldable pub verify_totp : Text → Text → ℕ → Bool
  unfolding match_totp
  verify_totp secret code now = is_some (match_totp secret code now)

-- `NormalizeRecoveryCode`
unfoldable pub normalize_recovery_code : (ℕ → ℕ) → Text → Text
normalize_recovery_code to_lower s =
    map to_lower (select (λ c. not (c == b'-') && not (c == 32)) (trim_space s))
