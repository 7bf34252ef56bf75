-- ===== src/Totp/Codes.antt =====
-- What the one-time codes of internal/domain/totp.go look like, and when one is accepted.
use mathlib.Core.List.{reverse, reverse-reverse, reverse-cons}
use native.Mathlib.Nat.{pow-suc}
use almanaut.Base.{
  All, Bool-cases, List, Option, Option-cases, [], ap, arith, bool_eq, contains, get_or, inl, inr,
  is_some, length, length-append, list_beq_iff, list_eq, map, nat_eq, none, pair_eq, refl, some,
  string_eq, suc, sym, true, zero, ℕ, ◌%◌, ◌*◌, ◌++◌, ◌+◌, ◌-◌, ◌/◌, ◌<◌, ◌==◌, ◌^◌, ◌∙◌, ◌∷◌, ◌≡◌,
  ◌≤◌,
}
use almanaut.Base.Text.{Text, is_space, trim_left, trim_space}
use almanaut.Totp.{
  Primitives, big_endian, hotp, match_steps, match_totp, totp_code, totp_period, truncate,
  verify_totp, zero_padded,
}

abbrev pub IsDigit : ℕ → Type 0
IsDigit c = (48 ≤ c) × (c ≤ 57)

All-append {ℓ κ} :
    {A : Type ℓ} (P : A → Type κ) (front back : List A)
    → All P front × All P back
    → All P (front ++ back)
All-append P [] back (nothing, h) = h
All-append P (a ∷ front) back ((here, there), h) = (here, All-append P front back (there, h))

zero_padded-All : (n value : ℕ) → All IsDigit (zero_padded n value)
unfolding zero_padded
zero_padded-All zero value = tt
zero_padded-All (suc n) value =
    All-append IsDigit _ (_ ∷ []) (zero_padded-All n (value / 10), (omega arith, tt))

length-zero_padded : (n value : ℕ) → length (zero_padded n value) ≡ n
unfolding zero_padded
length-zero_padded zero value = refl
length-zero_padded (suc n) value =
    rw length-append (omega (arith, length-zero_padded n (value / 10)))

-- The number that a text of digits stands for.
abbrev pub number_of : ℕ → Text → ℕ
number_of acc [] = acc
number_of acc (c ∷ s) = number_of (acc * 10 + (c - 48)) s

number_of-append : (acc : ℕ) (s t : Text) → number_of acc (s ++ t) ≡ number_of (number_of acc s) t
number_of-append acc [] t = refl
number_of-append acc (c ∷ s) t = number_of-append (acc * 10 + (c - 48)) s t

number_of-zero_padded : (n value : ℕ) → value < 10 ^ n → number_of 0 (zero_padded n value) ≡ value
unfolding zero_padded
number_of-zero_padded zero value h = omega arith
number_of-zero_padded (suc n) value h =
    let fits : value / 10 < 10 ^ n = omega (arith, pow-suc 10 n) in
    rw (number_of-append, number_of-zero_padded n (value / 10) fits) (omega arith)

module _ (lib : Primitives) where
  hotp-eq :
      (key : List ℕ) (counter : ℕ)
      → hotp lib key counter ≡ (
          let sum = lib.hmac_sha1 key (big_endian 8 counter) in
          zero_padded 6 (truncate sum (get_or sum (length sum - 1) 0 % 16) % 1000000))
  unfolding hotp
  hotp-eq key counter = refl

  -- A code has exactly six characters, all of them digits, and read as a number it is the
  -- truncated digest modulo a million.
  hotp-number :
      (key : List ℕ) (counter : ℕ)
      → let sum = lib.hmac_sha1 key (big_endian 8 counter) in
        (length (hotp lib key counter) ≡ 6)
        × All IsDigit (hotp lib key counter)
        × (number_of 0 (hotp lib key counter)
            ≡ truncate sum (get_or sum (length sum - 1) 0 % 16) % 1000000)
  hotp-number key counter =
      rw (hotp-eq key counter)
        (length-zero_padded 6 _, zero_padded-All 6 _, number_of-zero_padded 6 _ (omega arith))

  abbrev secret_key : Text → Option (List ℕ)
  secret_key secret = lib.decode_base32 (map lib.to_upper (trim_space secret))

  totp_code-some :
      (secret : Text) (t : ℕ) (key : List ℕ)
      → secret_key secret ≡ some key
      → totp_code lib secret t ≡ some (hotp lib key (t / totp_period))
  unfolding totp_code
  totp_code-some secret t key h = rw h

  totp_code-none :
      (secret : Text) (t : ℕ) → secret_key secret ≡ none → totp_code lib secret t ≡ none
  unfolding totp_code
  totp_code-none secret t h = rw h

  totp_code-key :
      (secret : Text) (t : ℕ) (c : Text)
      → totp_code lib secret t ≡ some c
      → (key : List ℕ) × (secret_key secret ≡ some key) × (c ≡ hotp lib key (t / totp_period))
  totp_code-key secret t c h = elim (Option-cases (secret_key secret)) [
    | inl bad ↦ absurd (cc (h, totp_code-none secret t bad))
    | inr (key, good) ↦ (key, good, cc (h, totp_code-some secret t key good))
  ]

  -- The given code is the one of a step.
  abbrev pub Matches : Text → Text → ℕ → Type 0
  Matches secret code step = totp_code lib secret (step * totp_period) ≡ some code

  match_steps_sound :
      (secret code : Text) (steps : List ℕ) {step : ℕ}
      → match_steps lib secret code steps ≡ some step
      → (contains steps step ≡ true) × Matches secret code step
  unfolding match_steps
  match_steps_sound secret code [] h = absurd (cc h)
  match_steps_sound secret code (s ∷ steps) {step} h =
      elim (Option-cases (totp_code lib secret (s * totp_period))) [
        | inl bad ↦ absurd (ground arith)
        | inr (want, good) ↦ elim (Bool-cases (want == code)) [
          | inl same ↦ ground (arith, list_beq_iff want code)
          | inr other ↦ ground (arith, match_steps_sound secret code steps {step = step})
        ]
      ]

  match_steps_complete :
      (secret code : Text) (steps : List ℕ) (step : ℕ)
      → contains steps step ≡ true
      → Matches secret code step
      → is_some (match_steps lib secret code steps) ≡ true
  unfolding match_steps
  match_steps_complete secret code [] step there m = absurd (cc there)
  match_steps_complete secret code (s ∷ steps) step there m =
      let (key, good, eq) = totp_code-key secret (step * totp_period) code m in
      let tried = hotp lib key (s * totp_period / totp_period) in
      elim (Bool-cases (tried == code)) [
        | inl same ↦ rw (totp_code-some secret (s * totp_period) key good, same)
        | inr other ↦
            rw (totp_code-some secret (s * totp_period) key good, other)
              (match_steps_complete secret code steps step
                (ground (
                  arith,
                  list_beq_iff tried code,
                  totp_code-some secret (s * totp_period) key good,
                ))
                m)
      ]

  window : ℕ → List ℕ
  window now = let counter = now / totp_period in counter ∷ (counter - 1) ∷ (counter + 1) ∷ []

  window-contains :
      (now step : ℕ)
      → now / totp_period ≤ step + 1
      → step ≤ now / totp_period + 1
      → contains (window now) step ≡ true
  unfolding window
  window-contains now step low high = ground arith

  contains-window :
      (now step : ℕ)
      → 30 ≤ now
      → contains (window now) step ≡ true
      → (now / 30 ≤ step + 1) × (step ≤ now / 30 + 1)
  unfolding window
  contains-window now step late near = (ground arith, ground arith)

  -- A code is accepted only for a step at most one away from the present one whose code it is.
  match_totp_sound :
      (secret code : Text) (now : ℕ) {step : ℕ}
      → 30 ≤ now
      → match_totp lib secret code now ≡ some step
      → (now / 30 ≤ step + 1) × (step ≤ now / 30 + 1) × Matches secret (trim_space code) step
  unfolding match_totp window
  match_totp_sound secret code now {step} late h =
      let (near, matches) =
        match_steps_sound secret (trim_space code) (window now) {step = step} (ground arith) in
      let (low, high) = contains-window now step late near in (low, high, matches)

  step_start : (t : ℕ) → t / totp_period * totp_period / totp_period ≡ t / totp_period
  step_start t = omega arith

  trim_left_digits : (s : Text) → All IsDigit s → trim_left s ≡ s
  unfolding trim_left is_space
  trim_left_digits [] h = refl
  trim_left_digits (c ∷ s) h = ground arith

  reverse-All : (s : Text) → All IsDigit s → All IsDigit (reverse s)
  reverse-All [] h = tt
  reverse-All (c ∷ s) h =
      rw (reverse-cons c s) (All-append IsDigit (reverse s) (c ∷ []) (reverse-All s h.1, (h.0, tt)))

  trim_space_digits : (s : Text) → All IsDigit s → trim_space s ≡ s
  unfolding trim_space
  trim_space_digits s h =
      rw (trim_left_digits s h, trim_left_digits (reverse s) (reverse-All s h)) (reverse-reverse s)

  -- The code that an authenticator shows at an instant is accepted at every instant of the same
  -- step, of the step before and of the step after.
  pub verify_totp-totp_code :
      (secret code : Text) (shown now : ℕ)
      → totp_code lib secret shown ≡ some code
      → now / 30 ≤ shown / 30 + 1
      → shown / 30 ≤ now / 30 + 1
      → verify_totp lib secret code now ≡ true
  unfolding verify_totp match_totp window
  verify_totp-totp_code secret code shown now h low high =
      let (key, good, eq) = totp_code-key secret shown code h in
      let (six, digits, number) = hotp-number key (shown / totp_period) in
      let bare : trim_space code ≡ code = trim_space_digits code (rw eq digits) in
      let whole : length code ≡ 6 = rw eq six in
      let step_code : Matches secret code (shown / totp_period) =
        totp_code-some secret (shown / totp_period * totp_period) key good
        ∙ sym (ap some (rw (← step_start shown) at eq)) in
      rw (bare, whole)
        (match_steps_complete secret code (window now) (shown / totp_period)
          (window-contains now (shown / totp_period) low high) step_code)
