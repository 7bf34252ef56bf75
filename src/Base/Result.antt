-- ===== src/Base/Result.antt =====
-- A Go function's `(value, error)`: a value, or an error of the model's own type.
use mathlib.Core.Path.{◌≡◌, refl}
use mathlib.Core.Logic.{◌⊎◌, inl, inr}
use mathlib.Core.Bool.{Bool, true, false}

pub data Result (E A : Type 0) : Type 0 where
  ok : A → Result E A
  err : E → Result E A

-- `if cond { return err }`
abbrev pub refuse_if : {E : Type 0} → Bool → E → Result E (Unit {0})
refuse_if true e = err e
refuse_if false e = ok tt

-- After a call that returned an error nothing else runs.
infixl 5 ◌>>=◌
abbrev pub ◌>>=◌ : {E A B : Type 0} → Result E A → (A → Result E B) → Result E B
err problem >>= next = err problem
ok value >>= next = next value

-- A test has no value of its own.
infixl 5 ◌>>◌
abbrev pub ◌>>◌ : {E B : Type 0} → Result E (Unit {0}) → Result E B → Result E B
err problem >> next = err problem
ok tt >> next = next

-- What a call returns has this property, if it returns no error.
unfoldable pub Returns : {E A : Type 0} → (A → Type 0) → Result E A → Type 0
Returns P (err problem) = Unit
Returns P (ok value) = P value

pub then-Returns :
    {E B : Type 0} (P : B → Type 0) (test : Result E (Unit {0})) (next : Result E B)
    → Returns P next
    → Returns P (test >> next)
unfolding Returns
then-Returns P (err problem) next h = tt
then-Returns P (ok value) next h = h

module _ {E A B : Type 0} (P : B → Type 0) where
  pub bind-Returns :
      (Q : A → Type 0) (call : Result E A) (next : A → Result E B)
      → Returns Q call
      → ((value : A) → Q value → Returns P (next value))
      → Returns P (call >>= next)
  unfolding Returns
  bind-Returns Q (err problem) next h step = tt
  bind-Returns Q (ok value) next h step = step value h

  pub bind-Returns_any :
      (call : Result E A) (next : A → Result E B)
      → ((value : A) → Returns P (next value))
      → Returns P (call >>= next)
  unfolding Returns
  bind-Returns_any (err problem) next step = tt
  bind-Returns_any (ok value) next step = step value

pub ok-Returns : (E : Type 0) {A : Type 0} (P : A → Type 0) (a : A) → P a → Returns {E = E} P (ok a)
unfolding Returns
ok-Returns E P a h = h

pub weaken-Returns :
    {E A : Type 0} (P Q : A → Type 0) (call : Result E A)
    → Returns P call
    → ((a : A) → P a → Q a)
    → Returns Q call
unfolding Returns
weaken-Returns P Q (err problem) h weaken = tt
weaken-Returns P Q (ok a) h weaken = weaken a h

pub Result-cases :
    {E A : Type 0} (call : Result E A) → ((e : E) × (call ≡ err e)) ⊎ ((a : A) × (call ≡ ok a))
Result-cases (err e) = inl (e, refl)
Result-cases (ok a) = inr (a, refl)
