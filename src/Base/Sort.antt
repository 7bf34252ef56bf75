-- ===== src/Base/Sort.antt =====
-- `sort.Slice` and `sort.SliceStable`, as an insertion sort that keeps equal elements in order. For
-- the unstable one this is one of the orders that Go may give.
use native.Mathlib.Omega.{arith}
use almanaut.Base.Lists.{All, any}
use almanaut.Base.Tests.{Bool-cases, if◌then◌else◌}
use mathlib.Core.Path.{◌≡◌, refl}
use mathlib.Core.Logic.{inl, inr}
use mathlib.Core.Bool.{Bool, ◌||◌, true, false}
use mathlib.Core.List.{List, [], ◌∷◌, Perm}
use mathlib.Core.List.Perm

module _ {ℓ} {A : Type ℓ} where
  -- Before the first element that is greater.
  unfoldable pub insert_by : (A → A → Bool) → A → List A → List A
  insert_by less a [] = a ∷ []
  insert_by less a (x ∷ xs) = if less x a then x ∷ insert_by less a xs else a ∷ x ∷ xs

  -- From the right, so that an element comes before the equal ones that stood behind it.
  unfoldable pub sort_by : (A → A → Bool) → List A → List A
  unfolding insert_by
  sort_by less [] = []
  sort_by less (x ∷ xs) = insert_by less x (sort_by less xs)

  insert_by-perm : (less : A → A → Bool) (a : A) (xs : List A) → Perm (insert_by less a xs) (a ∷ xs)
  unfolding insert_by
  insert_by-perm less a [] = Perm.refl (a ∷ [])
  insert_by-perm less a (x ∷ xs) = elim (Bool-cases (less x a)) [
    | inl before ↦
        rw before (Perm.trans (Perm.cons x (insert_by-perm less a xs)) (Perm.swap a x xs))
    | inr after ↦ rw after (Perm.refl (a ∷ x ∷ xs))
  ]

  pub sort_by-perm : (less : A → A → Bool) (xs : List A) → Perm (sort_by less xs) xs
  unfolding sort_by
  sort_by-perm less [] = Perm.refl []
  sort_by-perm less (x ∷ xs) =
      Perm.trans (insert_by-perm less x (sort_by less xs)) (Perm.cons x (sort_by-perm less xs))

  abbrev StartsAbove : (A → A → Bool) → A → List A → Type 0
  StartsAbove less x [] = Unit
  StartsAbove less x (y ∷ ys) = less y x ≡ false

  -- No element is less than the one in front of it.
  abbrev pub IsSortedBy : (A → A → Bool) → List A → Type 0
  IsSortedBy less [] = Unit
  IsSortedBy less (x ∷ xs) = StartsAbove less x xs × IsSortedBy less xs

  insert_by-sorted :
      (less : A → A → Bool) (a : A) (xs : List A)
      → ((x y : A) → less x y ≡ true → less y x ≡ false)
      → IsSortedBy less xs
      → IsSortedBy less (insert_by less a xs)
  unfolding insert_by
  insert_by-sorted less a [] asym h = (tt, tt)
  insert_by-sorted less a (x ∷ xs) asym h = elim (Bool-cases (less x a)) [
    | inl before ↦
        rw before (above x a xs (asym x a before) h.0, insert_by-sorted less a xs asym h.1)
    | inr after ↦ rw after (after, h)
  ]
    where
      above :
          (x a : A) (xs : List A)
          → less a x ≡ false
          → StartsAbove less x xs
          → StartsAbove less x (insert_by less a xs)
      above x a [] p q = p
      above x a (y ∷ ys) p q = elim (Bool-cases (less y a)) [ inl b ↦ rw b q | inr c ↦ rw c p ]

  pub sort_by-sorted :
      (less : A → A → Bool) (xs : List A)
      → ((x y : A) → less x y ≡ true → less y x ≡ false)
      → IsSortedBy less (sort_by less xs)
  unfolding sort_by
  sort_by-sorted less [] asym = tt
  sort_by-sorted less (x ∷ xs) asym =
      insert_by-sorted less x (sort_by less xs) asym (sort_by-sorted less xs asym)

  insert_by-All {κ} :
      (P : A → Type κ) (less : A → A → Bool) (a : A) (xs : List A)
      → P a
      → All P xs
      → All P (insert_by less a xs)
  unfolding insert_by
  insert_by-All P less a [] p h = (p, tt)
  insert_by-All P less a (x ∷ xs) p h = elim (Bool-cases (less x a)) [
    | inl before ↦ rw before (h.0, insert_by-All P less a xs p h.1)
    | inr after ↦ rw after (p, h)
  ]

  pub sort_by-All {κ} :
      (P : A → Type κ) (less : A → A → Bool) (xs : List A) → All P xs → All P (sort_by less xs)
  unfolding sort_by
  sort_by-All P less [] h = tt
  sort_by-All P less (x ∷ xs) h =
      insert_by-All P less x (sort_by less xs) h.0 (sort_by-All P less xs h.1)

  insert_by-any :
      (q : A → Bool) (less : A → A → Bool) (a : A) (xs : List A)
      → any q (insert_by less a xs) ≡ (q a || any q xs)
  unfolding insert_by
  insert_by-any q less a [] = refl
  insert_by-any q less a (x ∷ xs) = ground (arith, insert_by-any q less a xs)

  pub sort_by-any :
      (q : A → Bool) (less : A → A → Bool) (xs : List A) → any q (sort_by less xs) ≡ any q xs
  unfolding sort_by
  sort_by-any q less [] = refl
  sort_by-any q less (x ∷ xs) = rw (insert_by-any q less x (sort_by less xs), sort_by-any q less xs)
