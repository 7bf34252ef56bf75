-- ===== src/Base/Assoc.antt =====
-- Go maps as association lists. A key that is written again keeps its place, and the order of
-- iteration, which Go leaves open, is that of the list.
use mathlib.Core.Logic.{inl, inr}
use mathlib.Core.Path.{◌≡◌, refl}
use mathlib.Core.Bool.{Bool, true, false, ◌&&◌, ◌||◌, not}
use mathlib.Core.Option.{Option, none, some}
use mathlib.Core.List.{List, [], ◌∷◌}
use native.Mathlib.Omega.{arith}
use almanaut.Base.{
  Bool-cases, Eq, ap, beq_refl, bool_eq, if◌then◌else◌, list_eq, nat_eq, pair_eq, string_eq, ◌==◌,
}
use almanaut.Base.Equality.{bool_eq, list_eq, nat_eq, pair_eq, string_eq}

abbrev pub Assoc {ℓ κ} : Type ℓ → Type κ → Type (ℓ ⊔ κ)
Assoc K V = List (K × V)

module _ {ℓ κ} {K : Type ℓ} {V : Type κ} ⦃e : Eq K⦄ where
  unfoldable pub lookup : K → Assoc K V → Option V
  lookup key [] = none
  lookup key ((at, value) ∷ rest) = if at == key then some value else lookup key rest

  unfoldable pub insert : K → V → Assoc K V → Assoc K V
  insert key new [] = (key, new) ∷ []
  insert key new ((at, old) ∷ rest) =
      if at == key then (key, new) ∷ rest else (at, old) ∷ insert key new rest

  unfoldable pub delete : K → Assoc K V → Assoc K V
  delete k [] = []
  delete k ((j, v) ∷ m) = if j == k then delete k m else (j, v) ∷ delete k m

  unfoldable pub has_key : K → Assoc K V → Bool
  has_key k [] = false
  has_key k ((j, v) ∷ m) = j == k || has_key k m

  unfoldable pub keys : Assoc K V → List K
  keys [] = []
  keys ((j, v) ∷ m) = j ∷ keys m

  pub lookup-insert :
      (k j : K) (v : V) (m : Assoc K V)
      → lookup j (insert k v m) ≡ (if k == j then some v else lookup j m)
  unfolding lookup insert
  lookup-insert k j v [] = refl
  lookup-insert k j v ((at, old) ∷ rest) =
      ground (arith, e.equal_iff at k, e.equal_iff at j, e.equal_iff k j, lookup-insert k j v rest)

  pub lookup-delete :
      (k j : K) (m : Assoc K V) → lookup j (delete k m) ≡ (if k == j then none else lookup j m)
  unfolding lookup delete
  lookup-delete k j [] = ground arith
  lookup-delete k j ((i, w) ∷ m) =
      ground (arith, e.equal_iff k j, e.equal_iff i k, e.equal_iff i j, lookup-delete k j m)

  -- A loop over the entries that deletes those that fail a test.
  unfoldable pub retain : (K → V → Bool) → Assoc K V → Assoc K V
  retain p [] = []
  retain p ((j, v) ∷ m) = if p j v then (j, v) ∷ retain p m else retain p m

  unfoldable pub has_unique_keys : Assoc K V → Bool
  has_unique_keys [] = true
  has_unique_keys ((j, v) ∷ m) = not (has_key j m) && has_unique_keys m

  pub has_key-insert :
      (k j : K) (v : V) (m : Assoc K V) → has_key j (insert k v m) ≡ (k == j || has_key j m)
  unfolding has_key insert
  has_key-insert k j v [] = refl
  has_key-insert k j v ((i, w) ∷ m) =
      ground (arith, e.equal_iff k j, e.equal_iff i k, e.equal_iff i j, has_key-insert k j v m)

  pub insert-has_unique_keys :
      (k : K) (v : V) (m : Assoc K V)
      → has_unique_keys m ≡ true
      → has_unique_keys (insert k v m) ≡ true
  unfolding has_unique_keys insert has_key
  insert-has_unique_keys k v [] h = refl
  insert-has_unique_keys k v ((i, w) ∷ m) h = ground (
    arith,
    e.equal_iff i k,
    e.equal_iff k i,
    has_key-insert k i v m,
    insert-has_unique_keys k v m,
  )

  pub has_key-delete :
      (k j : K) (m : Assoc K V) → has_key j (delete k m) ≡ (if k == j then false else has_key j m)
  unfolding has_key delete
  has_key-delete k j [] = ground arith
  has_key-delete k j ((i, w) ∷ m) =
      ground (arith, e.equal_iff k j, e.equal_iff i k, e.equal_iff i j, has_key-delete k j m)

  pub delete-has_unique_keys :
      (k : K) (m : Assoc K V) → has_unique_keys m ≡ true → has_unique_keys (delete k m) ≡ true
  unfolding has_unique_keys delete
  delete-has_unique_keys k [] h = refl
  delete-has_unique_keys k ((i, w) ∷ m) h =
      ground
        (arith, e.equal_iff i k, e.equal_iff k i, has_key-delete k i m, delete-has_unique_keys k m)

  pub has_key-retain_of_false :
      (p : K → V → Bool) (j : K) (m : Assoc K V)
      → has_key j m ≡ false
      → has_key j (retain p m) ≡ false
  unfolding has_key retain
  has_key-retain_of_false p j [] h = refl
  has_key-retain_of_false p j ((i, w) ∷ m) h = ground (arith, has_key-retain_of_false p j m)

  pub retain-has_unique_keys :
      (p : K → V → Bool) (m : Assoc K V)
      → has_unique_keys m ≡ true
      → has_unique_keys (retain p m) ≡ true
  unfolding has_unique_keys retain
  retain-has_unique_keys p [] h = refl
  retain-has_unique_keys p ((i, w) ∷ m) h =
      ground (arith, has_key-retain_of_false p i m, retain-has_unique_keys p m)

  pub lookup-eq-none_of_has_key : (k : K) (m : Assoc K V) → has_key k m ≡ false → lookup k m ≡ none
  unfolding has_key lookup
  lookup-eq-none_of_has_key k [] h = refl
  lookup-eq-none_of_has_key k ((i, w) ∷ m) h = ground (arith, lookup-eq-none_of_has_key k m)

  abbrev pub keep_if : (K → V → Bool) → K → Option V → Option V
  keep_if p k none = none
  keep_if p k (some v) = if p k v then some v else none

  pub lookup-retain :
      (p : K → V → Bool) (k : K) (m : Assoc K V)
      → has_unique_keys m ≡ true
      → lookup k (retain p m) ≡ keep_if p k (lookup k m)
  unfolding has_unique_keys retain lookup
  lookup-retain p k [] h = refl
  lookup-retain p k ((i, w) ∷ m) h = ground (
    arith,
    e.equal_iff i k,
    has_key-retain_of_false p k m,
    lookup-eq-none_of_has_key k (retain p m),
    lookup-retain p k m,
  )

  unfoldable pub map_values : (K → V → V) → Assoc K V → Assoc K V
  map_values f [] = []
  map_values f ((j, v) ∷ m) = (j, f j v) ∷ map_values f m

  unfoldable pub any_value : (K → V → Bool) → Assoc K V → Bool
  any_value p [] = false
  any_value p ((j, v) ∷ m) = p j v || any_value p m

  abbrev pub map_found : (K → V → V) → K → Option V → Option V
  map_found f k none = none
  map_found f k (some v) = some (f k v)

  pub lookup-map_values :
      (f : K → V → V) (k : K) (m : Assoc K V)
      → lookup k (map_values f m) ≡ map_found f k (lookup k m)
  unfolding lookup map_values
  lookup-map_values f k [] = refl
  lookup-map_values f k ((i, w) ∷ m) = ground (arith, e.equal_iff i k, lookup-map_values f k m)

  pub map_values-id : (m : Assoc K V) → map_values (λ k v. v) m ≡ m
  unfolding map_values
  map_values-id [] = refl
  map_values-id ((i, w) ∷ m) = ap (λ rest. (i, w) ∷ rest) (map_values-id m)

  pub has_key-map_values :
      (f : K → V → V) (k : K) (m : Assoc K V) → has_key k (map_values f m) ≡ has_key k m
  unfolding has_key map_values
  has_key-map_values f k [] = refl
  has_key-map_values f k ((i, w) ∷ m) = rw (has_key-map_values f k m)

  pub map_values-has_unique_keys :
      (f : K → V → V) (m : Assoc K V) → has_unique_keys (map_values f m) ≡ has_unique_keys m
  unfolding has_unique_keys map_values
  map_values-has_unique_keys f [] = refl
  map_values-has_unique_keys f ((i, w) ∷ m) =
      rw (has_key-map_values f i m, map_values-has_unique_keys f m)

  -- An entry that a scan finds is the entry under its key.
  pub any_value-found :
      (p : K → V → Bool) (m : Assoc K V)
      → has_unique_keys m ≡ true
      → any_value p m ≡ true
      → (k : K) × (v : V) × (lookup k m ≡ some v) × (p k v ≡ true)
  unfolding has_unique_keys any_value lookup
  any_value-found p [] h a = cc
  any_value-found p ((i, w) ∷ m) h a = elim (Bool-cases (p i w)) [
    | inl here ↦ (i, w, rw (beq_refl i), here)
    | inr there ↦
        let (k, v, found, ok) = any_value-found p m (ground arith) (ground arith) in
        (k, v, ground (arith, e.equal_iff i k, lookup-eq-none_of_has_key i m), ok)
  ]

  pub any_value_of_lookup :
      (p : K → V → Bool) (k : K) (v : V) (m : Assoc K V)
      → lookup k m ≡ some v
      → p k v ≡ true
      → any_value p m ≡ true
  unfolding any_value lookup
  any_value_of_lookup p k v [] h a = cc
  any_value_of_lookup p k v ((i, w) ∷ m) h a =
      ground (arith, e.equal_iff i k, any_value_of_lookup p k v m)

  pub any_value-map_values :
      (p : K → V → Bool) (f : K → V → V) (m : Assoc K V)
      → any_value p (map_values f m) ≡ any_value (λ k v. p k (f k v)) m
  unfolding any_value map_values
  any_value-map_values p f [] = refl
  any_value-map_values p f ((i, w) ∷ m) = rw (any_value-map_values p f m)

  pub lookup-nil : (k : K) → lookup k [] ≡ none
  unfolding lookup
  lookup-nil k = refl
