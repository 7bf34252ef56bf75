-- ===== src/Elevation/Overlaps.antt =====
-- Which occupants internal/web/elevation.go flags as overlapping.
use almanaut.Base.{
  Bool, Bool-cases, List, String, [], any, arith, bool_eq, false, if◌then◌else◌, inl, inr, leb,
  length, list_eq, ltb, map, nat_eq, pair_eq, refl, select, string_eq, suc, true, zero, ℕ, ◌&&◌,
  ◌+◌, ◌<◌, ◌==◌, ◌||◌, ◌∙◌, ◌∷◌, ◌≡◌, ◌≤◌,
}
use almanaut.Base.Assoc.{Assoc, insert, lookup-insert, lookup-nil}
use almanaut.Inventory.{Hardware, Host}
use almanaut.Base.Text.{Text}
use almanaut.Elevation.{
  Placed, Rack, build_elevation_section, claim_all, claim_units, claims_at, height_of, is_inside,
  place, placed, top_of, units_from, units_of,
}

abbrev occurrences : ℕ → List ℕ → ℕ
occurrences u us = length (select (λ v. v == u) us)

abbrev pub to_ℕ : Bool → ℕ
to_ℕ true = 1
to_ℕ false = 0

claim_units-at :
    (height : ℕ) (claims : Assoc ℕ ℕ) (us : List ℕ) (u : ℕ)
    → is_inside height u ≡ true
    → claims_at (claim_units height claims us) u ≡ claims_at claims u + occurrences u us
unfolding claim_units
claim_units-at height claims [] u h = omega arith
claim_units-at height claims (v ∷ us) u h =
    rw
      (claim_units-at height
        (if is_inside height v then insert v (claims_at claims v + 1) claims else claims) us u h)
      (ground (arith, lookup-insert v u (claims_at claims v + 1) claims))

-- The occupant takes up the unit.
abbrev pub covers : ℕ → Placed → Bool
covers u o = leb o.pos u && leb u (top_of o)

occurrences-units_from :
    (u pos n : ℕ) → occurrences u (units_from pos n) ≡ to_ℕ (leb pos u && ltb u (pos + n))
occurrences-units_from u pos zero = ground arith
occurrences-units_from u pos (suc n) = ground (arith, occurrences-units_from u (pos + 1) n)

occurrences-units_of : (u : ℕ) (o : Placed) → occurrences u (units_of o) ≡ to_ℕ (covers u o)
occurrences-units_of u o = ground (arith, occurrences-units_from u o.pos (height_of o))

claim_all-at :
    (height : ℕ) (claims : Assoc ℕ ℕ) (occs : List Placed) (u : ℕ)
    → is_inside height u ≡ true
    → claims_at (claim_all height claims occs) u
      ≡ claims_at claims u + length (select (covers u) occs)
unfolding claim_all
claim_all-at height claims [] u h = omega arith
claim_all-at height claims (o ∷ occs) u h =
    rw
      (
        claim_all-at height (claim_units height claims (units_of o)) occs u h,
        claim_units-at height claims (units_of o) u h,
        occurrences-units_of u o,
      )
      (ground arith)

-- Whether each occupant shares a unit of the rack with another, one before it (`front`) or after it.
abbrev pub sharing : ℕ → List Placed → List Placed → List Bool
sharing height front [] = []
sharing height front (o ∷ back) =
    any (λ u. is_inside height u && (any (covers u) front || any (covers u) back)) (units_of o)
    ∷ sharing height (o ∷ front) back

abbrev claimants : ℕ → List Placed → ℕ
claimants u occs = length (select (covers u) occs)

any-claimants : (u : ℕ) (occs : List Placed) → any (covers u) occs ≡ ltb 0 (claimants u occs)
any-claimants u [] = ground arith
any-claimants u (o ∷ occs) = ground (arith, any-claimants u occs)

any_units :
    (p q : ℕ → Bool) (pos n : ℕ)
    → ((u : ℕ) → pos ≤ u → u < pos + n → p u ≡ q u)
    → any p (units_from pos n) ≡ any q (units_from pos n)
any_units p q pos zero h = refl
any_units p q pos (suc n) h = rw (
  h pos (omega arith) (omega arith),
  any_units p q (pos + 1) n λ u low high. h u (omega arith) (omega arith),
)

shares_unit :
    (height : ℕ) (claims : Assoc ℕ ℕ) (front back : List Placed) (o : Placed) (u : ℕ)
    → (is_inside height u ≡ true → claims_at claims u ≡ claimants u front + claimants u (o ∷ back))
    → covers u o ≡ true
    → (is_inside height u && ltb 1 (claims_at claims u))
      ≡ (is_inside height u && (any (covers u) front || any (covers u) back))
shares_unit height claims front back o u counted here = elim (Bool-cases (is_inside height u)) [
  | inl inside ↦
      rw (inside, counted inside, here, any-claimants u front, any-claimants u back) (ground arith)
  | inr outside ↦ rw outside
]

flags-sharing :
    (height : ℕ) (claims : Assoc ℕ ℕ) (front back : List Placed)
    → ((u : ℕ)
        → is_inside height u ≡ true
        → claims_at claims u ≡ claimants u front + claimants u back)
    → map (λ x. x.overlap) (map (place height claims) back) ≡ sharing height front back
unfolding place
flags-sharing height claims front [] h = refl
flags-sharing height claims front (o ∷ back) h = rw (
  any_units (λ u. is_inside height u && ltb 1 (claims_at claims u))
      (λ u. is_inside height u && (any (covers u) front || any (covers u) back)) o.pos (height_of o)
      (λ u low high. shares_unit height claims front back o u (h u) (ground arith)),
  flags-sharing height claims (o ∷ front) back λ u inside. ground (arith, h u inside),
)

-- An occupant is flagged as overlapping exactly if it shares a unit of the rack with another occupant.
-- Units outside the rack do not count.
pub overlap-eq-sharing :
    (path : String → ℕ → Text) (rack : Rack) (hosts : List Host) (hardware : List Hardware)
    → map (λ x. x.overlap) (build_elevation_section path rack hosts hardware).occupants
      ≡ sharing rack.u_height [] (placed path rack hosts hardware)
unfolding build_elevation_section
overlap-eq-sharing path rack hosts hardware =
    let occs = placed path rack hosts hardware in
    flags-sharing rack.u_height (claim_all rack.u_height [] occs) [] occs
      λ u inside. claim_all-at rack.u_height [] occs u inside ∙ rw (lookup-nil {V = ℕ} u)
