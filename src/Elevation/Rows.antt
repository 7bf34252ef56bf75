-- ===== src/Elevation/Rows.antt =====
-- The rows of the page's grid that internal/web/elevation.go gives an occupant.
use almanaut.Base.{
  All, List, String, [], arith, bool_eq, false, if◌then◌else◌, list_eq, ltb, map, nat_eq, pair_eq,
  string_eq, ℕ, ◌+◌, ◌-◌, ◌∷◌, ◌≡◌, ◌≤◌,
}
use almanaut.Base.Text.{Text}
use almanaut.Inventory.{Hardware, Host}
use almanaut.Base.Assoc.{Assoc}
use almanaut.Elevation.{Occupant, Placed, Rack, build_elevation_section, claim_all, place, placed}

-- The row that the unit rail gives a unit.
abbrev pub row_of : ℕ → ℕ → ℕ
row_of height u = height - u + 1

-- The grid area is a nonempty one, and for an occupant that is not flagged it reaches from the row of
-- its highest unit to the row of its lowest, all of them rows of the rack.
abbrev pub HasItsRows : ℕ → Occupant → Type 0
HasItsRows height x =
    (1 ≤ x.grid_row_start)
    × (1 ≤ x.span)
    × (x.out_of_bounds ≡ false
        → let tall = if ltb x.u_height 1 then 1 else x.u_height in
          (x.grid_row_start ≡ row_of height (x.position + tall - 1))
          × (x.grid_row_start + x.span ≡ row_of height x.position + 1)
          × (x.span ≡ tall)
          × (x.grid_row_start + x.span ≤ height + 1))

place-HasItsRows :
    (height : ℕ) (claims : Assoc ℕ ℕ) (o : Placed) → HasItsRows height (place height claims o)
unfolding place
place-HasItsRows height claims o =
    (ground arith, ground arith, λ inside. (ground arith, ground arith, ground arith, ground arith))

map-All {ℓ} :
    {A B : Type 0} (P : B → Type ℓ) (f : A → B) (xs : List A)
    → ((a : A) → P (f a))
    → All P (map f xs)
map-All P f [] h = tt
map-All P f (x ∷ xs) h = (h x, map-All P f xs h)

-- Every occupant of a rack's page gets at least one row, and an occupant that is not flagged as out
-- of bounds gets just the rows that the rail gives its units, none of them outside the rack.
build_elevation_section-HasItsRows :
    (path : String → ℕ → Text) (rack : Rack) (hosts : List Host) (hardware : List Hardware)
    → All (HasItsRows rack.u_height) (build_elevation_section path rack hosts hardware).occupants
unfolding build_elevation_section
build_elevation_section-HasItsRows path rack hosts hardware =
    let occs = placed path rack hosts hardware in
    map-All (HasItsRows rack.u_height) _ occs
      (place-HasItsRows rack.u_height (claim_all rack.u_height [] occs))
