-- ===== src/Elevation.antt =====
-- internal/web/elevation.go: where the hosts and hardware of a rack stand on its page. Positions and
-- heights are natural numbers, as the forms take them, and paths are a parameter.
pub mod Overlaps
pub mod Rows
use almanaut.Base.{
  Bool, List, Option, String, [], any, bool_eq, if◌then◌else◌, leb, list_eq, ltb, map, nat_eq, none,
  pair_eq, select, some, string_eq, suc, zero, ℕ, ◌&&◌, ◌++◌, ◌+◌, ◌-◌, ◌==◌, ◌||◌, ◌∷◌,
}
use almanaut.Base.Assoc.{Assoc, insert, lookup}
use almanaut.Base.Text.{Text}
use almanaut.Inventory.{Hardware, Host}

-- The fields of domain.Rack that are read.
pub record Rack : Type 0 where
  pub id : ℕ
  pub u_height : ℕ

pub record UnitRow : Type 0 where
  pub u : ℕ
  pub row : ℕ

-- The type `raw`.
pub record Placed : Type 0 where
  pub label : Text
  pub path : Text
  pub pos : ℕ
  pub height : ℕ

pub record Occupant : Type 0 where
  pub label : Text
  pub path : Text
  pub position : ℕ
  pub u_height : ℕ
  pub grid_row_start : ℕ
  pub span : ℕ
  pub out_of_bounds : Bool
  pub overlap : Bool

pub record Section : Type 0 where
  pub u_height : ℕ
  pub units : List UnitRow
  pub occupants : List Occupant

-- From the highest unit down.
unfoldable pub unit_rows : ℕ → ℕ → List UnitRow
unit_rows height zero = []
unit_rows height (suc u) = record { u = u + 1; row = height - (u + 1) + 1 } ∷ unit_rows height u

-- A height below 1 counts as 1.
abbrev pub height_of : Placed → ℕ
height_of o = if ltb o.height 1 then 1 else o.height

abbrev pub top_of : Placed → ℕ
top_of o = o.pos + height_of o - 1

-- The units from `pos` on.
abbrev pub units_from : ℕ → ℕ → List ℕ
units_from pos zero = []
units_from pos (suc n) = pos ∷ units_from (pos + 1) n

abbrev pub units_of : Placed → List ℕ
units_of o = units_from o.pos (height_of o)

abbrev pub is_inside : ℕ → ℕ → Bool
is_inside height u = leb 1 u && leb u height

-- A missing key reads as 0.
abbrev pub or_zero : Option ℕ → ℕ
or_zero none = 0
or_zero (some n) = n

abbrev pub claims_at : Assoc ℕ ℕ → ℕ → ℕ
claims_at claims u = or_zero (lookup u claims)

unfoldable pub claim_units : ℕ → Assoc ℕ ℕ → List ℕ → Assoc ℕ ℕ
claim_units height claims [] = claims
claim_units height claims (u ∷ us) =
    claim_units height
      (if is_inside height u then insert u (claims_at claims u + 1) claims else claims) us

unfoldable pub claim_all : ℕ → Assoc ℕ ℕ → List Placed → Assoc ℕ ℕ
claim_all height claims [] = claims
claim_all height claims (o ∷ occs) = claim_all height (claim_units height claims (units_of o)) occs

unfoldable pub place : ℕ → Assoc ℕ ℕ → Placed → Occupant
place height claims o =
    let top = top_of o in
    let bottom = if ltb o.pos 1 then 1 else o.pos in
    let clamped = if ltb height top then height else top in
    let span = clamped + 1 - bottom in
    record {
      label = o.label;
      path = o.path;
      position = o.pos;
      u_height = o.height;
      grid_row_start = height - clamped + 1;
      span = if ltb span 1 then 1 else span;
      out_of_bounds = ltb o.pos 1 || ltb height top;
      overlap = any (λ u. is_inside height u && ltb 1 (claims_at claims u)) (units_of o);
    }

module _ (path : String → ℕ → Text) where
  abbrev pub placed : Rack → List Host → List Hardware → List Placed
  placed rack hosts hardware =
      map
        (λ h. record {
          label = h.name;
          path = path "host" h.id;
          pos = h.rack_position;
          height = h.u_height;
        })
        (select (λ h. h.rack_id == rack.id) hosts)
      ++ map
          (λ h. record {
            label = h.name;
            path = path "hardware" h.id;
            pos = h.rack_position;
            height = h.u_height;
          })
          (select (λ h. h.rack_id == rack.id) hardware)

  unfoldable pub build_elevation_section : Rack → List Host → List Hardware → Section
  unfolding unit_rows claim_units claim_all place
  build_elevation_section rack hosts hardware =
      let occs = placed rack hosts hardware in
      record {
        u_height = rack.u_height;
        units = unit_rows rack.u_height rack.u_height;
        occupants = map (place rack.u_height (claim_all rack.u_height [] occs)) occs;
      }
