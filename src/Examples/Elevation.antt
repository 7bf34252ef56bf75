-- ===== src/Examples/Elevation.antt =====
-- Inputs for the theorems on internal/web/elevation.go.
use almanaut.Base.{
  List, String, [], bool_eq, false, list_eq, map, nat_eq, pair_eq, refl, string_eq, true, ℕ, ◌∷◌,
  ◌≡◌,
}
use almanaut.Base.Assoc.{insert, lookup}
use almanaut.Base.Text.{Text, text_of}
use almanaut.Inventory.{Hardware, Host}
use almanaut.Elevation.{Rack, build_elevation_section, placed}
use almanaut.Elevation.Overlaps.{overlap-eq-sharing, sharing}

abbrev rack : Rack
rack = record { id = 3; u_height = 10 }

abbrev server : ℕ → ℕ → Host
server position height = record {
  id = position;
  name = text_of "server";
  type = "vm";
  os = [];
  cpu = [];
  ram = [];
  disk = [];
  status = [];
  ips = [];
  notes = [];
  check_address = [];
  rack_id = 3;
  rack_position = position;
  u_height = height;
}

abbrev servers : List Host
servers = server 1 2 ∷ server 4 3 ∷ record (server 1 9) { rack_id = 8 } ∷ []

abbrev ups : Hardware
ups = record {
  id = 1;
  name = text_of "ups";
  warranty_end = [];
  rack_id = 3;
  rack_position = 6;
  u_height = 8;
}

abbrev no_path : String → ℕ → Text
no_path type id = []

overlap-eq-sharing_example :
    map (λ x. x.overlap) (build_elevation_section no_path rack servers (ups ∷ [])).occupants
    ≡ sharing 10 [] (placed no_path rack servers (ups ∷ []))
overlap-eq-sharing_example = overlap-eq-sharing no_path rack servers (ups ∷ [])

-- The run: the second server and the UPS share unit 6.
flags :
    map (λ x. x.overlap) (build_elevation_section no_path rack servers (ups ∷ [])).occupants
    ≡ false ∷ true ∷ true ∷ []
unfolding build_elevation_section lookup insert
flags = refl
