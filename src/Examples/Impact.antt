-- ===== src/Examples/Impact.antt =====
-- Inputs for the theorem on internal/store/impact.go.
use almanaut.Base.{
  List, String, [], arith, bool_eq, contains, is_nodup, list_eq, nat_eq, pair_eq, refl, some,
  string_eq, true, ℕ, ◌↔◌, ◌∷◌, ◌≡◌, ◌≢◌,
}
use almanaut.Base.Assoc.{insert, lookup}
use almanaut.Inventory.{EntityRef, Relationship}
use almanaut.Impact.{impact}
use almanaut.Impact.Reach.{DependsOn, impact_lem}

abbrev link : String → ℕ → String → ℕ → String → Relationship
link from_type from_id to_type to_id kind = record {
  id = 0;
  from_type = from_type;
  from_id = from_id;
  to_type = to_type;
  to_id = to_id;
  kind = kind;
}

-- Services 1 and 2 run on host 1 and depend on each other; the backup does not count.
abbrev links : List Relationship
links =
    link "service" 1 "host" 1 "runs on"
    ∷ link "service" 2 "service" 1 "depends on"
    ∷ link "service" 1 "service" 2 "depends on"
    ∷ link "host" 1 "backup" 1 "backed up by"
    ∷ link "service" 2 "host" 1 "runs on"
    ∷ []

impact_lem_example :
    (result : List EntityRef) × (impact 6 links ("host", 1) ≡ some result)
    × (is_nodup result ≡ true)
    × ((k : EntityRef)
        → (contains result k ≡ true) ↔ (DependsOn links ("host", 1) k × (k ≢ ("host", 1))))
impact_lem_example = impact_lem links ("host", 1) 6 (omega arith)

runs : impact 6 links ("host", 1) ≡ some (("service", 1) ∷ ("service", 2) ∷ [])
unfolding impact lookup insert
runs = refl
