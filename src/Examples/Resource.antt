-- ===== src/Examples/Resource.antt =====
-- Inputs for the theorems on internal/web/resource.go, internal/web/bulk.go and internal/domain/changelog.go.
use almanaut.Base.{
  All, List, Option, [], any, bool_eq, if◌then◌else◌, length, list_eq, nat_eq, none, not, pair_eq,
  refl, some, string_eq, true, ℕ, ◌++◌, ◌==◌, ◌∷◌, ◌≡◌,
}
use almanaut.Base.Assoc.{Assoc, delete, has_key, insert, keys, lookup, map_values, retain}
use almanaut.Base.Sort.{IsSortedBy, sort_by}
use almanaut.Base.Text.{Text, ascii_lower, is_space, text_lt, text_of, trim_space}
use almanaut.Resource.{
  Answer, Event, FieldChange, Kind, Session, Tables, Tag, Value, failed, new_tag, not_found,
  null_value, redirected, scalar_value, text_value, without_entity,
}
use almanaut.Resource.Diff.{diff_maps}
use almanaut.Resource.Bulk.{bulk}
use almanaut.Resource.Changes.{diff_maps_lem, differs, shown}
use almanaut.Resource.History.{AnnouncedAs, bulk-AnnouncedAs}
use almanaut.Resource.Selection.{Deletes, bulk-Deletes}

-- An entity with an id and a name, whose JSON text is the id in front of the name.
abbrev Site : Type 0
Site = ℕ × Text

abbrev marshal_site : Site → Option Text
marshal_site s = some (s.0 ∷ s.1)

abbrev fields_of : Text → Option (Assoc Text (Value ℕ))
fields_of [] = none
fields_of (id ∷ name) =
    some ((text_of "id", scalar_value id) ∷ (text_of "name", text_value name) ∷ [])

abbrev name_in : Option (Value ℕ) → Text
name_in (some (text_value t)) = t
name_in other = []

abbrev site_of : Text → Option Site
site_of [] = none
site_of (id ∷ name) = some (id, name)

abbrev sites : Kind Site ℕ
sites = record {
  sing = "site";
  new_item = (0, []);
  id_of = λ s. s.0;
  with_id = λ id s. (id, s.1);
  label = λ s. s.1;
  is_valid = λ s. not (s.1 == []);
  accepts = λ rows id s. true;
  on_delete = λ deleted id s. s;
  marshal = marshal_site;
  decode = fields_of;
  encode = λ m. some (0 ∷ name_in (lookup (text_of "name") m));
  unmarshal = site_of;
  format_scalar = λ n. n ∷ [];
  to_lower = ascii_lower;
}

abbrev tables : Tables Site
tables = record {
  rows = (1, (1, text_of "north")) ∷ (2, (2, text_of "south")) ∷ (3, (3, text_of "west")) ∷ [];
  next_id = 4;
  relationships =
      record {
        id = 1;
        from_type = "host";
        from_id = 8;
        to_type = "site";
        to_id = 2;
        kind = "depends on";
      }
      ∷ [];
  tags = new_tag ("site", 2) (text_of "cold") ∷ new_tag ("site", 3) (text_of "cold") ∷ [];
  journal = [];
  attachments = [];
  custom_values = ((("site", 1), 5), text_of "x") ∷ [];
  changelog = [];
}

abbrev actor : Text
actor = text_of "ann"

bulk-Deletes_example :
    (after : Session Site) × (bulk sites "delete" (1 ∷ 2 ∷ []) [] [] [] actor [] tables
      ≡ (after.tables, after.events, redirected))
    × Deletes sites actor [] (1 ∷ 2 ∷ []) (record { tables = tables; events = [] }) after
unfolding lookup
bulk-Deletes_example = (bulk-Deletes sites actor [] (1 ∷ 2 ∷ []) [] [] [] tables).0 refl

bulk-AnnouncedAs_example :
    AnnouncedAs sites tables
      (bulk sites "set-field" (1 ∷ 3 ∷ []) [] (text_of "name") (text_of "east") actor [] tables)
bulk-AnnouncedAs_example =
    bulk-AnnouncedAs sites "set-field" (1 ∷ 3 ∷ []) [] (text_of "name") (text_of "east") actor []
      tables refl refl

-- Of two renamings, the one that changes nothing is not announced.
abbrev dispatched : Tables Site × List Event × Answer → ℕ
dispatched (after, events, answer) = length events

renames :
    dispatched
      (bulk sites "set-field" (1 ∷ 3 ∷ []) [] (text_of "name") (text_of "west") actor [] tables)
    ≡ 1
unfolding bulk lookup insert sort_by has_key keys trim_space is_space diff_maps
renames = refl

-- An id that is given twice fails the deletion.
repeated :
    bulk sites "delete" (1 ∷ 1 ∷ []) [] [] [] actor [] tables ≡ (tables, [], failed not_found)
unfolding bulk lookup delete retain without_entity map_values
repeated = refl

-- A kind whose rows name a peer, which they forget when it is deleted.
abbrev links : Kind Site ℕ
links = record sites { on_delete = λ deleted id s. if s.1 == deleted ∷ [] then (s.0, []) else s }

abbrev rows_after : Tables Site × List Event × Answer → Assoc ℕ Site
rows_after (after, events, answer) = after.rows

forgets_peers :
    rows_after (
      bulk links "delete" (2 ∷ 1 ∷ []) [] [] [] actor [] (record tables {
        rows = (1, (1, 2 ∷ [])) ∷ (2, (2, 1 ∷ [])) ∷ (3, (3, 1 ∷ [])) ∷ (4, (4, 5 ∷ [])) ∷ [];
      }))
    ≡ (3, (3, [])) ∷ (4, (4, 5 ∷ [])) ∷ []
unfolding bulk lookup delete retain without_entity map_values
forgets_peers = refl

-- The tag is stored in lower case and without its mark.
abbrev tags_after : Tables Site × List Event × Answer → List Tag
tags_after (after, events, answer) = after.tags

tagged :
    tags_after (bulk sites "tag-add" (1 ∷ []) (text_of "#Warm") [] [] actor [] tables)
    ≡ tables.tags ++ new_tag ("site", 1) (text_of "warm") ∷ []
unfolding bulk lookup trim_space is_space ascii_lower
tagged = refl

abbrev before : Assoc Text (Value ℕ)
before = (text_of "id", scalar_value 7) ∷ (text_of "notes", null_value) ∷ []

abbrev later : Assoc Text (Value ℕ)
later = (text_of "name", text_value (text_of "a")) ∷ []

diff_maps_lem_example :
    IsSortedBy (λ (a b : FieldChange). text_lt a.field b.field) (diff_maps sites before later)
    × All
        (λ c. (c.old ≡ shown sites before c.field) × (c.updated ≡ shown sites later c.field))
        (diff_maps sites before later)
    × ((f : Text)
        → any (λ c. c.field == f) (diff_maps sites before later) ≡ differs sites before later f)
diff_maps_lem_example = diff_maps_lem sites before later
