-- ===== src/Examples/Kuma.antt =====
-- Inputs for the theorems on internal/kuma.
use almanaut.Base.{
  List, Option, [], bool_eq, false, list_eq, ltb, nat_eq, none, pair_eq, refl, some, string_eq,
  true, ℕ, ◌+◌, ◌↔◌, ◌∷◌, ◌≡◌, ◌⊎◌,
}
use almanaut.Base.Assoc.{Assoc, delete, has_key, insert, lookup, retain}
use almanaut.Base.Sort.{sort_by}
use almanaut.Base.Text.{Text, text_of}
use almanaut.Inventory.{Service}
use almanaut.Kuma.{
  Fate, Mapping, Monitor, add_call, delete_call, desire, edit_call, is_monitorable, new_monitor,
  perform, perform_all, plan, reconcile,
}
use almanaut.Kuma.Plan.{in_sync, plan-nil}
use almanaut.Kuma.Rows.{adds, reconcile-rows}
use almanaut.Kuma.Confined.{reconcile-touches_known, touches_known}

abbrev site : ℕ → Text → Service
site id url = record { id = id; name = text_of "site"; url = url; check_address = [] }

-- A text that is not empty is a URL.
abbrev parse : Text → Option (Text × Text)
parse [] = none
parse (c ∷ s) = some (text_of "http", c ∷ s)

-- Service 1 has its monitor, 2 has none yet, 3 has no URL.
abbrev sites : List Service
sites = site 1 (text_of "http://a") ∷ site 2 (text_of "http://b") ∷ site 3 [] ∷ []

abbrev rows : Mapping
rows = (1, 10) ∷ (7, 11) ∷ []

-- Monitor 12 is not managed.
abbrev monitors : Assoc ℕ Monitor
monitors =
    (10, record { id = 10; name = text_of "old"; url = text_of "http://a"; raw = text_of "x" })
    ∷ (11, new_monitor (text_of "gone") (text_of "http://g"))
    ∷ (12, new_monitor (text_of "other") (text_of "http://o"))
    ∷ []

-- The third action's row cannot be written.
abbrev fate : ℕ → Fate
fate n = record {
  ended = false;
  added = some (20 + n);
  succeeds = true;
  writes = ltb n 2;
  cleans_up = true;
}

reconcile-touches_known_example :
    touches_known (10 ∷ 11 ∷ []) (reconcile parse fate sites rows monitors).1 ≡ true
reconcile-touches_known_example = reconcile-touches_known parse fate sites rows monitors

plan-nil_example :
    ((plan parse sites rows monitors).0 ≡ [])
    ↔ (in_sync (desire parse sites []) rows monitors ≡ true)
plan-nil_example = plan-nil parse sites rows monitors

abbrev good_day : ℕ → Fate
good_day n = record (fate n) { writes = true }

added : lookup 2 (reconcile parse good_day sites rows monitors).0.mapping ≡ some 22
unfolding reconcile plan desire perform_all perform sort_by lookup insert retain has_key
    is_monitorable delete
added = refl

reconcile-rows_example :
    (lookup 2 rows ≡ some 22) ⊎ (adds 22 (reconcile parse good_day sites rows monitors).1 ≡ true)
reconcile-rows_example = reconcile-rows parse good_day sites rows monitors 2 22 added

-- The run: an edit, a deletion, and a creation that is taken back.
runs :
    (reconcile parse fate sites rows monitors).1
    ≡ edit_call
        (record { id = 10; name = text_of "site"; url = text_of "http://a"; raw = text_of "x" })
        true
      ∷ delete_call 11 true
      ∷ add_call (new_monitor (text_of "site") (text_of "http://b")) (some 22)
      ∷ delete_call 22 true
      ∷ []
unfolding reconcile plan desire perform_all perform sort_by lookup insert retain has_key
    is_monitorable
runs = refl
