-- ===== src/Webhooks.antt =====
-- internal/domain/webhook.go and internal/store/webhook_repo.go: the registered endpoints and the table
-- that holds them. Row ids are natural numbers. Failures of the database are left out.
pub mod Filters
pub mod Admin
pub mod ReadBack
pub mod Registry
pub mod Queue
use almanaut.Base.{
  Bool, List, Option, [], bool_eq, contains, false, if◌then◌else◌, list_eq, ltb, nat_eq, none, not,
  pair_eq, some, string_eq, true, ℕ, ◌&&◌, ◌++◌, ◌+◌, ◌==◌, ◌||◌, ◌∷◌,
}
use almanaut.Base.Assoc.{Assoc, delete, insert, lookup, retain}
use almanaut.Base.Sort.{sort_by}
use almanaut.Base.Text.{Text, trim_space}

pub record Webhook : Type 0 where
  pub id : ℕ
  pub url : Text
  pub secret : Text
  pub enabled : Bool
  pub entity_types : List Text
  pub events : List Text
  pub created_at : Text

-- `Matches`: an empty filter lets everything through.
abbrev pub matches : Webhook → Text → Text → Bool
matches w entity_type action =
    (w.entity_types == [] || contains w.entity_types entity_type)
    && (w.events == [] || contains w.events action)

-- `strings.Join(items, ",")`
unfoldable pub wh_join : List Text → Text
wh_join [] = []
wh_join (item ∷ []) = item
wh_join (item ∷ next ∷ items) = item ++ 44 ∷ wh_join (next ∷ items)

abbrev pub glue : ℕ → List Text → List Text
glue c [] = (c ∷ []) ∷ []
glue c (part ∷ parts) = (c ∷ part) ∷ parts

-- `strings.Split(s, ",")`
unfoldable pub split_commas : Text → List Text
split_commas [] = [] ∷ []
split_commas (c ∷ s) = let parts = split_commas s in if c == 44 then [] ∷ parts else glue c parts

-- The loop of `whSplit`.
unfoldable pub trimmed_parts : List Text → List Text
trimmed_parts [] = []
trimmed_parts (part ∷ parts) =
    let item = trim_space part in
    if item == [] then trimmed_parts parts else item ∷ trimmed_parts parts

unfoldable pub wh_split : Text → List Text
wh_split stored =
    let s = trim_space stored in if s == [] then [] else trimmed_parts (split_commas s)

pub record WebhookRow : Type 0 where
  pub url : Text
  pub secret : Text
  pub enabled : ℕ
  pub entity_types : Text
  pub events : Text
  pub created_at : Text

pub record WebhookRepo : Type 0 where
  pub rows : Assoc ℕ WebhookRow
  -- The next id of the AUTOINCREMENT column.
  pub next_id : ℕ

abbrev pub bool_to_int : Bool → ℕ
bool_to_int true = 1
bool_to_int false = 0

abbrev pub scan_webhook : ℕ → WebhookRow → Webhook
scan_webhook id row = record {
  id = id;
  url = row.url;
  secret = row.secret;
  enabled = not (row.enabled == 0);
  entity_types = wh_split row.entity_types;
  events = wh_split row.events;
  created_at = row.created_at;
}

abbrev pub new_row : Webhook → WebhookRow
new_row w = record {
  url = w.url;
  secret = w.secret;
  enabled = bool_to_int w.enabled;
  entity_types = wh_join w.entity_types;
  events = wh_join w.events;
  created_at = w.created_at;
}

unfoldable pub create : Webhook → WebhookRepo → WebhookRepo × ℕ
create w r =
    (record { rows = insert r.next_id (new_row w) r.rows; next_id = r.next_id + 1 }, r.next_id)

abbrev pub scan_found : ℕ → Option WebhookRow → Option Webhook
scan_found id none = none
scan_found id (some row) = some (scan_webhook id row)

-- `none` is ErrNotFound.
unfoldable pub get : WebhookRepo → ℕ → Option Webhook
get r id = scan_found id (lookup id r.rows)

-- The columns that the statement sets.
abbrev pub updated_row : Webhook → WebhookRow → WebhookRow
updated_row w row = record row {
  url = w.url;
  secret = w.secret;
  enabled = bool_to_int w.enabled;
  entity_types = wh_join w.entity_types;
  events = wh_join w.events;
}

abbrev pub update_found : Webhook → WebhookRepo → Option WebhookRow → Option WebhookRepo
update_found w r none = none
update_found w r (some row) = some (record r { rows = insert w.id (updated_row w row) r.rows })

-- `none` is ErrNotFound, with nothing written.
unfoldable pub update : Webhook → WebhookRepo → Option WebhookRepo
update w r = update_found w r (lookup w.id r.rows)

unfoldable pub delete_row : ℕ → WebhookRepo → WebhookRepo
delete_row id r = record r { rows = delete id r.rows }

abbrev scan_rows : Assoc ℕ WebhookRow → List Webhook
scan_rows [] = []
scan_rows ((id, row) ∷ rows) = scan_webhook id row ∷ scan_rows rows

-- ORDER BY id
unfoldable pub list_webhooks : WebhookRepo → List Webhook
list_webhooks r = sort_by (λ a b. ltb a.id b.id) (scan_rows r.rows)

-- WHERE enabled = 1
unfoldable pub list_enabled : WebhookRepo → List Webhook
list_enabled r =
    sort_by (λ a b. ltb a.id b.id) (scan_rows (retain (λ id row. row.enabled == 1) r.rows))
