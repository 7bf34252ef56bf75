-- ===== src/Webhooks/Admin.antt =====
-- internal/web/webhooks_admin.go: the forms that register, edit, toggle and delete an endpoint. A
-- refused request changes nothing. The pages, and ids that are no number, are left out; the secret
-- comes from the random generator, which may fail.
use almanaut.Base.{
  Bool, List, Option, [], bool_eq, contains, false, if◌then◌else◌, list_eq, map, nat_eq, none, not,
  pair_eq, some, string_eq, true, ℕ, ◌&&◌, ◌==◌, ◌∷◌,
}
use almanaut.Base.Text.{Text, text_of, trim_space}
use almanaut.Base.Result.{Result, err, ok, refuse_if, ◌>>=◌, ◌>>◌}
use almanaut.Webhooks.{Webhook, WebhookRepo, create, delete_row, get, update}

pub record Form : Type 0 where
  pub url : Text
  pub entity_types : List Text
  pub events : List Text

pub data WebhookFault : Type 0 where
  url_required url_scheme missing no_secret : WebhookFault

-- `EntityTypes` of internal/domain/relationship.go
abbrev pub entity_types : List Text
entity_types = map text_of (
    "host" ∷ "service" ∷ "network" ∷ "domain" ∷ "certificate" ∷ "backup" ∷ "hardware"
    ∷ "subscription" ∷ "account" ∷ "site" ∷ "location" ∷ "rack" ∷ "contact" ∷ "vlan" ∷ "reservation"
    ∷ "nic" ∷ "port" ∷ [])

abbrev pub all_webhook_events : List Text
all_webhook_events = map text_of ("created" ∷ "updated" ∷ "deleted" ∷ [])

-- The loop of `filterAllowed`, with the values it has kept so far.
unfoldable pub allowed_values : List Text → List Text → List Text → List Text
allowed_values allowed seen [] = []
allowed_values allowed seen (v ∷ values) =
    let is_kept = contains allowed v && not (contains seen v) in
    let rest = allowed_values allowed (if is_kept then v ∷ seen else seen) values in
    if is_kept then v ∷ rest else rest

unfoldable pub filter_allowed : List Text → List Text → List Text
filter_allowed values allowed = allowed_values allowed [] values

-- `strings.HasPrefix(s, prefix)`
abbrev pub has_prefix : Text → Text → Bool
has_prefix s [] = true
has_prefix [] (c ∷ prefix) = false
has_prefix (d ∷ s) (c ∷ prefix) = d == c && has_prefix s prefix

unfoldable pub parse_webhook_form : Form → Result WebhookFault Form
parse_webhook_form form = do
  let url = trim_space form.url
  refuse_if (url == []) url_required
  refuse_if (not (has_prefix url (text_of "http://")) && not (has_prefix url (text_of "https://")))
      url_scheme
  ok (record {
    url = url;
    entity_types = filter_allowed form.entity_types entity_types;
    events = filter_allowed form.events all_webhook_events;
  })

abbrev pub or_fault : {A : Type 0} → WebhookFault → Option A → Result WebhookFault A
or_fault fault none = err fault
or_fault fault (some a) = ok a

abbrev pub registered : Text → Text → Form → Webhook
registered secret now form = record {
  id = 0;
  url = form.url;
  secret = secret;
  enabled = true;
  entity_types = form.entity_types;
  events = form.events;
  created_at = now;
}

unfoldable pub create_webhook :
    Option Text → Text → Form → WebhookRepo → Result WebhookFault WebhookRepo
create_webhook drawn now form r = do
  checked ← parse_webhook_form form
  secret ← or_fault no_secret drawn
  ok (create (registered secret now checked) r).0

abbrev pub edited : Form → Webhook → Webhook
edited form w = record w { url = form.url; entity_types = form.entity_types; events = form.events }

unfoldable pub update_webhook : ℕ → Form → WebhookRepo → Result WebhookFault WebhookRepo
update_webhook id form r = do
  w ← or_fault missing (get r id)
  checked ← parse_webhook_form form
  or_fault missing (update (edited checked w) r)

abbrev pub toggled : Webhook → Webhook
toggled w = record w { enabled = not w.enabled }

unfoldable pub toggle_webhook : ℕ → WebhookRepo → Result WebhookFault WebhookRepo
toggle_webhook id r = do w ← or_fault missing (get r id); or_fault missing (update (toggled w) r)

unfoldable pub delete_webhook : ℕ → WebhookRepo → Result WebhookFault WebhookRepo
delete_webhook id r = ok (delete_row id r)

pub data Request : Type 0 where
  creation : (drawn : Option Text) (now : Text) (form : Form) → Request
  edit : (id : ℕ) (form : Form) → Request
  toggle : (id : ℕ) → Request
  deletion : (id : ℕ) → Request

-- The four handlers.
unfoldable pub serve : Request → WebhookRepo → Result WebhookFault WebhookRepo
serve (creation drawn now form) r = create_webhook drawn now form r
serve (edit id form) r = update_webhook id form r
serve (toggle id) r = toggle_webhook id r
serve (deletion id) r = delete_webhook id r

-- The table after a request, and what the request was answered.
abbrev pub settle : {A : Type 0} → A → Result WebhookFault A → A × Option WebhookFault
settle before (err fault) = (before, some fault)
settle before (ok after) = (after, none)

unfoldable pub serve_all : List Request → WebhookRepo → WebhookRepo × List (Option WebhookFault)
serve_all [] r = (r, [])
serve_all (request ∷ requests) r =
    let here = settle r (serve request r) in
    let later = serve_all requests here.0 in (later.0, here.1 ∷ later.1)
