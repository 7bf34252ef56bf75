-- ===== src/Webhooks/ReadBack.antt =====
-- What internal/store/webhook_repo.go reads back after each of its statements, when the endpoints come
-- from the forms of internal/web/webhooks_admin.go.
use mathlib.Core.Path.{subst}
use almanaut.Base.{
  Bool, Bool-cases, List, Option, Option-cases, [], ap, arith, beq_refl, bool_eq, contains, false,
  if◌then◌else◌, inl, inr, list_beq_iff, list_eq, nat_beq_iff, nat_eq, none, not, pair_eq, refl,
  some, string_eq, sym, true, ℕ, ◌&&◌, ◌==◌, ◌∙◌, ◌∷◌, ◌≡◌,
}
use almanaut.Base.Text.{Text, is_space, trim_left, trim_space}
use almanaut.Base.Result.{Returns, ok, ok-Returns, then-Returns}
use almanaut.Base.Assoc.{Assoc, insert, lookup, lookup-delete, lookup-insert}
use almanaut.Webhooks.{
  Webhook, WebhookRepo, WebhookRow, bool_to_int, create, delete_row, get, new_row, scan_found,
  scan_webhook, update, updated_row,
}
use almanaut.Webhooks.Filters.{are_clean, is_clean, wh_split-wh_join}
use almanaut.Webhooks.Filters.Read.{wh_split-are_clean}
use almanaut.Webhooks.Admin.{
  Form, all_webhook_events, allowed_values, entity_types, filter_allowed, parse_webhook_form,
}

contains-is_clean :
    (allowed : List Text) (v : Text)
    → contains allowed v ≡ true
    → are_clean allowed ≡ true
    → is_clean v ≡ true
contains-is_clean [] v h a = cc
contains-is_clean (word ∷ allowed) v h a = elim (Bool-cases (word == v)) [
  | inl here ↦ subst (λ t. is_clean t ≡ true) ((list_beq_iff word v).0 here) (ground arith)
  | inr there ↦ contains-is_clean allowed v (ground arith) (ground arith)
]

allowed_values-are_clean :
    (allowed seen values : List Text)
    → are_clean allowed ≡ true
    → are_clean (allowed_values allowed seen values) ≡ true
unfolding allowed_values
allowed_values-are_clean allowed seen [] h = refl
allowed_values-are_clean allowed seen (v ∷ values) h =
    elim (Bool-cases (contains allowed v && not (contains seen v))) [
      | inl keeps ↦
          let clean : is_clean v ≡ true = contains-is_clean allowed v (ground arith) h in
          rw keeps (rw clean (allowed_values-are_clean allowed (v ∷ seen) values h))
      | inr drops ↦ rw drops (allowed_values-are_clean allowed seen values h)
    ]

abbrev pub HasCleanFilters : List Text → List Text → Type 0
HasCleanFilters types events = (are_clean types ≡ true) × (are_clean events ≡ true)

entity_types-are_clean : are_clean entity_types ≡ true
unfolding trim_space trim_left is_space
entity_types-are_clean = refl

all_webhook_events-are_clean : are_clean all_webhook_events ≡ true
unfolding trim_space trim_left is_space
all_webhook_events-are_clean = refl

-- What the form lets through has clean filters.
parse_webhook_form-clean :
    (form : Form)
    → Returns
        (λ checked. HasCleanFilters checked.entity_types checked.events)
        (parse_webhook_form form)
unfolding parse_webhook_form filter_allowed
parse_webhook_form-clean form = then-Returns _ _ _ (
    then-Returns _ _ _ (
      ok-Returns _ _ _ (
        allowed_values-are_clean entity_types [] form.entity_types entity_types-are_clean,
        allowed_values-are_clean all_webhook_events [] form.events all_webhook_events-are_clean,
      )))

flag_read : (b : Bool) → not (bool_to_int b == 0) ≡ b
flag_read true = refl
flag_read false = refl

-- A row that is written from an endpoint with clean filters reads back as that endpoint.
scan-new_row :
    (w : Webhook) (id : ℕ)
    → HasCleanFilters w.entity_types w.events
    → scan_webhook id (new_row w) ≡ record w { id = id }
scan-new_row w id clean =
    rw
      (
        wh_split-wh_join w.entity_types clean.0,
        wh_split-wh_join w.events clean.1,
        flag_read w.enabled,
      )
      refl

scan_found-insert :
    (id k : ℕ) (row : WebhookRow) (rows : Assoc ℕ WebhookRow)
    → scan_found k (lookup k (insert id row rows))
      ≡ (if k == id then some (scan_webhook id row) else scan_found k (lookup k rows))
scan_found-insert id k row rows = rw (lookup-insert id k row rows) (elim (Bool-cases (k == id)) [
  | inl here ↦ let e : k ≡ id = (nat_beq_iff k id).0 here in rw (e, beq_refl id) refl
  | inr other ↦ let flipped : (id == k) ≡ false = ground arith in rw (other, flipped) refl
])

pub get-create :
    (w : Webhook) (r : WebhookRepo) (k : ℕ)
    → HasCleanFilters w.entity_types w.events
    → get (create w r).0 k
      ≡ (if k == r.next_id then some (record w { id = r.next_id }) else get r k)
unfolding get create
get-create w r k clean =
    rw (scan_found-insert r.next_id k (new_row w) r.rows, scan-new_row w r.next_id clean) refl

-- What a row that is read as `w` holds besides the columns that an update sets.
found_row :
    (id : ℕ) (o : Option WebhookRow) (w : Webhook)
    → scan_found id o ≡ some w
    → (row : WebhookRow) × (o ≡ some row) × (row.created_at ≡ w.created_at)
found_row id none w h = cc
found_row id (some row) w h =
    let head : scan_webhook id row ≡ w = cc in (row, refl, ap (λ (x : Webhook). x.created_at) head)

-- The table after an endpoint that was read from it is written back with other values.
pub get-update :
    (w new : Webhook) (r : WebhookRepo)
    → get r new.id ≡ some w
    → new.created_at ≡ w.created_at
    → HasCleanFilters new.entity_types new.events
    → (after : WebhookRepo) × (update new r ≡ some after)
      × (after.next_id ≡ r.next_id)
      × ((k : ℕ) → get after k ≡ (if k == new.id then some new else get r k))
unfolding get update
get-update w new r found kept clean =
    let (row, stored, dated) = found_row new.id (lookup new.id r.rows) w found in
    (
      record r { rows = insert new.id (updated_row new row) r.rows },
      rw stored refl,
      refl,
      λ k.
          let same : updated_row new row ≡ new_row new = rw (dated ∙ sym kept) refl in
          rw
            (
              scan_found-insert new.id k (updated_row new row) r.rows,
              same,
              scan-new_row new new.id clean,
            )
            refl,
    )

pub get-delete_row :
    (r : WebhookRepo) (id k : ℕ) → get (delete_row id r) k ≡ (if k == id then none else get r k)
unfolding get delete_row
get-delete_row r id k = rw (lookup-delete id k r.rows) (ground arith)

-- What is read has the id it was asked for, and clean filters.
pub get_lem :
    (r : WebhookRepo) (id : ℕ) (w : Webhook)
    → get r id ≡ some w
    → (w.id ≡ id) × HasCleanFilters w.entity_types w.events
unfolding get
get_lem r id w h = elim (Option-cases (lookup id r.rows)) [
  | inl gone ↦ absurd (ground (arith, gone))
  | inr (row, stored) ↦
      let seen : scan_found id (some row) ≡ some w = rw stored at h in
      let head : scan_webhook id row ≡ w = cc seen in
      subst (λ (x : Webhook). (x.id ≡ id) × HasCleanFilters x.entity_types x.events) head
        (refl, (wh_split-are_clean row.entity_types, wh_split-are_clean row.events))
]

pub checked-clean :
    (form checked : Form)
    → parse_webhook_form form ≡ ok checked
    → HasCleanFilters checked.entity_types checked.events
unfolding Returns
checked-clean form checked h =
    subst (Returns (λ c. HasCleanFilters c.entity_types c.events)) h (parse_webhook_form-clean form)
