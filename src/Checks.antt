-- ===== src/Checks.antt =====
-- internal/domain/checks.go, audit.go, dates.go and stale.go: the rules behind the health page, the
-- dashboard and the expiry notifications. `time.Parse` and `AddDate` are Go's library and parameters;
-- a set of ids or references is a map to `true`.
pub mod Links
pub mod Expiry
use almanaut.Base.{
  Bool, Eq, List, Option, String, [], bool_eq, contains, false, if◌then◌else◌, list_eq, ltb, map,
  nat_eq, none, not, pair_eq, select, some, string_eq, true, ℕ, ◌&&◌, ◌==◌, ◌∷◌,
}
use almanaut.Base.Assoc.{Assoc, insert, lookup}
use almanaut.Base.Text.{Text, text_lt, text_of, trim_space}
use almanaut.Base.Sort.{sort_by}
use almanaut.Inventory.{Certificate, EntityRef, Hardware, Host, Relationship, Service, Subscription}

abbrev pub IdSet : Type 0
IdSet = Assoc ℕ Bool

-- A missing key reads as `false`.
abbrev pub or_false : Option Bool → Bool
or_false none = false
or_false (some b) = b

abbrev pub holds {ℓ} : {K : Type ℓ} ⦃e : Eq K⦄ → Assoc K Bool → K → Bool
holds set k = or_false (lookup k set)

-- The loop that marks the ids of `type` linked to an entity of `other`, in either direction. The
-- three rules below share its text with their own types.
unfoldable pub mark_linked : String → String → IdSet → List Relationship → IdSet
mark_linked type other set [] = set
mark_linked type other set (r ∷ rels) =
    let forward =
      if r.from_type == type && r.to_type == other then insert r.from_id true set else set in
    let both =
      if r.to_type == type && r.from_type == other then insert r.to_id true forward else forward in
    mark_linked type other both rels

unfoldable pub hosts_without_backup : List Host → List Relationship → List Host
hosts_without_backup hosts rels =
    let backed_up = mark_linked "host" "backup" [] rels in
    select (λ h. not (holds backed_up h.id)) hosts

unfoldable pub services_without_host : List Service → List Relationship → List Service
services_without_host services rels =
    let hosted = mark_linked "service" "host" [] rels in
    select (λ s. not (holds hosted s.id)) services

unfoldable pub services_without_backup : List Service → List Relationship → List Service
services_without_backup services rels =
    let backed_up = mark_linked "service" "backup" [] rels in
    select (λ s. not (holds backed_up s.id)) services

unfoldable pub hardware_without_warranty : List Hardware → List Hardware
hardware_without_warranty hw = select (λ h. h.warranty_end == []) hw

unfoldable pub subscriptions_without_renewal : List Subscription → List Subscription
subscriptions_without_renewal subs = select (λ s. s.renewal_date == []) subs

-- The loop of `LinkedRefs`.
unfoldable pub mark_refs : Assoc EntityRef Bool → List Relationship → Assoc EntityRef Bool
mark_refs linked [] = linked
mark_refs linked (r ∷ rels) =
    mark_refs (insert (r.to_type, r.to_id) true (insert (r.from_type, r.from_id) true linked)) rels

unfoldable pub linked_refs : List Relationship → Assoc EntityRef Bool
linked_refs rels = mark_refs [] rels

unfoldable pub unlinked_refs : List EntityRef → List Relationship → List EntityRef
unlinked_refs refs rels =
    let linked = linked_refs rels in select (λ ref. not (holds linked ref)) refs

abbrev pub down_statuses : List Text
down_statuses = text_of "down" ∷ text_of "offline" ∷ text_of "stopped" ∷ []

unfoldable pub hosts_down : (ℕ → ℕ) → List Host → List Host
hosts_down to_lower hosts =
    select (λ h. contains down_statuses (map to_lower (trim_space h.status))) hosts

module _ (parse_date : Text → Option ℕ) (add_days : ℕ → ℕ → ℕ) where
  abbrev is_due : ℕ → Option ℕ → Bool
  is_due cutoff none = false
  is_due cutoff (some d) = not (ltb cutoff d)

  unfoldable pub expiring_on_or_before {ℓ} : {A : Type ℓ} → List A → ℕ → ℕ → (A → Text) → List A
  expiring_on_or_before items now within_days date_of =
      let cutoff = add_days now within_days in
      sort_by (λ a b. text_lt (date_of a) (date_of b))
        (select (λ it. is_due cutoff (parse_date (date_of it))) items)

  unfoldable pub expiring_soon : List Certificate → ℕ → ℕ → List Certificate
  expiring_soon certs now within_days =
      expiring_on_or_before certs now within_days (λ c. c.expires_on)

  unfoldable pub warranty_expiring : List Hardware → ℕ → ℕ → List Hardware
  warranty_expiring hw now within_days =
      expiring_on_or_before hw now within_days (λ h. h.warranty_end)

  unfoldable pub renewals_due : List Subscription → ℕ → ℕ → List Subscription
  renewals_due subs now within_days =
      expiring_on_or_before subs now within_days (λ s. s.renewal_date)

  unfoldable pub expired_certificates : List Certificate → ℕ → List Certificate
  expired_certificates certs now = expiring_on_or_before certs now 0 (λ c. c.expires_on)

-- `StaleRefs` for `days` above 0; `parse_time` is `time.Parse` of RFC 3339, and `cutoff` the instant
-- `days` before now.
is_stale : (Text → Option ℕ) → ℕ → Option Text → Bool
is_stale parse_time cutoff none = false
is_stale parse_time cutoff (some ts) = elim (parse_time ts) [ none ↦ false | some t ↦ ltb t cutoff ]

unfoldable pub stale_refs :
    (Text → Option ℕ) → List EntityRef → Assoc EntityRef Text → ℕ → ℕ → List EntityRef
unfolding is_stale
stale_refs parse_time refs last_activity cutoff days =
    if days == 0
    then []
    else select (λ ref. is_stale parse_time cutoff (lookup ref last_activity)) refs
