-- ===== src/Kuma/Plan.antt =====
-- When `plan` of internal/kuma/reconcile.go finds nothing to do.
use almanaut.Base.{
  Bool, List, Option, [], all, any, ap, arith, bool_eq, false, list_eq, nat_eq, none, not, pair_eq,
  refl, some, string_eq, sym, true, ℕ, ◌&&◌, ◌++◌, ◌==◌, ◌↔◌, ◌∙◌, ◌∷◌, ◌≡◌,
}
use almanaut.Base.Assoc.{Assoc, has_key, lookup, retain}
use almanaut.Base.Sort.{sort_by-any}
use almanaut.Base.Text.{Text}
use almanaut.Inventory.{Service}
use almanaut.Kuma.{
  Action, Mapping, Monitor, creations, desire, managed, plan, prepend_action, row_action,
}

-- A row of the mapping, the monitor it names and what its service asks for agree.
abbrev pub agrees : Option Monitor → Option Monitor → Bool
agrees (some cur) (some want) = cur.name == want.name && cur.url == want.url
agrees none (some want) = false
agrees (some cur) none = false
agrees none none = false

-- Every row agrees, and every service that asks for a monitor has a row.
abbrev pub in_sync : Assoc ℕ Monitor → Mapping → Assoc ℕ Monitor → Bool
in_sync desired mapping existing =
    all (λ row. agrees (lookup row.1 existing) (lookup row.0 desired)) mapping
    && all (λ wish. has_key wish.0 mapping) desired

is_empty : List Action → Bool
is_empty [] = true
is_empty (a ∷ actions) = false

is_empty-append : (xs ys : List Action) → is_empty (xs ++ ys) ≡ (is_empty xs && is_empty ys)
unfolding is_empty
is_empty-append [] ys = refl
is_empty-append (x ∷ xs) ys = refl

row_action-agrees :
    (service mid : ℕ) (cur want : Option Monitor) (actions : List Action)
    → is_empty (prepend_action (row_action service mid cur want) actions)
      ≡ (agrees cur want && is_empty actions)
unfolding is_empty
row_action-agrees service mid (some cur) (some want) actions = ground arith
row_action-agrees service mid none (some want) actions = refl
row_action-agrees service mid (some cur) none actions = refl
row_action-agrees service mid none none actions = refl

-- A row that does not agree.
abbrev drifts : Assoc ℕ Monitor → Assoc ℕ Monitor → ℕ × ℕ → Bool
drifts desired existing row = not (agrees (lookup row.1 existing) (lookup row.0 desired))

is_empty-managed :
    (desired existing : Assoc ℕ Monitor) (rows : Mapping)
    → is_empty (managed desired existing rows) ≡ not (any (drifts desired existing) rows)
unfolding managed is_empty
is_empty-managed desired existing [] = refl
is_empty-managed desired existing ((service, mid) ∷ rows) =
    rw
      (
        row_action-agrees service mid (lookup mid existing) (lookup service desired)
            (managed desired existing rows),
        is_empty-managed desired existing rows,
      )
      (ground arith)

abbrev anything : ℕ × Monitor → Bool
anything wish = true

is_empty-creations :
    (wanted : Assoc ℕ Monitor) → is_empty (creations wanted) ≡ not (any anything wanted)
unfolding creations is_empty
is_empty-creations [] = refl
is_empty-creations (wish ∷ wanted) = refl

any-retain :
    (mapping : Mapping) (desired : Assoc ℕ Monitor)
    → any anything (retain (λ service want. not (has_key service mapping)) desired)
      ≡ not (all (λ wish. has_key wish.0 mapping) desired)
unfolding retain
any-retain mapping [] = refl
any-retain mapping ((service, want) ∷ desired) = ground (arith, any-retain mapping desired)

any-drifts :
    (desired existing : Assoc ℕ Monitor) (rows : Mapping)
    → any (drifts desired existing) rows
      ≡ not (all (λ row. agrees (lookup row.1 existing) (lookup row.0 desired)) rows)
any-drifts desired existing [] = refl
any-drifts desired existing (row ∷ rows) = ground (arith, any-drifts desired existing rows)

-- The plan is empty exactly if the two sides are in sync: every row of the mapping has its monitor in
-- Kuma and a service that asks for just its name and URL, and every service that asks for a monitor
-- has a row.
pub plan-nil :
    (parse_url : Text → Option (Text × Text)) (services : List Service) (mapping : Mapping)
    (existing : Assoc ℕ Monitor)
    → ((plan parse_url services mapping existing).0 ≡ [])
      ↔ (in_sync (desire parse_url services []) mapping existing ≡ true)
unfolding plan is_empty
plan-nil parse_url services mapping existing =
    let desired = desire parse_url services [] in
    let counted : is_empty (plan parse_url services mapping existing).0
        ≡ in_sync desired mapping existing =
      rw
        (
          is_empty-append,
          is_empty-managed,
          is_empty-creations,
          sort_by-any,
          sort_by-any,
          any-drifts desired existing mapping,
          any-retain mapping desired,
        )
        (ground arith) in
    (λ h. sym counted ∙ ap is_empty h, λ h. empty_nil _ (counted ∙ h))
  where
    empty_nil : (actions : List Action) → is_empty actions ≡ true → actions ≡ []
    empty_nil [] h = refl
    empty_nil (a ∷ actions) h = cc
