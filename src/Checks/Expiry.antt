-- ===== src/Checks/Expiry.antt =====
-- What internal/domain/dates.go lists as expiring.
use almanaut.Base.{
  All, Bool, Bool-cases, List, Option, Option-cases, [], any, arith, bool_eq, false, inl, inr,
  list_eq, nat_eq, pair_eq, select, some, string_eq, sym, true, ℕ, ◌∙◌, ◌∷◌, ◌≡◌, ◌≤◌,
}
use almanaut.Base.Text.{Text, text_lt, text_lt_asym}
use almanaut.Base.Sort.{IsSortedBy, sort_by-All, sort_by-any, sort_by-sorted}
use almanaut.Checks.{expiring_on_or_before, is_due}

module _ (parse_date : Text → Option ℕ) (add_days : ℕ → ℕ → ℕ) where
  -- The text is a date, on or before the cutoff.
  abbrev pub Due : ℕ → Text → Type 0
  Due cutoff s = (d : ℕ) × (parse_date s ≡ some d) × (d ≤ cutoff)

  module _ {A : Type 0} (date_of : A → Text) (cutoff : ℕ) where
    due : A → Bool
    due it = is_due parse_date add_days cutoff (parse_date (date_of it))

    due-Due : (it : A) → due it ≡ true → Due cutoff (date_of it)
    unfolding due
    due-Due it h = elim (Option-cases (parse_date (date_of it))) [
      | inl bad ↦ absurd (ground arith)
      | inr (d, good) ↦ (d, good, ground arith)
    ]

    Due-due : (it : A) → Due cutoff (date_of it) → due it ≡ true
    unfolding due
    Due-due it (d, good, le) = ground arith

    select-All : (items : List A) → All (λ it. Due cutoff (date_of it)) (select due items)
    select-All [] = tt
    select-All (it ∷ items) = elim (Bool-cases (due it)) [
      | inl listed ↦ rw listed (due-Due it listed, select-All items)
      | inr skipped ↦ rw skipped (select-All items)
    ]

    select_complete :
        (q : A → Bool) (items : List A)
        → any q (select due items) ≡ false
        → All (λ it. Due cutoff (date_of it) → q it ≡ false) items
    select_complete q [] h = tt
    select_complete q (it ∷ items) h =
        (λ d. ground (arith, Due-due it d), select_complete q items (ground arith))

  -- The list of what expires is sorted by date, holds only items whose date is on or before the
  -- cutoff, and holds all of those: a test that fails on all that is listed fails on every item that
  -- is due. Items without a readable date are never listed.
  pub expiring_on_or_before_lem :
      {A : Type 0} (items : List A) (now within_days : ℕ) (date_of : A → Text) (q : A → Bool)
      → let listed = expiring_on_or_before parse_date add_days items now within_days date_of in
        let cutoff = add_days now within_days in
        IsSortedBy (λ a b. text_lt (date_of a) (date_of b)) listed
        × All (λ it. Due cutoff (date_of it)) listed
        × (any q listed ≡ false → All (λ it. Due cutoff (date_of it) → q it ≡ false) items)
  unfolding expiring_on_or_before due
  expiring_on_or_before_lem items now within_days date_of q =
      let cutoff = add_days now within_days in
      (
        sort_by-sorted _ _ (λ a b h. text_lt_asym (date_of a) (date_of b) h),
        sort_by-All (λ it. Due cutoff (date_of it)) _ _ (select-All date_of cutoff items),
        λ none_listed.
            select_complete date_of cutoff q items (sym (sort_by-any q _ _) ∙ none_listed),
      )
