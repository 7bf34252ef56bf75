-- ===== src/Webhooks/Filters/Read.antt =====
-- What `whSplit` of internal/store/webhook_repo.go reads, whatever a column holds.
use mathlib.Core.List.{reverse, reverse-cons, reverse-append, reverse-reverse}
use almanaut.Base.{
  Bool, Bool-cases, List, [], all, ap, arith, beq_refl, bool_eq, contains, contains-append, false,
  if◌then◌else◌, inl, inr, length, list_eq, nat_eq, not, pair_eq, refl, string_eq, sym, true, ℕ,
  ◌++◌, ◌==◌, ◌∙◌, ◌∷◌, ◌≡◌,
}
use almanaut.Base.Text.{Text, is_space, trim_left, trim_space}
use almanaut.Webhooks.{glue, split_commas, trimmed_parts, wh_split}
use almanaut.Webhooks.Filters.{IsTrim-trim_space, are_clean, length-trim_left}

trim_left_idem : (s : Text) → trim_left (trim_left s) ≡ trim_left s
unfolding trim_left
trim_left_idem [] = refl
trim_left_idem (c ∷ s) = elim (Bool-cases (is_space c)) [
  | inl space ↦ rw space (trim_left_idem s)
  | inr solid ↦ rw (solid, solid) refl
]

-- What `trim_left` cuts off.
abbrev cut : Text → Text
cut [] = []
cut (c ∷ s) = if is_space c then c ∷ cut s else []

cut-append : (s : Text) → cut s ++ trim_left s ≡ s
unfolding trim_left
cut-append [] = refl
cut-append (c ∷ s) = elim (Bool-cases (is_space c)) [
  | inl space ↦ rw space (ap (◌∷◌ c) (cut-append s))
  | inr solid ↦ rw solid refl
]

trim_left_of_append : (s t : Text) → trim_left (s ++ t) ≡ s ++ t → trim_left s ≡ s
unfolding trim_left
trim_left_of_append [] t h = refl
trim_left_of_append (c ∷ s) t h = elim (Bool-cases (is_space c)) [
  | inl space ↦ absurd (ground (arith, length-trim_left (s ++ t), ap length h))
  | inr solid ↦ rw solid refl
]

trim_space-trim_space : (s : Text) → trim_space (trim_space s) ≡ trim_space s
trim_space-trim_space s =
    let front = trim_left s in
    let back = trim_left (reverse front) in
    let parts : reverse back ++ reverse (cut (reverse front)) ≡ front =
      sym (reverse-append (cut (reverse front)) back)
      ∙ (ap reverse (cut-append (reverse front)) ∙ reverse-reverse front) in
    let start : trim_left (reverse back) ≡ reverse back =
      trim_left_of_append (reverse back) (reverse (cut (reverse front)))
        (rw parts (trim_left_idem s)) in
    let end : trim_left (reverse (reverse back)) ≡ reverse (reverse back) =
      rw (reverse-reverse back) (trim_left_idem (reverse front)) in
    unfold trim_space in IsTrim-trim_space (reverse back) (start, end)

contains-reverse : (s : Text) (c : ℕ) → contains (reverse s) c ≡ contains s c
contains-reverse [] c = refl
contains-reverse (d ∷ s) c =
    rw (reverse-cons d s, contains-append (reverse s) (d ∷ []) c, contains-reverse s c)
      (ground arith)

contains-trim_left : (s : Text) (c : ℕ) → contains s c ≡ false → contains (trim_left s) c ≡ false
unfolding trim_left
contains-trim_left [] c h = refl
contains-trim_left (d ∷ s) c h = ground (arith, contains-trim_left s c)

contains-trim_space : (s : Text) (c : ℕ) → contains s c ≡ false → contains (trim_space s) c ≡ false
unfolding trim_space
contains-trim_space s c h = rw (contains-reverse (trim_left (reverse (trim_left s))) c) (
    contains-trim_left (reverse (trim_left s)) c
      (rw (contains-reverse (trim_left s) c) (contains-trim_left s c h)))

abbrev has_no_comma : Text → Bool
has_no_comma s = not (contains s 44)

glue-has_no_comma :
    (c : ℕ) (parts : List Text)
    → (c == 44) ≡ false
    → all has_no_comma parts ≡ true
    → all has_no_comma (glue c parts) ≡ true
glue-has_no_comma c [] h a = ground arith
glue-has_no_comma c (part ∷ parts) h a = ground arith

split_commas-has_no_comma : (s : Text) → all has_no_comma (split_commas s) ≡ true
unfolding split_commas
split_commas-has_no_comma [] = refl
split_commas-has_no_comma (c ∷ s) = elim (Bool-cases (c == 44)) [
  | inl comma ↦ rw comma (split_commas-has_no_comma s)
  | inr other ↦ rw other (glue-has_no_comma c (split_commas s) other (split_commas-has_no_comma s))
]

trimmed_parts-are_clean :
    (parts : List Text) → all has_no_comma parts ≡ true → are_clean (trimmed_parts parts) ≡ true
unfolding trimmed_parts
trimmed_parts-are_clean [] h = refl
trimmed_parts-are_clean (part ∷ parts) h =
    let rest : are_clean (trimmed_parts parts) ≡ true =
      trimmed_parts-are_clean parts (ground arith) in
    let free : contains (trim_space part) 44 ≡ false = contains-trim_space part 44 (ground arith) in
    elim (Bool-cases (trim_space part == [])) [
      | inl empty ↦ rw empty rest
      | inr full ↦
          rw (full, trim_space-trim_space part, beq_refl (trim_space part), free, full) rest
    ]

-- Whatever a column holds, the words read from it are clean.
pub wh_split-are_clean : (stored : Text) → are_clean (wh_split stored) ≡ true
unfolding wh_split
wh_split-are_clean stored = elim (Bool-cases (trim_space stored == [])) [
  | inl empty ↦ rw empty refl
  | inr full ↦ rw full (
      trimmed_parts-are_clean (split_commas (trim_space stored))
        (split_commas-has_no_comma (trim_space stored)))
]
