-- ===== src/Webhooks/Filters.antt =====
-- The filter columns of internal/store/webhook_repo.go: a list of words as comma-separated text.
pub mod Read
use mathlib.Core.List.{reverse, reverse-cons, reverse-append, reverse-reverse}
use mathlib.Core.List.{append_assoc}
use almanaut.Base.{
  Bool, Bool-cases, List, [], all, ap, arith, bool_eq, contains, false, inl, inr, length,
  length-append, list_beq_iff, list_eq, nat_eq, not, pair_eq, refl, string_eq, sym, true, ◌&&◌,
  ◌++◌, ◌==◌, ◌∙◌, ◌∷◌, ◌≡◌, ◌≢◌, ◌≤◌,
}
use almanaut.Base.Text.{Text, is_space, trim_left, trim_space}
use almanaut.Webhooks.{split_commas, trimmed_parts, wh_join, wh_split}

-- A filter word: not empty, with no comma and no space around it.
abbrev pub is_clean : Text → Bool
is_clean item = not (item == []) && trim_space item == item && not (contains item 44)

length-reverse : (s : Text) → length (reverse s) ≡ length s
length-reverse [] = refl
length-reverse (c ∷ s) =
    rw (reverse-cons c s) (omega (arith, length-append {0} (reverse s) (c ∷ []), length-reverse s))

length-trim_left : (s : Text) → length (trim_left s) ≤ length s
unfolding trim_left
length-trim_left [] = omega arith
length-trim_left (c ∷ s) = ground (arith, length-trim_left s)

-- A text that loses no character keeps them all.
trim_left_of_length : (s : Text) → length s ≤ length (trim_left s) → trim_left s ≡ s
unfolding trim_left
trim_left_of_length [] h = refl
trim_left_of_length (c ∷ s) h = elim (Bool-cases (is_space c)) [
  | inl space ↦ absurd (ground (arith, length-trim_left s))
  | inr solid ↦ rw solid refl
]

-- No space at the front, and none at the end.
abbrev IsTrim : Text → Type 0
IsTrim s = (trim_left s ≡ s) × (trim_left (reverse s) ≡ reverse s)

trim_space-IsTrim : (s : Text) → trim_space s ≡ s → IsTrim s
unfolding trim_space
trim_space-IsTrim s h =
    let whole : length (trim_space s) ≡ length s = ap length h in
    let front : trim_left s ≡ s = trim_left_of_length s (
      omega (
        arith,
        whole,
        length-reverse (trim_left (reverse (trim_left s))),
        length-trim_left (reverse (trim_left s)),
        length-reverse (trim_left s),
      )) in
    let back : reverse (trim_left (reverse s)) ≡ s =
      ap (λ (t : Text). reverse (trim_left (reverse t))) (sym front) ∙ h in
    (front, sym (reverse-reverse (trim_left (reverse s))) ∙ ap reverse back)

IsTrim-trim_space : (s : Text) → IsTrim s → trim_space s ≡ s
unfolding trim_space
IsTrim-trim_space s h = rw (h.0, h.1) (reverse-reverse s)

trim_left-append : (s t : Text) → s ≢ [] → trim_left s ≡ s → trim_left (s ++ t) ≡ s ++ t
unfolding trim_left
trim_left-append [] t some_text h = absurd (some_text refl)
trim_left-append (c ∷ s) t some_text h = elim (Bool-cases (is_space c)) [
  | inl space ↦ absurd (ground (arith, length-trim_left s, ap length h))
  | inr solid ↦ rw solid refl
]

reverse_ne_nil : (s : Text) → s ≢ [] → reverse s ≢ []
reverse_ne_nil s h e = h (sym (reverse-reverse s) ∙ ap reverse e)

IsTrim-join : (s t : Text) → s ≢ [] → t ≢ [] → IsTrim s → IsTrim t → IsTrim (s ++ 44 ∷ t)
IsTrim-join s t front back hs ht = (
  trim_left-append s (44 ∷ t) front hs.0,
  let flipped : reverse (s ++ 44 ∷ t) ≡ reverse t ++ (44 ∷ reverse s) =
        reverse-append s (44 ∷ t)
        ∙ rw (reverse-cons 44 t) (append_assoc (reverse t) (44 ∷ []) (reverse s)) in
      rw flipped (trim_left-append (reverse t) _ (reverse_ne_nil t back) ht.1),
)

split_commas-clean : (s : Text) → contains s 44 ≡ false → split_commas s ≡ s ∷ []
unfolding split_commas
split_commas-clean [] h = refl
split_commas-clean (c ∷ s) h = rw (split_commas-clean s (ground arith)) (ground arith)

split_commas-append :
    (s t : Text) → contains s 44 ≡ false → split_commas (s ++ 44 ∷ t) ≡ s ∷ split_commas t
unfolding split_commas
split_commas-append [] t h = refl
split_commas-append (c ∷ s) t h = rw (split_commas-append s t (ground arith)) (ground arith)

abbrev pub are_clean : List Text → Bool
are_clean = all is_clean

split_commas-wh_join :
    (item : Text) (items : List Text)
    → are_clean (item ∷ items) ≡ true
    → split_commas (wh_join (item ∷ items)) ≡ item ∷ items
unfolding wh_join
split_commas-wh_join item [] h = split_commas-clean item (ground arith)
split_commas-wh_join item (next ∷ items) h =
    rw
      (
        split_commas-append item (wh_join (next ∷ items)) (ground arith),
        split_commas-wh_join next items (ground arith),
      )
      refl

trimmed_parts-clean : (items : List Text) → are_clean items ≡ true → trimmed_parts items ≡ items
unfolding trimmed_parts
trimmed_parts-clean [] h = refl
trimmed_parts-clean (item ∷ items) h =
    let trimmed : trim_space item ≡ item = ground (arith, list_beq_iff (trim_space item) item) in
    rw (trimmed, trimmed_parts-clean items (ground arith)) (ground arith)

clean_ne_nil : (item : Text) → is_clean item ≡ true → item ≢ []
clean_ne_nil [] h e = cc
clean_ne_nil (c ∷ item) h e = cc

wh_join_ne_nil :
    (item : Text) (items : List Text) → is_clean item ≡ true → wh_join (item ∷ items) ≢ []
unfolding wh_join
wh_join_ne_nil item [] h e = clean_ne_nil item h e
wh_join_ne_nil [] (next ∷ items) h e = cc
wh_join_ne_nil (c ∷ item) (next ∷ items) h e = cc

clean-IsTrim : (item : Text) → is_clean item ≡ true → IsTrim item
clean-IsTrim item h = trim_space-IsTrim item (ground (arith, list_beq_iff (trim_space item) item))

wh_join-IsTrim :
    (item : Text) (items : List Text)
    → are_clean (item ∷ items) ≡ true
    → IsTrim (wh_join (item ∷ items))
unfolding wh_join
wh_join-IsTrim item [] h = clean-IsTrim item (ground arith)
wh_join-IsTrim item (next ∷ items) h =
    let first : is_clean item ≡ true = ground arith in
    let others : are_clean (next ∷ items) ≡ true = ground arith in
    IsTrim-join item (wh_join (next ∷ items)) (clean_ne_nil item first)
      (wh_join_ne_nil next items (ground arith)) (clean-IsTrim item first)
      (wh_join-IsTrim next items others)

-- A filter whose words are clean, none empty and none with a comma or a space around it, reads back
-- from its column as it was written.
pub wh_split-wh_join :
    (items : List Text) → are_clean items ≡ true → wh_split (wh_join items) ≡ items
unfolding wh_split
wh_split-wh_join [] h = unfold wh_join trim_space trim_left in refl
wh_split-wh_join (item ∷ items) h =
    rw
      (
        IsTrim-trim_space (wh_join (item ∷ items)) (wh_join-IsTrim item items h),
        split_commas-wh_join item items h,
        trimmed_parts-clean (item ∷ items) h,
      )
      (ground
        (arith, wh_join_ne_nil item items (ground arith), list_beq_iff (wh_join (item ∷ items)) []))
