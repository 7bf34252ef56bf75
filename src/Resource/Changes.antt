-- ===== src/Resource/Changes.antt =====
-- `Diff` of internal/domain/changelog.go reports what differs.
use almanaut.Base.Assoc.{Assoc, insert, keys, lookup}
use almanaut.Base.{
  All, Bool, Bool-cases, List, [], any, arith, beq_refl, bool_eq, contains, false, inl, inr,
  list_beq_iff, list_eq, nat_eq, none, not, pair_eq, refl, string_eq, true, ◌&&◌, ◌==◌, ◌||◌, ◌∷◌,
  ◌≡◌,
}
use almanaut.Base.Text.{Text, text_lt, text_lt_asym, text_of}
use almanaut.Base.Sort.{IsSortedBy, sort_by-All, sort_by-any, sort_by-sorted}
use almanaut.Resource.{FieldChange, Kind, Value, mark_keys}
use almanaut.Resource.Diff.{changed, diff_maps, render_value}

module _ {V : Type 0} where
  contains-keys-insert :
      (k : Text) (v : V) (m : Assoc Text V) (f : Text)
      → contains (keys (insert k v m)) f ≡ (k == f || contains (keys m) f)
  unfolding keys insert
  contains-keys-insert k v [] f = refl
  contains-keys-insert k v ((at, old) ∷ rest) f = ground (
    arith,
    list_beq_iff at k,
    list_beq_iff at f,
    list_beq_iff k f,
    contains-keys-insert k v rest f,
  )

  lookup_missing : (m : Assoc Text V) (f : Text) → contains (keys m) f ≡ false → lookup f m ≡ none
  unfolding keys lookup
  lookup_missing [] f h = refl
  lookup_missing ((at, v) ∷ rest) f h = ground (arith, lookup_missing rest f)

contains-mark_keys :
    (ks : List Text) (m : Assoc Text Bool) (f : Text)
    → contains (keys (mark_keys ks m)) f ≡ (contains ks f || contains (keys m) f)
contains-mark_keys [] m f = refl
contains-mark_keys (k ∷ ks) m f =
    ground (arith, contains-mark_keys ks (insert k true m) f, contains-keys-insert k true m f)

module _ {T S : Type 0} (k : Kind T S) where
  -- What the log shows of a field.
  abbrev pub shown : Assoc Text (Value S) → Text → Text
  shown m f = render_value k (lookup f m)

  abbrev pub differs : Assoc Text (Value S) → Assoc Text (Value S) → Text → Bool
  differs om nm f = not (f == text_of "id") && not (shown om f == shown nm f)

  changed-any :
      (om nm : Assoc Text (Value S)) (fs : List Text) (f : Text)
      → any (λ c. c.field == f) (changed k om nm fs) ≡ (contains fs f && differs om nm f)
  unfolding changed
  changed-any om nm [] f = refl
  changed-any om nm (g ∷ fs) f = elim (Bool-cases (g == f)) [
    | inl same ↦ rw ((list_beq_iff g f).0 same) (ground (arith, changed-any om nm fs f, beq_refl f))
    | inr other ↦ ground (arith, changed-any om nm fs f)
  ]

  both_missing :
      (om nm : Assoc Text (Value S)) (f : Text)
      → contains (keys om) f ≡ false
      → contains (keys nm) f ≡ false
      → differs om nm f ≡ false
  both_missing om nm f a b = rw (lookup_missing om f a, lookup_missing nm f b) (ground arith)

  changed-All :
      (om nm : Assoc Text (Value S)) (fs : List Text)
      → All (λ c. (c.old ≡ shown om c.field) × (c.updated ≡ shown nm c.field)) (changed k om nm fs)
  unfolding changed
  changed-All om nm [] = tt
  changed-All om nm (f ∷ fs) = elim (Bool-cases (f == text_of "id" || shown om f == shown nm f)) [
    | inl same ↦ rw same (changed-All om nm fs)
    | inr other ↦ rw other ((refl, refl), changed-All om nm fs)
  ]

  -- The changes between two revisions, whose JSON objects are given, are sorted by field. A field is
  -- among them if and only if it is not the id and the log shows another text for it, where a
  -- missing field shows as nothing, and its change has the two texts.
  pub diff_maps_lem :
      (om nm : Assoc Text (Value S))
      → IsSortedBy (λ (a b : FieldChange). text_lt a.field b.field) (diff_maps k om nm)
        × All (λ c. (c.old ≡ shown om c.field) × (c.updated ≡ shown nm c.field)) (diff_maps k om nm)
        × ((f : Text) → any (λ c. c.field == f) (diff_maps k om nm) ≡ differs om nm f)
  unfolding diff_maps
  diff_maps_lem om nm =
      let fs = keys (mark_keys (keys nm) (mark_keys (keys om) [])) in
      (
        sort_by-sorted _ (changed k om nm fs) (λ a b. text_lt_asym a.field b.field),
        sort_by-All _ _ (changed k om nm fs) (changed-All om nm fs),
        λ f.
            rw
              (
                sort_by-any (λ c. c.field == f) (λ a b. text_lt a.field b.field)
                    (changed k om nm fs),
                changed-any om nm fs f,
                contains-mark_keys (keys nm) (mark_keys (keys om) []) f,
                contains-mark_keys (keys om) [] f,
              )
              (ground (arith, both_missing om nm f)),
      )
