-- ===== src/Resource/Diff.antt =====
-- `Diff` of internal/domain/changelog.go: the fields in which two revisions differ, compared by the text
-- that the log shows.
use almanaut.Base.Result.{Result, ok, ◌>>=◌}
use almanaut.Base.Text.{Text, text_lt, text_of}
use almanaut.Base.Assoc.{Assoc, keys, lookup}
use almanaut.Base.{
  List, Option, [], bool_eq, if◌then◌else◌, list_eq, nat_eq, none, pair_eq, some, string_eq, ◌++◌,
  ◌==◌, ◌||◌, ◌∷◌,
}
use almanaut.Base.Sort.{sort_by}
use almanaut.Resource.{
  Fault, FieldChange, Kind, Value, broken_json, found, list_value, mark_keys, null_value,
  scalar_value, text_value,
}

module _ {T S : Type 0} (k : Kind T S) where
  abbrev pub render_parts : List S → Text
  render_parts [] = []
  render_parts (x ∷ []) = k.format_scalar x
  render_parts (x ∷ y ∷ xs) = k.format_scalar x ++ text_of ", " ++ render_parts (y ∷ xs)

  -- A key that is missing reads as nil.
  abbrev pub render_value : Option (Value S) → Text
  render_value none = []
  render_value (some null_value) = []
  render_value (some (text_value t)) = t
  render_value (some (list_value parts)) = render_parts parts
  render_value (some (scalar_value x)) = k.format_scalar x

  abbrev pub to_map : T → Result Fault (Assoc Text (Value S))
  to_map item = found broken_json (k.marshal item) >>= λ raw. found broken_json (k.decode raw)

  unfoldable pub changed :
      Assoc Text (Value S) → Assoc Text (Value S) → List Text → List FieldChange
  changed om nm [] = []
  changed om nm (f ∷ fs) =
      let ov = render_value (lookup f om) in
      let nv = render_value (lookup f nm) in
      if f == text_of "id" || ov == nv
      then changed om nm fs
      else record { field = f; old = ov; updated = nv } ∷ changed om nm fs

  unfoldable pub diff_maps : Assoc Text (Value S) → Assoc Text (Value S) → List FieldChange
  unfolding changed
  diff_maps om nm =
      sort_by (λ a b. text_lt a.field b.field)
        (changed om nm (keys (mark_keys (keys nm) (mark_keys (keys om) []))))

  abbrev pub diff : T → T → Result Fault (List FieldChange)
  diff old updated = do om ← to_map old; nm ← to_map updated; ok (diff_maps om nm)
