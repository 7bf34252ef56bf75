-- ===== src/Resource/Removal.antt =====
-- Deleting entities through internal/web/resource.go and internal/web/bulk.go.
use almanaut.Base.{
  Bool, Bool-cases, List, [], any, ap, arith, beq_refl, bool_eq, false, inl, inr, list_eq, map,
  nat_eq, not, pair_beq_iff, pair_eq, refl, select, string_eq, sym, true, ℕ, ◌&&◌, ◌++◌, ◌==◌, ◌||◌,
  ◌∙◌, ◌∷◌, ◌≡◌, ◌≢◌,
}
use almanaut.Base.Text.{Text}
use almanaut.Base.Assoc.{Assoc, any_value, lookup, retain}
use almanaut.Inventory.{EntityRef}
use almanaut.Resource.{Attachment, JournalEntry, Tables, Tag, touches, without_entity}

any-select-not :
    {A : Type 0} (p : A → Bool) (xs : List A) → any p (select (λ x. not (p x)) xs) ≡ false
any-select-not p [] = refl
any-select-not p (x ∷ xs) = ground (arith, any-select-not p xs)

-- Taking out what fails a test leaves what another test picks, if it picks only what passes.
select-select :
    {A : Type 0} (p q : A → Bool) (xs : List A)
    → ((x : A) → p x ≡ true → q x ≡ false)
    → select p (select (λ x. not (q x)) xs) ≡ select p xs
select-select p q [] h = refl
select-select p q (x ∷ xs) h = elim (Bool-cases (q x)) [
  | inl out ↦ elim (Bool-cases (p x)) [
    | inl picked ↦ absurd (cc (out, h x picked))
    | inr left ↦ rw (out, left) (select-select p q xs h)
  ]
  | inr kept ↦ elim (Bool-cases (p x)) [
    | inl picked ↦ rw (kept, picked) (ap (λ l. x ∷ l) (select-select p q xs h))
    | inr left ↦ rw (kept, left) (select-select p q xs h)
  ]
]

pub map-append :
    {A B : Type 0} (f : A → B) (xs ys : List A) → map f (xs ++ ys) ≡ map f xs ++ map f ys
map-append f [] ys = refl
map-append f (x ∷ xs) ys = ap (λ l. f x ∷ l) (map-append f xs ys)

pub select_same :
    {A : Type 0} (p q : A → Bool) (xs : List A) → ((x : A) → p x ≡ q x) → select p xs ≡ select q xs
select_same p q [] h = refl
select_same p q (x ∷ xs) h = ground (arith, h x, select_same p q xs h)

pub select_twice :
    {A : Type 0} (p q : A → Bool) (xs : List A)
    → select p (select q xs) ≡ select (λ x. q x && p x) xs
select_twice p q [] = refl
select_twice p q (x ∷ xs) = ground (arith, select_twice p q xs)

elsewhere : (x other of : EntityRef) → other ≢ of → (x == other) ≡ true → (x == of) ≡ false
elsewhere x other of apart h = elim (Bool-cases (x == of)) [
  | inl same ↦ absurd (apart (sym ((pair_beq_iff x other).0 h) ∙ (pair_beq_iff x of).0 same))
  | inr no_more ↦ no_more
]

any_value-retain :
    (of : EntityRef) (m : Assoc (EntityRef × ℕ) Text)
    → any_value (λ at value. at.0 == of) (retain (λ at value. not (at.0 == of)) m) ≡ false
unfolding any_value retain
any_value-retain of [] = refl
any_value-retain of ((at, value) ∷ m) = ground (arith, any_value-retain of m)

kept_value :
    (of other : EntityRef) (def : ℕ) (m : Assoc (EntityRef × ℕ) Text)
    → other ≢ of
    → lookup (other, def) (retain (λ at value. not (at.0 == of)) m) ≡ lookup (other, def) m
unfolding lookup retain
kept_value of other def [] apart = refl
kept_value of other def ((at, value) ∷ m) apart = elim (Bool-cases (at == (other, def))) [
  | inl same ↦
      rw
        (
          elsewhere at.0 other of apart
              (rw ((pair_beq_iff at (other, def)).0 same) (beq_refl {A = EntityRef} other)),
          same,
        )
        refl
  | inr other_key ↦ elim (Bool-cases (at.0 == of)) [
    | inl out ↦ rw (out, other_key) (kept_value of other def m apart)
    | inr stays ↦ rw (stays, other_key) (kept_value of other def m apart)
  ]
]

module _ {T : Type 0} where
  -- A row of the tables beside the entity's own refers to the entity.
  abbrev pub is_mentioned : EntityRef → Tables T → Bool
  is_mentioned of t =
      any (touches of) t.relationships
      || any (λ x. x.entity == of) t.tags
      || any (λ x. x.entity == of) t.journal
      || any (λ x. x.entity == of) t.attachments
      || any_value (λ at value. at.0 == of) t.custom_values

  -- What belongs to the entity is as it was.
  pub record IsKept (of : EntityRef) (t after : Tables T) : Type 0 where
    pub tags : select (λ x. x.entity == of) after.tags ≡ select (λ x. x.entity == of) t.tags
    pub journal :
        select (λ x. x.entity == of) after.journal ≡ select (λ x. x.entity == of) t.journal
    pub attachments :
        select (λ x. x.entity == of) after.attachments ≡ select (λ x. x.entity == of) t.attachments
    pub custom_values :
        (def : ℕ) → lookup (of, def) after.custom_values ≡ lookup (of, def) t.custom_values

  pub without_entity-clean :
      (of : EntityRef) (t : Tables T) → is_mentioned of (without_entity of t) ≡ false
  unfolding without_entity
  without_entity-clean of t =
      rw
        (
          any-select-not (touches of) t.relationships,
          any-select-not (λ (x : Tag). x.entity == of) t.tags,
          any-select-not (λ (x : JournalEntry). x.entity == of) t.journal,
          any-select-not (λ (x : Attachment). x.entity == of) t.attachments,
          any_value-retain of t.custom_values,
        )
        refl

  pub without_entity-IsKept :
      (gone of : EntityRef) (t : Tables T) → of ≢ gone → IsKept of t (without_entity gone t)
  unfolding without_entity
  without_entity-IsKept gone of t apart = record {
    tags = select-select _ _ t.tags λ x. elsewhere x.entity of gone apart;
    journal = select-select _ _ t.journal λ x. elsewhere x.entity of gone apart;
    attachments = select-select _ _ t.attachments λ x. elsewhere x.entity of gone apart;
    custom_values = λ def. kept_value gone of def t.custom_values apart;
  }
