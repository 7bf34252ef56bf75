-- ===== src/Portability/Whole.antt =====
-- Import of internal/store/portability.go leaves no reference to an entity that is not there.
use mathlib.Core.Path.{subst}
use almanaut.Base.{
  All, Bool, Bool-cases, List, Option, Option-cases, [], arith, bool_eq, false, inl, inr, list_eq,
  ltb, map, nat_eq, none, not, pair_eq, refl, select, some, string_eq, sym, true, ℕ, ◌==◌, ◌∙◌, ◌∷◌,
  ◌≡◌,
}
use almanaut.Base.Text.{Text}
use almanaut.Base.Result.{
  Returns, bind-Returns, bind-Returns_any, ok-Returns, refuse_if, then-Returns,
}
use almanaut.Base.Assoc.{Assoc, keys, lookup, map_values}
use almanaut.Resource.{Attachment, JournalEntry, Tag, found}
use almanaut.Ports.{Nic, Port}
use almanaut.Portability.{
  CustomFieldValue, ImportFault, Paired, Snapshot, check_port_nics, constraint_failed, keep,
  newer_version, pair_port, pair_port_links, pair_ports, pair_with, with_peer,
}
use almanaut.Portability.Import.{
  Checks, Database, drop_dangling_refs, finish_import, has, has_ends, has_field, ids_of,
  import_snapshot, is_orphan, normalized, reconcile_side_tables, repair, replace_inventory,
  snapshot_version, validate_snapshot,
}

-- Every row that refers to an entity, or to a custom field, refers to one of the inventory.
pub record IsWhole {E : Type 0} (s : Snapshot E) : Type 0 where
  pub ends_exist : All (λ r. has_ends s r ≡ true) s.relationships
  pub tagged_exist : All (λ (x : ℕ × Tag). has s x.1.entity ≡ true) s.tags
  pub subjects_exist : All (λ (x : ℕ × JournalEntry). has s x.1.entity ≡ true) s.journal_entries
  pub fields_exist :
      All (λ (x : ℕ × CustomFieldValue). has_field s x.1 ≡ true) s.custom_field_values

keep-All : {A : Type 0} (p : A → Bool) (xs : List A) → All (λ x. p x ≡ true) (keep p xs).items
unfolding keep
keep-All p [] = tt
keep-All p (x ∷ xs) = elim (Bool-cases (p x)) [
  | inl yes_kept ↦ rw yes_kept (yes_kept, keep-All p xs)
  | inr dropped ↦ rw dropped (keep-All p xs)
]

select-All : {A : Type 0} (p : A → Bool) (xs : List A) → All (λ x. p x ≡ true) (select p xs)
select-All p [] = tt
select-All p (x ∷ xs) = elim (Bool-cases (p x)) [
  | inl yes_kept ↦ rw yes_kept (yes_kept, select-All p xs)
  | inr dropped ↦ rw dropped (select-All p xs)
]

drop_dangling_refs-IsWhole : {E : Type 0} (s : Snapshot E) → IsWhole (drop_dangling_refs s).0
unfolding drop_dangling_refs has ids_of
drop_dangling_refs-IsWhole s = record {
  ends_exist = keep-All (has_ends s) s.relationships;
  tagged_exist = keep-All (λ (x : ℕ × Tag). has s x.1.entity) s.tags;
  subjects_exist = keep-All (λ (x : ℕ × JournalEntry). has s x.1.entity) s.journal_entries;
  fields_exist = keep-All (λ (x : ℕ × CustomFieldValue). has_field s x.1) s.custom_field_values;
}

keys-map_values :
    (f : ℕ → Port → Port) (ports : Assoc ℕ Port) → keys (map_values f ports) ≡ keys ports
unfolding keys map_values
keys-map_values f [] = refl
keys-map_values f ((id, p) ∷ ports) = rw (keys-map_values f ports) refl

-- The repairs of the ports keep their ids.
abbrev HasKeys : List ℕ → Paired → Type 0
HasKeys ids s = keys s.items ≡ ids

pair_port-HasKeys :
    (ids : List ℕ) (id : ℕ) (found : Option Port) (s : Paired)
    → HasKeys ids s
    → Returns (HasKeys ids) (pair_port id found s)
unfolding pair_port pair_with Returns
pair_port-HasKeys ids id none s h = h
pair_port-HasKeys ids id (some p) s h = elim (Bool-cases (p.peer_port_id == 0)) [
  | inl free ↦ rw free h
  | inr linked ↦ elim (Option-cases (lookup p.peer_port_id s.items)) [
    | inl gone ↦ rw (linked, gone) (keys-map_values (with_peer id 0) s.items ∙ h)
    | inr (peer, found) ↦ elim (Bool-cases (peer.peer_port_id == id)) [
      | inl named ↦ rw (linked, found, named) h
      | inr other ↦ elim (Bool-cases (peer.peer_port_id == 0)) [
        | inl open_end ↦
            rw (linked, found, other, open_end)
              (keys-map_values (with_peer p.peer_port_id id) s.items ∙ h)
        | inr taken ↦ rw (linked, found, other, taken) tt
      ]
    ]
  ]
]

pair_ports-HasKeys :
    (kept ids : List ℕ) (s : Paired) → HasKeys kept s → Returns (HasKeys kept) (pair_ports ids s)
unfolding pair_ports
pair_ports-HasKeys kept [] s h = ok-Returns ImportFault (HasKeys kept) s h
pair_ports-HasKeys kept (id ∷ ids) s h =
    bind-Returns (HasKeys kept) (HasKeys kept) (pair_port id (lookup id s.items) s) (pair_ports ids)
      (pair_port-HasKeys kept id (lookup id s.items) s h) (pair_ports-HasKeys kept ids)

check_port_nics-HasKeys :
    (ports : Assoc ℕ Port) (nics : Assoc ℕ Nic)
    → Returns (HasKeys (keys ports)) (check_port_nics ports nics)
unfolding check_port_nics keys
check_port_nics-HasKeys [] nics = ok-Returns ImportFault (HasKeys []) _ refl
check_port_nics-HasKeys ((id, p) ∷ ports) nics = bind-Returns_any _ _ _ λ checked.
    bind-Returns _ (HasKeys (keys ports)) _ _ (check_port_nics-HasKeys ports nics)
      λ rest same. ok-Returns ImportFault (HasKeys (id ∷ keys ports)) _ (rw same refl)

-- A repaired list of ports in place of one with the same ids.
ports-IsWhole :
    {E : Type 0} (s : Snapshot E) (ports : Assoc ℕ Port)
    → keys ports ≡ keys s.ports
    → IsWhole s
    → IsWhole (record s { ports = ports })
unfolding has ids_of
ports-IsWhole s ports same h = record {
  ends_exist = rw same h.ends_exist;
  tagged_exist = rw same h.tagged_exist;
  subjects_exist = rw same h.subjects_exist;
  fields_exist = rw same h.fields_exist;
}

repair-IsWhole :
    {E : Type 0} (s : Snapshot E) → Returns (λ (r : Snapshot E × ℕ). IsWhole r.0) (repair s)
unfolding repair pair_port_links
repair-IsWhole {E} s =
    let kept = (drop_dangling_refs s).0 in
    bind-Returns _ (HasKeys (keys kept.ports)) _ _
      (pair_ports-HasKeys (keys kept.ports) (keys kept.ports)
        (record { items = kept.ports; count = 0 }) refl)
      λ paired same.
        bind-Returns _ (HasKeys (keys paired.items)) _ _
          (check_port_nics-HasKeys paired.items kept.nics)
          λ carded again.
            ok-Returns ImportFault (λ (r : Snapshot E × ℕ). IsWhole r.0) _
              (ports-IsWhole kept carded.items (again ∙ same) (drop_dangling_refs-IsWhole s))

normalized-tagged :
    {E : Type 0} (to_lower : ℕ → ℕ) (s : Snapshot E) (tags : Assoc ℕ Tag)
    → All (λ (x : ℕ × Tag). has s x.1.entity ≡ true) tags
    → All (λ (x : ℕ × Tag). has s x.1.entity ≡ true) (map (normalized to_lower) tags)
normalized-tagged to_lower s [] h = tt
normalized-tagged to_lower s ((id, tag) ∷ tags) h = (h.0, normalized-tagged to_lower s tags h.1)

written-IsWhole :
    {E : Type 0} (to_lower : ℕ → ℕ) (s : Snapshot E)
    → IsWhole s
    → IsWhole (record s { tags = map (normalized to_lower) s.tags })
unfolding has ids_of
written-IsWhole to_lower s h = record {
  ends_exist = h.ends_exist;
  tagged_exist = normalized-tagged to_lower s s.tags h.tagged_exist;
  subjects_exist = h.subjects_exist;
  fields_exist = h.fields_exist;
}

-- An inventory with no dangling reference, and no attachment of an entity that is not in it.
pub record IsConsistent {E : Type 0} (db : Database E) : Type 0 where
  pub whole : IsWhole db.inventory
  pub attached : All (λ a. is_orphan db.inventory a ≡ false) db.attachments

unorphaned :
    {E : Type 0} (s : Snapshot E) (attachments : List Attachment)
    → All (λ a. not (is_orphan s a) ≡ true) attachments
    → All (λ a. is_orphan s a ≡ false) attachments
unorphaned s [] h = tt
unorphaned s (a ∷ attachments) h = (ground (arith, h.0), unorphaned s attachments h.1)

pub replace_inventory-inventory :
    {E : Type 0} (c : Checks E) (s : Snapshot E) (db : Database E)
    → Returns
        (λ after. after.inventory ≡ record s { tags = map (normalized c.to_lower) s.tags })
        (replace_inventory c s db)
unfolding replace_inventory
replace_inventory-inventory c s db =
    then-Returns _ (refuse_if _ constraint_failed) _ (ok-Returns ImportFault _ _ refl)

finish_import-IsConsistent :
    {E : Type 0} (c : Checks E) (now : Text) (repaired : Snapshot E × ℕ) (replaced : Database E)
    → IsWhole replaced.inventory
    → IsConsistent (finish_import c now repaired replaced)
unfolding reconcile_side_tables
finish_import-IsConsistent c now repaired replaced whole = record {
  whole = whole;
  attached =
      unorphaned replaced.inventory _
        (select-All (λ a. not (is_orphan replaced.inventory a)) replaced.attachments);
}

-- An import that succeeds leaves an inventory in which both ends of every relationship, the subject of
-- every tag, journal entry and custom value, and the field of every custom value with its entity type
-- are there, and no attachment of an entity of a known type that is not; whatever the file and the
-- database held before.
pub import_snapshot-IsConsistent :
    {E : Type 0} (c : Checks E) (now : Text) (s : Snapshot E) (db : Database E)
    → Returns IsConsistent (import_snapshot c now s db)
unfolding import_snapshot
import_snapshot-IsConsistent {E} c now s db =
    then-Returns _ (refuse_if (ltb snapshot_version s.version) newer_version) _ (
      then-Returns _ (validate_snapshot c s) _ (
        bind-Returns _ (λ (r : Snapshot E × ℕ). IsWhole r.0) (repair s) _ (repair-IsWhole s)
          λ repaired whole.
            bind-Returns _ _ (replace_inventory c repaired.0 db) _
              (replace_inventory-inventory c repaired.0 db)
              λ replaced same.
                ok-Returns ImportFault IsConsistent (finish_import c now repaired replaced) (
                  finish_import-IsConsistent c now repaired replaced
                    (subst IsWhole (sym same) (written-IsWhole c.to_lower repaired.0 whole)))))
