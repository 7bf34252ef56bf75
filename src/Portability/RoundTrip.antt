-- ===== src/Portability/RoundTrip.antt =====
-- Export and import of internal/store/portability.go undo each other on a database in order.
use almanaut.Base.{
  All, Bool, Bool-cases, List, Option, Option-cases, [], ap, arith, beq_refl, bool_eq, false,
  if◌then◌else◌, inl, inr, list_eq, ltb, map, nat_beq_iff, nat_eq, none, not, pair_eq, refl, select,
  some, string_eq, sym, true, ℕ, ◌++◌, ◌==◌, ◌∙◌, ◌∷◌, ◌≡◌, ◌≢◌,
}
use almanaut.Base.Text.{Text}
use almanaut.Base.Result.{ok}
use almanaut.Base.Assoc.{Assoc, has_unique_keys, keys, lookup}
use almanaut.Resource.{Attachment, found}
use almanaut.Ports.{Nic, Port}
use almanaut.Portability.{
  Snapshot, check_port_nic, check_port_nics, keep, pair_port, pair_port_links, pair_ports,
  pair_with,
}
use almanaut.Portability.Import.{
  Checks, Database, drop_dangling_refs, export, has_ends, import_entry, import_snapshot, is_orphan,
  normalized, reconcile_side_tables, repair, replace_inventory, snapshot_version, validate_snapshot,
}
use almanaut.Portability.Links.{has_port, peer_in}
use almanaut.Portability.Whole.{IsWhole}
use almanaut.Portability.Cabling.{CardFits}

-- A database that the program's own operations leave: its records are valid, its rows refer to rows
-- that are there, and its cables and NICs fit.
pub record IsSettled {E : Type 0} (c : Checks E) (db : Database E) : Type 0 where
  pub validated : validate_snapshot c (export db) ≡ ok tt
  pub admitted : c.admits (export db) ≡ true
  pub unique : has_unique_keys db.inventory.ports ≡ true
  pub lowered : map (normalized c.to_lower) db.inventory.tags ≡ db.inventory.tags
  pub whole : IsWhole (export db)
  pub attached : All (λ a. is_orphan (export db) a ≡ false) db.attachments
  pub none_zero : has_port db.inventory.ports 0 ≡ false
  pub cabled :
      (k : ℕ)
      → peer_in db.inventory.ports k ≢ 0
      → peer_in db.inventory.ports (peer_in db.inventory.ports k) ≡ k
  pub carded : All (CardFits db.inventory.nics) db.inventory.ports

keep-All_eq :
    {A : Type 0} (p : A → Bool) (xs : List A)
    → All (λ x. p x ≡ true) xs
    → keep p xs ≡ record { items = xs; count = 0 }
unfolding keep
keep-All_eq p [] h = refl
keep-All_eq p (x ∷ xs) h = rw (h.0, keep-All_eq p xs h.1) refl

select-All_eq :
    {E : Type 0} (s : Snapshot E) (attachments : List Attachment)
    → All (λ a. is_orphan s a ≡ false) attachments
    → select (λ a. not (is_orphan s a)) attachments ≡ attachments
select-All_eq s [] h = refl
select-All_eq s (a ∷ attachments) h = rw (h.0, select-All_eq s attachments h.1) refl

module _ (ports : Assoc ℕ Port) (none_zero : has_port ports 0 ≡ false)
    (cabled : (k : ℕ) → peer_in ports k ≢ 0 → peer_in ports (peer_in ports k) ≡ k) where
  -- The peer of a port with a cable is there, and names it.
  peer_found :
      (id : ℕ) (p : Port)
      → lookup id ports ≡ some p
      → p.peer_port_id ≢ 0
      → (peer : Port) × (lookup p.peer_port_id ports ≡ some peer) × (peer.peer_port_id ≡ id)
  peer_found id p stored named =
      let peer : peer_in ports id ≡ p.peer_port_id = rw stored refl in
      let back : peer_in ports p.peer_port_id ≡ id =
        ap (peer_in ports) (sym peer) ∙ cabled id (rw peer named) in
      elim (Option-cases (lookup p.peer_port_id ports)) [
        | inl gone ↦
            let zeroed : peer_in ports p.peer_port_id ≡ 0 = rw gone refl in
            absurd (ground (arith, none_zero, stored, back, zeroed))
        | inr (peer_row, there) ↦
            let seen : peer_in ports p.peer_port_id ≡ peer_row.peer_port_id = rw there refl in
            (peer_row, there, sym seen ∙ back)
      ]

  pair_port-same :
      (id count : ℕ) (found : Option Port)
      → lookup id ports ≡ found
      → pair_port id found (record { items = ports; count = count })
        ≡ ok (record { items = ports; count = count })
  unfolding pair_port pair_with
  pair_port-same id count none gone = refl
  pair_port-same id count (some p) found = elim (Bool-cases (p.peer_port_id == 0)) [
    | inl free ↦ rw free refl
    | inr linked ↦
        let (peer, there, back) = peer_found id p found (ground (arith, linked)) in
        rw (linked, there, back, beq_refl id) refl
  ]

  pair_ports-same :
      (ids : List ℕ) (count : ℕ)
      → pair_ports ids (record { items = ports; count = count })
        ≡ ok (record { items = ports; count = count })
  unfolding pair_ports
  pair_ports-same [] count = refl
  pair_ports-same (id ∷ ids) count =
      rw (pair_port-same id count (lookup id ports) refl) (pair_ports-same ids count)

check_port_nic-same :
    (nics : Assoc ℕ Nic) (id : ℕ) (p : Port)
    → CardFits nics (id, p)
    → (if p.nic_id == 0 then ok (p, 0) else check_port_nic id p (lookup p.nic_id nics)) ≡ ok (p, 0)
unfolding check_port_nic
check_port_nic-same nics id p (inl bare) = rw ((nat_beq_iff p.nic_id 0).1 bare) refl
check_port_nic-same nics id p (inr (nic, found, own)) = elim (Bool-cases (p.nic_id == 0)) [
  | inl bare ↦ rw bare refl
  | inr carries ↦ rw (carries, found, (nat_beq_iff nic.host_id p.owner_id).1 own) refl
]

check_port_nics-same :
    (nics : Assoc ℕ Nic) (ports : Assoc ℕ Port)
    → All (CardFits nics) ports
    → check_port_nics ports nics ≡ ok (record { items = ports; count = 0 })
unfolding check_port_nics
check_port_nics-same nics [] h = refl
check_port_nics-same nics ((id, p) ∷ ports) h =
    rw (check_port_nic-same nics id p h.0, check_port_nics-same nics ports h.1) refl

repair-same :
    {E : Type 0} (c : Checks E) (db : Database E)
    → IsSettled c db
    → repair (export db) ≡ ok (export db, 0)
unfolding repair drop_dangling_refs pair_port_links export
repair-same c db h =
    rw
      (
        keep-All_eq (has_ends (export db)) db.inventory.relationships h.whole.ends_exist,
        keep-All_eq _ db.inventory.tags h.whole.tagged_exist,
        keep-All_eq _ db.inventory.journal_entries h.whole.subjects_exist,
        keep-All_eq _ db.inventory.custom_field_values h.whole.fields_exist,
        pair_ports-same db.inventory.ports h.none_zero h.cabled (keys db.inventory.ports) 0,
        check_port_nics-same db.inventory.nics db.inventory.ports h.carded,
      )
      refl

-- The database after its own export is imported: the inventory and the attachments are as they were,
-- what the jobs derive is cleared, and the import is logged with no skipped reference.
abbrev pub reimported : {E : Type 0} → Checks E → Text → Database E → Database E
reimported c now db = record {
  inventory = export db;
  liveness_state = [];
  cert_probe_state = [];
  notification_state = [];
  attachments = db.attachments;
  changelog = db.changelog ++ import_entry c now (export db) 0 ∷ [];
}

replace_inventory-export :
    {E : Type 0} (c : Checks E) (db : Database E)
    → IsSettled c db
    → replace_inventory c (export db) db ≡ ok (record db { inventory = export db })
unfolding replace_inventory export
replace_inventory-export c db h = rw (h.lowered, h.unique, h.admitted) refl

export_current : {E : Type 0} (db : Database E) → ltb snapshot_version (export db).version ≡ false
unfolding export
export_current db = refl

-- Importing its own export leaves a settled database with the inventory and the attachments it had,
-- drops nothing, clears what the jobs derive, and logs the import.
pub import_snapshot-export :
    {E : Type 0} (c : Checks E) (now : Text) (db : Database E)
    → IsSettled c db
    → import_snapshot c now (export db) db ≡ ok (reimported c now db)
unfolding import_snapshot reconcile_side_tables
import_snapshot-export c now db h =
    rw
      (
        export_current db,
        h.validated,
        repair-same c db h,
        replace_inventory-export c db h,
        select-All_eq (export db) db.attachments h.attached,
      )
      refl
