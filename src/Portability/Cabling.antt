-- ===== src/Portability/Cabling.antt =====
-- The ports that an import of internal/store/portability.go leaves: their cables and their NICs.
use mathlib.Core.Path.{fun_ext, subst}
use almanaut.Base.{
  All, Bool-cases, Option, [], ap, arith, bool_eq, false, if◌then◌else◌, inl, inr, list_eq, ltb,
  nat_beq_iff, nat_eq, none, pair_eq, refl, some, string_eq, sym, ℕ, ◌+◌, ◌==◌, ◌∙◌, ◌∷◌, ◌≡◌, ◌≢◌,
  ◌⊎◌,
}
use almanaut.Base.Text.{Text}
use almanaut.Base.Result.{Returns, bind-Returns, ok, ok-Returns, refuse_if, then-Returns}
use almanaut.Base.Assoc.{Assoc, lookup}
use almanaut.Resource.{found}
use almanaut.Ports.{Nic, Port}
use almanaut.Portability.{
  ImportFault, Paired, Snapshot, check_port_nic, check_port_nics, newer_version, pair_port_links,
}
use almanaut.Portability.Import.{
  Checks, Database, drop_dangling_refs, finish_import, import_snapshot, reconcile_side_tables,
  repair, replace_inventory, snapshot_version, validate_snapshot,
}
use almanaut.Portability.Links.{IsClosure, has_port, pair_port_links-IsClosure, peer_in}
use almanaut.Portability.Whole.{replace_inventory-inventory}

-- A port names no NIC, or one of the list that belongs to its owner.
abbrev pub CardFits : Assoc ℕ Nic → ℕ × Port → Type 0
CardFits nics (id, p) =
    (p.nic_id ≡ 0) ⊎ ((nic : Nic) × (lookup p.nic_id nics ≡ some nic) × (nic.host_id ≡ p.owner_id))

-- What `checkPortNICs` makes of a port: its NIC fits, and nothing else is changed.
abbrev IsCarded : Assoc ℕ Nic → ℕ → Port → Port × ℕ → Type 0
IsCarded nics id p (checked, count) =
    CardFits nics (id, checked) × (checked ≡ record p { nic_id = checked.nic_id })

check_port_nic-IsCarded :
    (nics : Assoc ℕ Nic) (id : ℕ) (p : Port) (found : Option Nic)
    → lookup p.nic_id nics ≡ found
    → Returns (IsCarded nics id p) (check_port_nic id p found)
unfolding check_port_nic Returns
check_port_nic-IsCarded nics id p none gone = (inl refl, refl)
check_port_nic-IsCarded nics id p (some nic) found = elim (Bool-cases (nic.host_id == p.owner_id)) [
  | inl own ↦ rw own (inr (nic, found, (nat_beq_iff nic.host_id p.owner_id).0 own), refl)
  | inr other ↦ rw other tt
]

-- Row for row the same ids and peers.
record IsRecarded (nics : Assoc ℕ Nic) (ports : Assoc ℕ Port) (s : Paired) : Type 0 where
  all_fit : All (CardFits nics) s.items
  same_rows : (k : ℕ) → has_port s.items k ≡ has_port ports k
  same_peers : (k : ℕ) → peer_in s.items k ≡ peer_in ports k

IsRecarded-cons :
    (nics : Assoc ℕ Nic) (id : ℕ) (p : Port) (checked : Port × ℕ) (ports : Assoc ℕ Port)
    (rest : Paired)
    → IsCarded nics id p checked
    → IsRecarded nics ports rest
    → IsRecarded nics
        ((id, p) ∷ ports)
        (record { items = (id, checked.0) ∷ rest.items; count = checked.1 + rest.count })
unfolding lookup
IsRecarded-cons nics id p checked ports rest carded h = record {
  all_fit = (carded.0, h.all_fit);
  same_rows = λ k. ground (arith, h.same_rows k);
  same_peers =
      let peer : checked.0.peer_port_id ≡ p.peer_port_id =
        ap (λ (q : Port). q.peer_port_id) carded.1 in
      λ k. ground (arith, h.same_peers k, peer);
}

check_port_nics-IsRecarded :
    (nics : Assoc ℕ Nic) (ports : Assoc ℕ Port)
    → Returns (IsRecarded nics ports) (check_port_nics ports nics)
unfolding check_port_nics
check_port_nics-IsRecarded nics [] =
    ok-Returns ImportFault (IsRecarded nics []) _
      (record { all_fit = tt; same_rows = λ k. refl; same_peers = λ k. refl })
check_port_nics-IsRecarded nics ((id, p) ∷ ports) =
    bind-Returns _ (IsCarded nics id p)
      (if p.nic_id == 0 then ok (p, 0) else check_port_nic id p (lookup p.nic_id nics)) _
      (elim (Bool-cases (p.nic_id == 0)) [
        | inl bare ↦ rw bare (
            ok-Returns ImportFault (IsCarded nics id p) (p, 0)
              (inl ((nat_beq_iff p.nic_id 0).0 bare), refl))
        | inr carries ↦ rw carries (check_port_nic-IsCarded nics id p _ refl)
      ])
      λ checked carded.
        bind-Returns _ (IsRecarded nics ports) (check_port_nics ports nics) _
          (check_port_nics-IsRecarded nics ports)
          λ rest h.
            ok-Returns ImportFault (IsRecarded nics ((id, p) ∷ ports)) _
              (IsRecarded-cons nics id p checked ports rest carded h)

recarded-IsClosure :
    (filed paired carded : Assoc ℕ Port)
    → IsClosure filed paired
    → ((k : ℕ) → has_port carded k ≡ has_port paired k)
    → ((k : ℕ) → peer_in carded k ≡ peer_in paired k)
    → IsClosure filed carded
recarded-IsClosure filed paired carded h rows peers = record {
  same_ports = λ k. rows k ∙ h.same_ports k;
  is_mutual = λ k. subst (λ P. P k ≢ 0 → P (P k) ≡ k) (sym (fun_ext peers)) (h.is_mutual k);
  connected = λ k m pos_k pos_m. rw (peers k) (h.connected k m pos_k pos_m);
}

-- What the ports of an inventory are to those of the file.
pub record IsCabled {E : Type 0} (filed : Assoc ℕ Port) (s : Snapshot E) : Type 0 where
  pub closure : IsClosure filed s.ports
  pub cards : All (CardFits s.nics) s.ports

repair-IsCabled :
    {E : Type 0} (s : Snapshot E)
    → has_port s.ports 0 ≡ false
    → Returns (λ (r : Snapshot E × ℕ). IsCabled s.ports r.0) (repair s)
unfolding repair drop_dangling_refs
repair-IsCabled {E} s none_zero =
    bind-Returns _ (λ paired. IsClosure s.ports paired.items) (pair_port_links s.ports) _
      (pair_port_links-IsClosure s.ports none_zero)
      λ paired closed.
        bind-Returns _ (IsRecarded s.nics paired.items) (check_port_nics paired.items s.nics) _
          (check_port_nics-IsRecarded s.nics paired.items)
          λ carded h.
            ok-Returns ImportFault (λ (r : Snapshot E × ℕ). IsCabled s.ports r.0) _
              (record {
                closure =
                    recarded-IsClosure s.ports paired.items carded.items closed h.same_rows
                      h.same_peers;
                cards = h.all_fit;
              })

-- Where no port of the file has the id 0, an import that succeeds leaves the ports of the file, with
-- both ends of each cable naming each other, connected exactly when one of the two named the other in
-- the file, and each on no NIC or on one of the inventory that belongs to the port's owner.
pub import_snapshot-IsCabled :
    {E : Type 0} (c : Checks E) (now : Text) (s : Snapshot E) (db : Database E)
    → has_port s.ports 0 ≡ false
    → Returns (λ after. IsCabled s.ports after.inventory) (import_snapshot c now s db)
unfolding import_snapshot reconcile_side_tables
import_snapshot-IsCabled {E} c now s db none_zero =
    then-Returns _ (refuse_if (ltb snapshot_version s.version) newer_version) _ (
      then-Returns _ (validate_snapshot c s) _ (
        bind-Returns _ (λ (r : Snapshot E × ℕ). IsCabled s.ports r.0) (repair s) _
          (repair-IsCabled s none_zero)
          λ repaired cabled.
            bind-Returns _ _ (replace_inventory c repaired.0 db) _
              (replace_inventory-inventory c repaired.0 db)
              λ replaced same.
                ok-Returns ImportFault (λ (after : Database E). IsCabled s.ports after.inventory)
                  (finish_import c now repaired replaced)
                  (subst (IsCabled s.ports) (sym same)
                    (record { closure = cabled.closure; cards = cabled.cards }))))
