-- ===== src/Ports/Cables/Cards/Calls.antt =====
-- The calls of internal/store/port_repo.go and nic_repo.go, in any order, and the cards of the ports.
use mathlib.Core.Path.{subst}
use almanaut.Base.{
  Bool-cases, Option-cases, arith, bool_eq, false, inl, inr, list_eq, nat_beq_iff, nat_eq, none,
  pair_eq, refl, string_eq, true, ℕ, ◌&&◌, ◌==◌, ◌≡◌,
}
use almanaut.Base.Assoc.{
  insert, lookup, lookup-delete, lookup-insert, lookup-map_values, map_values,
}
use almanaut.Base.Result.{ok}
use almanaut.Ports.{
  Db, Nic, Port, check_card, check_nic, clear_nic, create, create_nic, delete_nic, delete_port,
  drop_moved, overwrite_nic, update, update_nic,
}
use almanaut.Ports.Cables.Cards.{
  HasOwnCards, create-HasOwnCards, delete_port-HasOwnCards, mapped-HasOwnCards, update-HasOwnCards,
}

delete_nic-HasOwnCards : (db : Db) (id : ℕ) → HasOwnCards db → HasOwnCards (delete_nic db id)
unfolding delete_nic clear_nic
delete_nic-HasOwnCards db id h =
    mapped-HasOwnCards db _ (clear_nic id) h (λ k. lookup-map_values (clear_nic id) k db.ports)
      λ k p checked. elim (Bool-cases (p.nic_id == id)) [
        | inl here ↦ rw here (unfold check_nic in refl)
        | inr other ↦
            let away : (id == p.nic_id) ≡ false = ground (arith, other) in
            rw other (unfold check_nic in rw (lookup-delete id p.nic_id db.nics, away) checked)
      ]

create_nic-HasOwnCards :
    (db : Db) (id : ℕ) (v : Nic)
    → lookup id db.nics ≡ none
    → HasOwnCards db
    → HasOwnCards (create_nic id v db)
unfolding create_nic check_nic check_card
create_nic-HasOwnCards db id v fresh h = record {
  passes = λ k p found. elim (Bool-cases (id == p.nic_id)) [
    | inl here ↦
        let e : id ≡ p.nic_id = (nat_beq_iff id p.nic_id).0 here in
        let unknown : lookup p.nic_id db.nics ≡ none =
          subst (λ n. lookup n db.nics ≡ none) e fresh in
        let checked = h.passes k p found in
        elim (Bool-cases (p.nic_id == 0)) [
          | inl bare ↦ rw bare refl
          | inr carries ↦ absurd (ground (arith, checked, unknown, carries))
        ]
    | inr other ↦ rw (lookup-insert id p.nic_id v db.nics, other) (h.passes k p found)
  ];
}

moved_card :
    (db : Db) (id k : ℕ) (v : Nic) (p : Port)
    → check_nic db p ≡ ok tt
    → check_nic
        (record db { ports = map_values (drop_moved id v) db.ports; nics = insert id v db.nics })
        (drop_moved id v k p)
      ≡ ok tt
unfolding check_nic check_card drop_moved
moved_card db id k v p checked = elim (Bool-cases (p.nic_id == id)) [
  | inl here ↦ elim (Bool-cases (p.owner_type == "host" && p.owner_id == v.host_id)) [
    | inl own ↦
        let same : (id == p.nic_id) ≡ true = ground (arith, here) in
        rw (here, own) (rw (lookup-insert id p.nic_id v db.nics, same) (ground (arith, own)))
    | inr other ↦ rw (here, other) refl
  ]
  | inr other ↦
      let away : (id == p.nic_id) ≡ false = ground (arith, other) in
      rw other (rw (lookup-insert id p.nic_id v db.nics, away) checked)
]

update_nic-HasOwnCards :
    (db : Db) (id : ℕ) (v : Nic) {db' : Db}
    → HasOwnCards db
    → update_nic db id v ≡ ok db'
    → HasOwnCards db'
unfolding update_nic overwrite_nic
update_nic-HasOwnCards db id v {db'} h done = elim (Option-cases (lookup id db.nics)) [
  | inl gone ↦ absurd (ground (arith, gone))
  | inr (old, found) ↦
      let wrote = rw found at done in
      let e : record db {
        ports = map_values (drop_moved id v) db.ports;
        nics = insert id v db.nics;
      }
          ≡ db' =
        cc wrote in
      subst HasOwnCards e (
        mapped-HasOwnCards db _ (drop_moved id v) h
          (λ k. lookup-map_values (drop_moved id v) k db.ports)
          λ k p checked. moved_card db id k v p checked)
]

-- A call of the two repositories that succeeds.
pub data Change (db db' : Db) : Type 0 where
  port_created : (v : Port) (id : ℕ) → create db v ≡ ok (db', id) → Change db db'
  port_updated : (id : ℕ) (v : Port) → update db id v ≡ ok db' → Change db db'
  port_deleted : (id : ℕ) → db' ≡ delete_port db id → Change db db'
  nic_created :
      (id : ℕ) (v : Nic) → lookup id db.nics ≡ none → db' ≡ create_nic id v db → Change db db'
  nic_updated : (id : ℕ) (v : Nic) → update_nic db id v ≡ ok db' → Change db db'
  nic_deleted : (id : ℕ) → db' ≡ delete_nic db id → Change db db'

pub data Changes (db : Db) : Db → Type 0 where
  none_yet : Changes db db
  then_one : {p r : Db} → Changes db p → Change p r → Changes db r

Change-HasOwnCards : {db db' : Db} → Change db db' → HasOwnCards db → HasOwnCards db'
Change-HasOwnCards {db} (port_created v id done) h = create-HasOwnCards db v h done
Change-HasOwnCards {db} (port_updated id v done) h = update-HasOwnCards db id v h done
Change-HasOwnCards {db} (port_deleted id e) h = rw e (delete_port-HasOwnCards db id h)
Change-HasOwnCards {db} (nic_created id v fresh e) h = rw e (create_nic-HasOwnCards db id v fresh h)
Change-HasOwnCards {db} (nic_updated id v done) h = update_nic-HasOwnCards db id v h done
Change-HasOwnCards {db} (nic_deleted id e) h = rw e (delete_nic-HasOwnCards db id h)

-- After any successful calls on the ports and the NICs, in any order, every port of the table would
-- pass `checkNIC` again if every one did before: it is on no NIC, or it belongs to a host and is on a
-- NIC of that host.
pub Changes-HasOwnCards : {db db' : Db} → Changes db db' → HasOwnCards db → HasOwnCards db'
Changes-HasOwnCards none_yet h = h
Changes-HasOwnCards (then_one earlier change) h =
    Change-HasOwnCards change (Changes-HasOwnCards earlier h)
