-- ===== src/Ports/Cables/Cards.antt =====
-- The network cards of internal/store/port_repo.go and nic_repo.go: a port is never left on a card of
-- another host, whichever of the two tables changes.
pub mod Calls
use mathlib.Core.Path.{subst}
use almanaut.Base.{
  Bool-cases, Option, Option-cases, arith, bool_eq, inl, inr, list_eq, nat_eq, none, pair_eq, refl,
  some, string_eq, ℕ, ◌+◌, ◌==◌, ◌≡◌,
}
use almanaut.Base.Assoc.{
  insert, lookup, lookup-delete, lookup-insert, lookup-map_values, map_found, map_values,
}
use almanaut.Base.Result.{ok}
use almanaut.Ports.{
  Db, Nic, Port, check_card, check_nic, clear_peer, connect, create, delete_port, plug, unplug,
  update,
}
use almanaut.Ports.Cables.{
  connect_writes, create_connects, inserted, lookup-connect, overwritten, rewire, update_connects,
}

-- Every port in the table would pass `checkNIC` again.
pub record HasOwnCards (db : Db) : Type 0 where
  pub passes : (k : ℕ) (p : Port) → lookup k db.ports ≡ some p → check_nic db p ≡ ok tt

-- The columns that `checkNIC` reads.
record SameCard (p q : Port) : Type 0 where
  same_type : p.owner_type ≡ q.owner_type
  same_owner : p.owner_id ≡ q.owner_id
  same_nic : p.nic_id ≡ q.nic_id

check_card-same :
    (p q : Port) (found : Option Nic) → SameCard p q → check_card p found ≡ check_card q found
unfolding check_card
check_card-same p q none same = refl
check_card-same p q (some nic) same = rw (same.same_type, same.same_owner) refl

check_nic-same :
    (db db' : Db) (p q : Port)
    → db'.nics ≡ db.nics
    → SameCard p q
    → check_nic db q ≡ ok tt
    → check_nic db' p ≡ ok tt
unfolding check_nic
check_nic-same db db' p q nics same h =
    rw (nics, same.same_nic, check_card-same p q (lookup q.nic_id db.nics) same) h

rewire-SameCard : (id peer k : ℕ) (p : Port) → SameCard (rewire id peer k p) p
unfolding rewire plug unplug
rewire-SameCard id peer k p = record {
  same_type = ground arith;
  same_owner = ground arith;
  same_nic = ground arith;
}

-- A table whose rows come from those of another, each with a card that fits.
mapped-HasOwnCards :
    (db db' : Db) (f : ℕ → Port → Port)
    → HasOwnCards db
    → ((k : ℕ) → lookup k db'.ports ≡ map_found f k (lookup k db.ports))
    → ((k : ℕ) (p : Port) → check_nic db p ≡ ok tt → check_nic db' (f k p) ≡ ok tt)
    → HasOwnCards db'
mapped-HasOwnCards db db' f h rows keeps = record {
  passes = λ k p found. elim (Option-cases (lookup k db.ports)) [
    | inl gone ↦
        let none_there : none ≡ some p = rw (rows k, gone) at found in absurd (ground arith)
    | inr (q, there) ↦
        let moved : some (f k q) ≡ some p = rw (rows k, there) at found in
        let e : f k q ≡ p = cc moved in
        subst (λ r. check_nic db' r ≡ ok tt) e (keeps k q (h.passes k q there))
  ];
}

connect-HasOwnCards :
    (db : Db) (id peer : ℕ) {db' : Db}
    → HasOwnCards db
    → connect db id peer ≡ ok db'
    → HasOwnCards db'
connect-HasOwnCards db id peer {db'} h done =
    mapped-HasOwnCards db db' (rewire id peer) h (lookup-connect db id peer done) λ k p checked.
      check_nic-same db db' (rewire id peer k p) p (connect_writes db id peer done).2
        (rewire-SameCard id peer k p) checked

-- A row that `checkNIC` let through, written under an id.
inserted-HasOwnCards :
    (db : Db) (id next : ℕ) (row : Port)
    → HasOwnCards db
    → check_nic db row ≡ ok tt
    → HasOwnCards (record db { ports = insert id row db.ports; next_id = next })
unfolding check_nic
inserted-HasOwnCards db id next row h checked = record {
  passes = λ k p found. elim (Bool-cases (id == k)) [
    | inl here ↦
        let written : some row ≡ some p = rw (lookup-insert id k row db.ports, here) at found in
        let e : row ≡ p = cc written in subst (λ r. check_nic db r ≡ ok tt) e checked
    | inr other ↦
        let kept : lookup k db.ports ≡ some p =
          rw (lookup-insert id k row db.ports, other) at found in
        h.passes k p kept
  ];
}

peerless-SameCard : (v : Port) (peer : ℕ) → SameCard (record v { peer_port_id = peer }) v
peerless-SameCard v peer = record { same_type = refl; same_owner = refl; same_nic = refl }

create_checks :
    (db : Db) (v : Port) {db' : Db} {id : ℕ} → create db v ≡ ok (db', id) → check_nic db v ≡ ok tt
unfolding create
create_checks db v h = ground arith

update_checks :
    (db : Db) (id : ℕ) (v : Port) {db' : Db} → update db id v ≡ ok db' → check_nic db v ≡ ok tt
unfolding update
update_checks db id v h = ground arith

create-HasOwnCards :
    (db : Db) (v : Port) {db' : Db} {id : ℕ}
    → HasOwnCards db
    → create db v ≡ ok (db', id)
    → HasOwnCards db'
create-HasOwnCards db v h done =
    connect-HasOwnCards (inserted db v) db.next_id v.peer_port_id
      (inserted-HasOwnCards db db.next_id (db.next_id + 1) (record v { peer_port_id = 0 }) h
        (check_nic-same db db (record v { peer_port_id = 0 }) v refl (peerless-SameCard v 0)
          (create_checks db v done)))
      (create_connects db v done).0

update-HasOwnCards :
    (db : Db) (id : ℕ) (v : Port) {db' : Db}
    → HasOwnCards db
    → update db id v ≡ ok db'
    → HasOwnCards db'
update-HasOwnCards db id v h done =
    let (old, found, wired) = update_connects db id v done in
    connect-HasOwnCards (overwritten db id v old) id v.peer_port_id
      (inserted-HasOwnCards db id db.next_id (record v { peer_port_id = old.peer_port_id }) h
        (check_nic-same db db (record v { peer_port_id = old.peer_port_id }) v refl
          (peerless-SameCard v old.peer_port_id) (update_checks db id v done)))
      wired

delete_port-HasOwnCards : (db : Db) (id : ℕ) → HasOwnCards db → HasOwnCards (delete_port db id)
unfolding delete_port clear_peer
delete_port-HasOwnCards db id h =
    let cleared : HasOwnCards (record db { ports = map_values (clear_peer id) db.ports }) =
      mapped-HasOwnCards db _ (clear_peer id) h (λ k. lookup-map_values (clear_peer id) k db.ports)
        λ k p checked.
          check_nic-same db _ (clear_peer id k p) p refl
            (record {
              same_type = ground arith;
              same_owner = ground arith;
              same_nic = ground arith;
            })
            checked in
    record {
      passes = λ k p found. elim (Bool-cases (id == k)) [
        | inl here ↦
            let gone : none ≡ some p =
              rw (lookup-delete id k (map_values (clear_peer id) db.ports), here) at found in
            absurd (ground arith)
        | inr other ↦
            let kept : lookup k (map_values (clear_peer id) db.ports) ≡ some p =
              rw (lookup-delete id k (map_values (clear_peer id) db.ports), other) at found in
            unfold check_nic in cleared.passes k p kept
      ];
    }
