-- ===== src/Ports/Cables.antt =====
-- The cables of internal/store/port_repo.go: each end names the other, and every operation keeps it.
pub mod Accepts
pub mod ReadBack
pub mod Cards
use mathlib.Core.Path.{fun_ext, subst}
use almanaut.Base.{
  Bool-cases, Option, Option-cases, arith, beq_refl, bool_eq, if◌then◌else◌, inl, inr, list_eq,
  nat_eq, none, not, pair_eq, refl, some, string_eq, sym, true, ℕ, ◌&&◌, ◌+◌, ◌<◌, ◌==◌, ◌∙◌, ◌≡◌,
  ◌≢◌, ◌≤◌, ◌⊎◌,
}
use almanaut.Base.Assoc.{
  has_unique_keys, insert, insert-has_unique_keys, lookup, lookup-insert, lookup-map_values,
  map_found, map_values, map_values-has_unique_keys,
}
use almanaut.Base.Result.{ok}
use almanaut.Ports.{Db, Port, connect, create, plug, unplug, update}

abbrev peer_id : Option Port → ℕ
peer_id none = 0
peer_id (some p) = p.peer_port_id

-- The port at the other end of a port's cable; 0 for no cable, and for no port.
abbrev pub peer_of : Db → ℕ → ℕ
peer_of db k = peer_id (lookup k db.ports)

-- Both ends of a cable name each other, and no cable returns to its own port.
abbrev pub IsMutual : (ℕ → ℕ) → Type 0
IsMutual peers = (k : ℕ) → peers k ≢ 0 → (peers (peers k) ≡ k) × (peers k ≢ k)

pub record IsValid (db : Db) : Type 0 where
  pub unique : has_unique_keys db.ports ≡ true
  pub no_zero : lookup 0 db.ports ≡ none
  pub started : 0 < db.next_id
  pub fresh : (k : ℕ) → db.next_id ≤ k → lookup k db.ports ≡ none
  pub cabled : IsMutual (peer_of db)

-- The cables after `id` has been plugged into `peer`, or unplugged where `peer` is 0.
abbrev pub recable : (ℕ → ℕ) → ℕ → ℕ → ℕ → ℕ
recable peers id peer k =
    if k == id
    then peer
    else if not (peer == 0) && k == peer
    then id
    else if peers k == id
    then 0
    else peers k

-- What `connect` has checked when it writes.
record Checked (db : Db) (id peer : ℕ) : Type 0 where
  ne : peer ≢ id
  free :
      peer ≢ 0
      → (p : Port) × (lookup peer db.ports ≡ some p)
        × ((p.peer_port_id ≡ 0) ⊎ (p.peer_port_id ≡ id))

connect-Checked :
    (db : Db) (id peer : ℕ) {db' : Db} → connect db id peer ≡ ok db' → Checked db id peer
unfolding connect
connect-Checked db id peer h = record { ne = ground arith; free = λ some_peer. ground arith }

connect_writes :
    (db : Db) (id peer : ℕ) {db' : Db}
    → connect db id peer ≡ ok db'
    → (db'.ports ≡ (
        let unplugged = map_values (unplug id) db.ports in
        if peer == 0 then unplugged else map_values (plug id peer) unplugged))
      × (db'.next_id ≡ db.next_id)
      × (db'.nics ≡ db.nics)
unfolding connect
connect_writes db id peer h = ground arith

-- A row after a connection.
rewire : ℕ → ℕ → ℕ → Port → Port
unfolding plug unplug
rewire id peer k p = if peer == 0 then unplug id k p else plug id peer k (unplug id k p)

lookup-connect :
    (db : Db) (id peer : ℕ) {db' : Db}
    → connect db id peer ≡ ok db'
    → (k : ℕ) → lookup k db'.ports ≡ map_found (rewire id peer) k (lookup k db.ports)
unfolding rewire
lookup-connect db id peer h k = elim (Bool-cases (peer == 0)) [
  | inl off ↦
      rw ((connect_writes db id peer h).0, off)
        (lookup-map_values (unplug id) k db.ports ∙ ground (arith, off))
  | inr on ↦
      rw
        (
          (connect_writes db id peer h).0,
          on,
          lookup-map_values (plug id peer) k _,
          lookup-map_values (unplug id) k db.ports,
        )
        (ground arith)
]

-- The cables that a successful connection leaves: `id` and `peer` name each other, the port that
-- was at the other end of `id` is free, and all other cables stay as they were.
peer_of-connect :
    (db : Db) (id peer : ℕ) {db' : Db} {row : Port}
    → IsValid db
    → lookup id db.ports ≡ some row
    → connect db id peer ≡ ok db'
    → (k : ℕ) → peer_of db' k ≡ recable (peer_of db) id peer k
unfolding rewire plug unplug
peer_of-connect db id peer v found h k =
    rw (lookup-connect db id peer h k)
      (ground (arith, (connect-Checked db id peer h).free, v.no_zero))

-- Cabling keeps both ends mutual, whatever the cables were.
recable_mutual :
    (P : ℕ → ℕ) (id peer k : ℕ)
    → peer ≢ id
    → id ≢ 0
    → P 0 ≡ 0
    → (P peer ≡ 0) ⊎ (P peer ≡ id)
    → IsMutual P
    → recable P id peer k ≢ 0
    → (recable P id peer (recable P id peer k) ≡ k) × (recable P id peer k ≢ k)
recable_mutual P id peer k ne pos z free m some_peer =
    (ground (arith, m k, m id, m peer), ground (arith, m k, m id, m peer))

peer_free :
    (db : Db) (id peer : ℕ)
    → IsValid db
    → Checked db id peer
    → (peer_of db peer ≡ 0) ⊎ (peer_of db peer ≡ id)
peer_free db id peer v c = ground (arith, c.free, v.no_zero)

unique-connect :
    (db : Db) (id peer : ℕ) {db' : Db}
    → connect db id peer ≡ ok db'
    → has_unique_keys db'.ports ≡ has_unique_keys db.ports
unique-connect db id peer h = elim (Bool-cases (peer == 0)) [
  | inl off ↦
      rw ((connect_writes db id peer h).0, off) (map_values-has_unique_keys (unplug id) db.ports)
  | inr on ↦
      rw ((connect_writes db id peer h).0, on, map_values-has_unique_keys (plug id peer) _)
        (map_values-has_unique_keys (unplug id) db.ports)
]

connect-IsValid :
    (db : Db) (id peer : ℕ) {db' : Db} {row : Port}
    → IsValid db
    → lookup id db.ports ≡ some row
    → connect db id peer ≡ ok db'
    → IsValid db'
connect-IsValid db id peer {db'} v found h = record {
  unique = rw (unique-connect db id peer h) v.unique;
  no_zero = rw (lookup-connect db id peer h 0, v.no_zero) refl;
  started = rw (connect_writes db id peer h).1 v.started;
  fresh = λ k le.
      rw (lookup-connect db id peer h k, v.fresh k (omega (arith, (connect_writes db id peer h).1)))
        refl;
  cabled = subst IsMutual (sym (fun_ext (peer_of-connect db id peer v found h))) λ k some_peer.
      recable_mutual (peer_of db) id peer k (connect-Checked db id peer h).ne
        (ground (arith, v.no_zero)) (rw v.no_zero refl)
        (peer_free db id peer v (connect-Checked db id peer h)) v.cabled some_peer;
}

-- A table in which every row that is there has the same cable end as in another.
pub keep-IsValid :
    (db db' : Db)
    → IsValid db
    → has_unique_keys db'.ports ≡ true
    → db.next_id ≤ db'.next_id
    → ((k : ℕ)
        → lookup k db.ports ≡ none
        → (k < db.next_id) ⊎ (db'.next_id ≤ k)
        → lookup k db'.ports ≡ none)
    → ((k : ℕ) → peer_of db' k ≡ peer_of db k)
    → IsValid db'
keep-IsValid db db' v unique grows gone peers = record {
  unique = unique;
  no_zero = gone 0 v.no_zero (inl v.started);
  started = omega (arith, v.started);
  fresh = λ k le. gone k (v.fresh k (omega arith)) (inr le);
  cabled = subst IsMutual (sym (fun_ext peers)) v.cabled;
}

-- The state that `create` hands to `connect`.
abbrev inserted : Db → Port → Db
inserted db v = record db {
  ports = insert db.next_id (record v { peer_port_id = 0 }) db.ports;
  next_id = db.next_id + 1;
}

inserted-IsValid : (db : Db) (v : Port) → IsValid db → IsValid (inserted db v)
inserted-IsValid db v h =
    keep-IsValid db (inserted db v) h (insert-has_unique_keys db.next_id _ db.ports h.unique)
      (omega arith) (λ k missing range. rw lookup-insert (ground arith))
      (λ k. rw lookup-insert (ground (arith, h.fresh db.next_id (omega arith))))

create_connects :
    (db : Db) (v : Port) {db' : Db} {id : ℕ}
    → create db v ≡ ok (db', id)
    → (connect (inserted db v) db.next_id v.peer_port_id ≡ ok db') × (id ≡ db.next_id)
unfolding create
create_connects db v h = ground arith

-- A port that `create` accepts gets a new id and the cable that was asked for, and the table
-- stays valid.
pub create-IsValid :
    (db : Db) (v : Port) {db' : Db} {id : ℕ}
    → IsValid db
    → create db v ≡ ok (db', id)
    → IsValid db' × (lookup id db.ports ≡ none) × (peer_of db' id ≡ v.peer_port_id)
create-IsValid db v {db'} {id} h done =
    let (wired, new_id) = create_connects db v done in
    let valid = inserted-IsValid db v h in
    let row : lookup db.next_id (inserted db v).ports ≡ some (record v { peer_port_id = 0 }) =
      rw lookup-insert (rw (beq_refl db.next_id)) in
    (
      connect-IsValid (inserted db v) db.next_id v.peer_port_id valid row wired,
      rw new_id (h.fresh db.next_id (omega arith)),
      rw (
        new_id,
        peer_of-connect (inserted db v) db.next_id v.peer_port_id valid row wired db.next_id,
        beq_refl db.next_id,
      ),
    )

abbrev overwritten : Db → ℕ → Port → Port → Db
overwritten db id v old = record db {
  ports = insert id (record v { peer_port_id = old.peer_port_id }) db.ports;
}

update_connects :
    (db : Db) (id : ℕ) (v : Port) {db' : Db}
    → update db id v ≡ ok db'
    → (old : Port) × (lookup id db.ports ≡ some old)
      × (connect (overwritten db id v old) id v.peer_port_id ≡ ok db')
unfolding update
update_connects db id v h = elim (Option-cases (lookup id db.ports)) [
  | inl missing ↦ absurd (ground arith)
  | inr (old, found) ↦ (old, found, ground arith)
]

overwritten-IsValid :
    (db : Db) (id : ℕ) (v old : Port)
    → IsValid db
    → lookup id db.ports ≡ some old
    → IsValid (overwritten db id v old)
overwritten-IsValid db id v old h found =
    keep-IsValid db (overwritten db id v old) h (insert-has_unique_keys id _ db.ports h.unique)
      (omega arith) (λ k missing range. rw lookup-insert (ground arith))
      (λ k. rw lookup-insert (ground arith))

-- A port that `update` accepts has the cable that was asked for, 0 for none, and the table stays
-- valid.
pub update-IsValid :
    (db : Db) (id : ℕ) (v : Port) {db' : Db}
    → IsValid db
    → update db id v ≡ ok db'
    → IsValid db' × (peer_of db' id ≡ v.peer_port_id)
update-IsValid db id v h done =
    let (old, found, wired) = update_connects db id v done in
    let valid = overwritten-IsValid db id v old h found in
    let row : lookup id (overwritten db id v old).ports
        ≡ some (record v { peer_port_id = old.peer_port_id }) =
      rw lookup-insert (rw (beq_refl id)) in
    (
      connect-IsValid (overwritten db id v old) id v.peer_port_id valid row wired,
      rw (
        peer_of-connect (overwritten db id v old) id v.peer_port_id valid row wired id,
        beq_refl id,
      ),
    )
