-- ===== src/Ports/Cables/ReadBack.antt =====
-- Writing a port back as it was read, in internal/store/port_repo.go: the round trip of an API
-- client that changes nothing.
use almanaut.Base.Result.{ok}
use almanaut.Base.{
  Option-cases, arith, bool_eq, inl, inr, list_eq, nat_eq, none, pair_eq, some, string_eq, ℕ, ◌∙◌,
  ◌≡◌,
}
use almanaut.Base.Assoc.{lookup, lookup-insert, map_found}
use almanaut.Ports.{Db, Port, check_nic, connect, plug, unplug, update}
use almanaut.Ports.Cables.{IsValid, lookup-connect, overwritten, overwritten-IsValid, rewire}
use almanaut.Ports.Cables.Accepts.{connect-IsError, refusal}

module _ (db : Db) (id : ℕ) (p : Port) (h : IsValid db) (found : lookup id db.ports ≡ some p) where
  lookup-overwritten : (k : ℕ) → lookup k (overwritten db id p p).ports ≡ lookup k db.ports
  lookup-overwritten k = rw lookup-insert (ground arith)

  -- The cable that the port has is no reason to refuse it.
  own_cable_free : refusal (overwritten db id p p) id p.peer_port_id ≡ none
  own_cable_free = elim (Option-cases (lookup p.peer_port_id db.ports)) [
    | inl missing ↦
        rw (lookup-overwritten p.peer_port_id, missing) (ground (arith, h.cabled id, h.no_zero))
    | inr (q, there) ↦
        rw (lookup-overwritten p.peer_port_id, there) (ground (arith, h.cabled id, h.no_zero))
  ]

  rewire_self :
      (k : ℕ) → map_found (rewire id p.peer_port_id) k (lookup k db.ports) ≡ lookup k db.ports
  unfolding rewire plug unplug
  rewire_self k = ground (arith, h.cabled id, h.cabled k, h.no_zero)

  -- A port that is written back as it was read is accepted, as long as its NIC still is, and no
  -- row of the table changes: the port keeps its cable and so does every other.
  pub update-read :
      check_nic db p ≡ ok tt
      → (db' : Db) × (update db id p ≡ ok db') × ((k : ℕ) → lookup k db'.ports ≡ lookup k db.ports)
  unfolding update
  update-read card =
      let before = overwritten db id p p in
      let valid = overwritten-IsValid db id p p h found in
      let row : lookup id before.ports ≡ some p = lookup-overwritten id ∙ found in
      let (db', wired) : (d : Db) × (connect before id p.peer_port_id ≡ ok d) =
        rw own_cable_free at (connect-IsError before id p.peer_port_id valid row) in
      (
        db',
        rw (card, found) wired,
        λ k.
            lookup-connect before id p.peer_port_id wired k
            ∙ rw (lookup-overwritten k) (rewire_self k),
      )
