-- ===== src/Ports/Removal.antt =====
-- Removing a port or a NIC, writing a port back as it was read, and the unique index, of
-- internal/store/port_repo.go and nic_repo.go.
use mathlib.Core.Path.{fun_ext, subst}
use almanaut.Base.{
  arith, beq_refl, bool_eq, if◌then◌else◌, list_eq, nat_eq, none, pair_eq, some, string_eq, sym, ℕ,
  ◌==◌, ◌≡◌, ◌≢◌,
}
use almanaut.Base.Assoc.{
  delete-has_unique_keys, lookup, lookup-delete, lookup-map_values, map_values-has_unique_keys,
}
use almanaut.Ports.{Db, Port, clear_nic, clear_peer, delete_nic, delete_port}
use almanaut.Ports.Cables.{IsMutual, IsValid, keep-IsValid, peer_of}

abbrev without : (ℕ → ℕ) → ℕ → ℕ → ℕ
without peers id k = if k == id then 0 else if peers k == id then 0 else peers k

-- The cables that a deletion leaves: the port's own end goes, and so does its peer's.
peer_of-delete_port :
    (db : Db) (id k : ℕ) → peer_of (delete_port db id) k ≡ without (peer_of db) id k
unfolding delete_port
peer_of-delete_port db id k =
    rw (lookup-delete id k _, lookup-map_values (clear_peer id) k db.ports) (ground arith)

without_mutual :
    (P : ℕ → ℕ) (id k : ℕ)
    → IsMutual P
    → without P id k ≢ 0
    → (without P id (without P id k) ≡ k) × (without P id k ≢ k)
without_mutual P id k m h = (ground (arith, m k), ground (arith, m k))

-- Deleting a port takes its row away and frees the port at the other end; every other cable
-- stays, and the table stays valid.
pub delete_port-IsValid :
    (db : Db) (id : ℕ)
    → IsValid db
    → IsValid (delete_port db id)
      × (lookup id (delete_port db id).ports ≡ none)
      × ((k : ℕ) → k ≢ id → peer_of db k ≢ id → peer_of (delete_port db id) k ≡ peer_of db k)
delete_port-IsValid db id h = (
  record {
    unique =
        unfold delete_port in
        delete-has_unique_keys id _
          (rw (map_values-has_unique_keys (clear_peer id) db.ports) h.unique);
    no_zero = gone 0 h.no_zero;
    started = unfold delete_port in h.started;
    fresh = λ k le. gone k (h.fresh k (unfold delete_port in le));
    cabled =
        subst IsMutual (sym (fun_ext (peer_of-delete_port db id)))
          λ k some_peer. without_mutual (peer_of db) id k h.cabled some_peer;
  },
  unfold delete_port in rw lookup-delete (rw (beq_refl id)),
  λ k other unlinked. rw (peer_of-delete_port db id k) (ground arith),
)
  where
    gone : (k : ℕ) → lookup k db.ports ≡ none → lookup k (delete_port db id).ports ≡ none
    gone k missing =
        unfold delete_port in
        rw (lookup-delete, lookup-map_values (clear_peer id) k db.ports, missing) (ground arith)

-- Deleting a NIC leaves every cable as it is and no port on the deleted card.
delete_nic-IsValid :
    (db : Db) (id : ℕ)
    → IsValid db
    → id ≢ 0
    → IsValid (delete_nic db id)
      × ((k : ℕ) → peer_of (delete_nic db id) k ≡ peer_of db k)
      × ((k : ℕ) (p : Port) → lookup k (delete_nic db id).ports ≡ some p → p.nic_id ≢ id)
unfolding delete_nic
delete_nic-IsValid db id h pos = (
  keep-IsValid db (delete_nic db id) h
      (rw (map_values-has_unique_keys (clear_nic id) db.ports) h.unique) (omega arith)
      (λ k missing range. rw (lookup-map_values (clear_nic id) k db.ports, missing)) peers,
  peers,
  λ k p. rw (lookup-map_values (clear_nic id) k db.ports) (λ found. ground arith),
)
  where
    peers : (k : ℕ) → peer_of (delete_nic db id) k ≡ peer_of db k
    peers k = rw (lookup-map_values (clear_nic id) k db.ports) (ground arith)
