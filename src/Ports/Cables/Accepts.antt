-- ===== src/Ports/Cables/Accepts.antt =====
-- Which cables internal/store/port_repo.go accepts: `connect` returns an error only for a reason
-- it states, and the unique index of the table never fires.
use almanaut.Base.Result.{Result, err, ok}
use almanaut.Base.{
  Bool-cases, Option, Option-cases, arith, bool_eq, false, if◌then◌else◌, inl, inr, list_eq, nat_eq,
  none, pair_eq, refl, some, string_eq, sym, ℕ, ◌==◌, ◌∙◌, ◌≡◌, ◌≢◌, ◌⊎◌,
}
use almanaut.Base.Assoc.{any_value, any_value-found, any_value-map_values, lookup, map_values}
use almanaut.Ports.{
  Db, Port, PortError, connect, is_claimed, peer_missing, peer_taken, self_connected, unplug,
}
use almanaut.Ports.Cables.{IsValid, peer_of}

-- A row that the index would hold against the new cable is no row of a valid table.
unclaimed :
    (db : Db) (id peer k : ℕ) (p : Port)
    → IsValid db
    → id ≢ 0
    → peer ≢ 0
    → (peer_of db peer ≡ 0) ⊎ (peer_of db peer ≡ id)
    → lookup k db.ports ≡ some p
    → is_claimed id peer k (unplug id k p) ≡ false
unfolding is_claimed unplug
unclaimed db id peer k p h pos pos' free found =
    ground (arith, h.cabled k, h.cabled peer, h.no_zero)

index_silent :
    (db : Db) (id peer : ℕ)
    → IsValid db
    → id ≢ 0
    → peer ≢ 0
    → (peer_of db peer ≡ 0) ⊎ (peer_of db peer ≡ id)
    → any_value (is_claimed id peer) (map_values (unplug id) db.ports) ≡ false
index_silent db id peer h pos pos' free =
    elim (Bool-cases (any_value (is_claimed id peer) (map_values (unplug id) db.ports))) [
      | inl claimed ↦
          let (k, p, found, holds) =
            any_value-found (λ k p. is_claimed id peer k (unplug id k p)) db.ports h.unique
              (sym (any_value-map_values (is_claimed id peer) (unplug id) db.ports) ∙ claimed) in
          absurd (cc (holds, unclaimed db id peer k p h pos pos' free found))
      | inr silent ↦ silent
    ]

abbrev refusal_of_peer : ℕ → Option Port → Option PortError
refusal_of_peer id none = some peer_missing
refusal_of_peer id (some p) =
    if p.peer_port_id == 0 then none else if p.peer_port_id == id then none else some peer_taken

-- The reasons for which a connection may be refused, in the order of the tests.
abbrev pub refusal : Db → ℕ → ℕ → Option PortError
refusal db id peer =
    if peer == id
    then some self_connected
    else if peer == 0
    then none
    else refusal_of_peer id (lookup peer db.ports)

abbrev pub IsError : Option PortError → Result PortError Db → Type 0
IsError none r = (db : Db) × (r ≡ ok db)
IsError (some e) r = r ≡ err e

-- In a valid table a connection of a stored port is refused for exactly three reasons: the port is
-- its own peer, the peer does not exist, or the peer is cabled to a third port. In every other case
-- it succeeds; the unique index never refuses it.
pub connect-IsError :
    (db : Db) (id peer : ℕ) {row : Port}
    → IsValid db
    → lookup id db.ports ≡ some row
    → IsError (refusal db id peer) (connect db id peer)
unfolding connect
connect-IsError db id peer {row} h found = elim (Bool-cases (peer == id)) [
  | inl self ↦ rw self refl
  | inr other ↦ elim (Bool-cases (peer == 0)) [
    | inl off ↦ rw (other, off) (_, refl)
    | inr on ↦ elim (Option-cases (lookup peer db.ports)) [
      | inl missing ↦ rw (other, on, missing) refl
      | inr (p, there) ↦ elim (Bool-cases (p.peer_port_id == 0)) [
        | inl idle ↦
            rw (other, on, there, idle, silent p there (inl (ground arith)) (ground arith))
              (_, refl)
        | inr busy ↦ elim (Bool-cases (p.peer_port_id == id)) [
          | inl back ↦
              rw (other, on, there, busy, back, silent p there (inr (ground arith)) (ground arith))
                (_, refl)
          | inr taken ↦ rw (other, on, there, busy, taken) refl
        ]
      ]
    ]
  ]
]
  where
    silent :
        (p : Port)
        → lookup peer db.ports ≡ some p
        → (p.peer_port_id ≡ 0) ⊎ (p.peer_port_id ≡ id)
        → peer ≢ 0
        → any_value (is_claimed id peer) (map_values (unplug id) db.ports) ≡ false
    silent p there free pos =
        index_silent db id peer h (ground (arith, h.no_zero)) pos (rw there free)
