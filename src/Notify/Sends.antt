-- ===== src/Notify/Sends.antt =====
-- What the loops of a pass of internal/notify/notify.go do to a key: the one that clears, and the one that
-- sends.
use almanaut.Base.{
  All, Bool, Bool-cases, List, [], all, any, ap, arith, bool_eq, contains, false, if◌then◌else◌,
  inl, inr, length, list_eq, map, nat_eq, not, pair_beq_iff, pair_eq, refl, select, string_eq, true,
  ℕ, ◌&&◌, ◌==◌, ◌||◌, ◌∙◌, ◌∷◌, ◌≡◌, ◌⊎◌,
}
use almanaut.Base.Assoc.{
  Assoc, delete, has_key, has_key-delete, has_key-insert, insert, lookup-insert, lookup-nil,
}
use almanaut.Checks.{holds}
use almanaut.Notify.{
  Attempt, Item, Key, Pass, Sent, clear_all, current_keys, is_sent, key, send, send_all, to_clear,
  to_notify,
}

abbrev is_expiring : Key → List Item → Bool
is_expiring k items = any (λ it. key it == k) items

current_keys-any :
    (items : List Item) (current : Assoc Key Bool) (k : Key)
    → holds (current_keys items current) k ≡ (holds current k || is_expiring k items)
unfolding current_keys
current_keys-any [] current k = ground arith
current_keys-any (it ∷ items) current k =
    rw
      (
        current_keys-any items (insert (key it) true current) k,
        lookup-insert (key it) k true current,
      )
      (ground arith)

contains-to_clear :
    (current : Assoc Key Bool) (sent : Sent) (k : Key)
    → contains (to_clear current sent) k ≡ (not (holds current k) && has_key k sent)
unfolding to_clear has_key
contains-to_clear current [] k = ground arith
contains-to_clear current ((j, at) ∷ sent) k =
    ground (arith, contains-to_clear current sent k, pair_beq_iff j k)

pub has_key-clear_all :
    (can_clear : Key → Bool) (ks : List Key) (sent : Sent) (k : Key)
    → contains ks k ≡ false
    → has_key k (clear_all can_clear ks sent).1 ≡ has_key k sent
unfolding clear_all
has_key-clear_all can_clear [] sent k h = refl
has_key-clear_all can_clear (j ∷ ks) sent k h = elim (Bool-cases (can_clear j)) [
  | inl cleared ↦ rw cleared (
      has_key-clear_all can_clear ks (delete j sent) k (ground arith)
      ∙ has_key-delete j k sent
      ∙ ground arith)
  | inr stuck ↦ rw stuck refl
]

has_key-cleared :
    (can_clear : Key → Bool) (ks : List Key) (sent : Sent) (k : Key)
    → ((k : Key) → can_clear k ≡ true)
    → has_key k (clear_all can_clear ks sent).1 ≡ (not (contains ks k) && has_key k sent)
unfolding clear_all
has_key-cleared can_clear [] sent k h = refl
has_key-cleared can_clear (j ∷ ks) sent k h =
    rw (h j, has_key-cleared can_clear ks (delete j sent) k h, has_key-delete j k sent)
      (ground arith)

pub clear_all-done :
    (can_clear : Key → Bool) (ks : List Key) (sent : Sent)
    → ((k : Key) → can_clear k ≡ true)
    → (clear_all can_clear ks sent).0 ≡ true
unfolding clear_all
clear_all-done can_clear [] sent h = refl
clear_all-done can_clear (k ∷ ks) sent h = rw (h k) (clear_all-done can_clear ks (delete k sent) h)

-- How often a key is listed.
abbrev pub listed : Key → List Item → ℕ
listed k items = length (select (λ it. key it == k) items)

-- The notifications of a key, in their order: whether each of them marked its item.
abbrev pub tries : Key → List Attempt → List Bool
tries k log = map (λ a. a.marked) (select (λ a. key a.item == k) log)

-- Every channel of the pass was tried, and a marked item has reached each of them.
abbrev pub HasReached : Pass → Attempt → Type 0
HasReached p a =
    (a.replies ≡ map (λ channel. channel a.item) p.channels)
    × ((not a.marked || all (λ reply. reply) a.replies) ≡ true)

send-eq :
    (channels : List (Item → Bool)) (it : Item)
    → send channels it ≡ map (λ channel. channel it) channels
unfolding send
send-eq [] it = refl
send-eq (channel ∷ channels) it = ap (λ l. channel it ∷ l) (send-eq channels it)

pub send_all-HasReached :
    (p : Pass) (items : List Item) (sent : Sent) → All (HasReached p) (send_all p items sent).1
unfolding send_all
send_all-HasReached p [] sent = tt
send_all-HasReached p (it ∷ items) sent =
    let replies = send-eq p.channels it in
    elim (Bool-cases (is_sent (send p.channels it))) [
      | inl taken ↦ elim (Bool-cases (p.can_mark it)) [
        | inl marked ↦ rw (taken, marked) ((replies, taken), send_all-HasReached p items _)
        | inr unmarked ↦ rw (taken, unmarked) ((replies, refl), tt)
      ]
      | inr failed ↦ rw failed ((replies, refl), send_all-HasReached p items sent)
    ]

-- What a key that is not listed gets: nothing.
pub send_all-others :
    (p : Pass) (items : List Item) (sent : Sent) (k : Key)
    → listed k items ≡ 0
    → (tries k (send_all p items sent).1 ≡ [])
      × (has_key k (send_all p items sent).0 ≡ has_key k sent)
unfolding send_all
send_all-others p [] sent k h = (refl, refl)
send_all-others p (it ∷ items) sent k h =
    let other : (key it == k) ≡ false = ground arith in
    let rest : listed k items ≡ 0 = ground arith in
    elim (Bool-cases (is_sent (send p.channels it))) [
      | inl taken ↦ elim (Bool-cases (p.can_mark it)) [
        | inl marked ↦
            let (none_of_it, kept) = send_all-others p items (insert (key it) p.now sent) k rest in
            rw (taken, marked, other)
              (none_of_it, kept ∙ has_key-insert (key it) k p.now sent ∙ rw other refl)
        | inr unmarked ↦ rw (taken, unmarked, other) (refl, refl)
      ]
      | inr failed ↦ rw (failed, other) (send_all-others p items sent k rest)
    ]

-- At most one notification, which marks the item or leaves it as it `was`.
abbrev pub IsTried : Key → Bool → Sent × List Attempt → Type 0
IsTried k was (end, log) =
    ((tries k log ≡ []) × (has_key k end ≡ was))
    ⊎ ((marked : Bool) × (tries k log ≡ marked ∷ []) × (has_key k end ≡ (marked || was)))

pub send_all-IsTried :
    (p : Pass) (items : List Item) (sent : Sent) (k : Key)
    → listed k items ≡ 1
    → IsTried k (has_key k sent) (send_all p items sent)
unfolding send_all
send_all-IsTried p [] sent k h = absurd (ground arith)
send_all-IsTried p (it ∷ items) sent k h = elim (Bool-cases (key it == k)) [
  | inl own ↦
      let rest : listed k items ≡ 0 = ground arith in
      let skipped = send_all-others p items sent k rest in
      let added = send_all-others p items (insert (key it) p.now sent) k rest in
      elim (Bool-cases (is_sent (send p.channels it))) [
        | inl taken ↦ elim (Bool-cases (p.can_mark it)) [
          | inl marked ↦
              rw (taken, marked, own)
                (inr (
                  true,
                  ap (λ l. true ∷ l) added.0,
                  added.1 ∙ has_key-insert (key it) k p.now sent ∙ rw own refl,
                ))
          | inr unmarked ↦ rw (taken, unmarked, own) (inr (false, refl, refl))
        ]
        | inr failed ↦ rw (failed, own) (inr (false, ap (λ l. false ∷ l) skipped.0, skipped.1))
      ]
  | inr other ↦
      let rest : listed k items ≡ 1 = ground arith in
      let added : has_key k (insert (key it) p.now sent) ≡ has_key k sent =
        has_key-insert (key it) k p.now sent ∙ rw other refl in
      elim (Bool-cases (is_sent (send p.channels it))) [
        | inl taken ↦ elim (Bool-cases (p.can_mark it)) [
          | inl marked ↦
              rw (taken, marked, other, ← added)
                (send_all-IsTried p items (insert (key it) p.now sent) k rest)
          | inr unmarked ↦ rw (taken, unmarked, other) (inl (refl, refl))
        ]
        | inr failed ↦ rw (failed, other) (send_all-IsTried p items sent k rest)
      ]
]

-- While the database takes every mark, each listed item gets its notification.
pub length-tries :
    (p : Pass) (items : List Item) (sent : Sent) (k : Key)
    → ((it : Item) → p.can_mark it ≡ true)
    → length (tries k (send_all p items sent).1) ≡ listed k items
unfolding send_all
length-tries p [] sent k h = refl
length-tries p (it ∷ items) sent k h = elim (Bool-cases (is_sent (send p.channels it))) [
  | inl taken ↦
      rw (taken, h it) (ground (arith, length-tries p items (insert (key it) p.now sent) k h))
  | inr failed ↦ rw failed (ground (arith, length-tries p items sent k h))
]

pub listed-to_notify :
    (k : Key) (sent : Sent) (items : List Item)
    → listed k (to_notify sent items) ≡ (if has_key k sent then 0 else listed k items)
unfolding to_notify
listed-to_notify k sent [] = ground arith
listed-to_notify k sent (it ∷ items) =
    ground (arith, listed-to_notify k sent items, pair_beq_iff (key it) k)

listed-is_expiring : (k : Key) (items : List Item) → listed k items ≡ 1 → is_expiring k items ≡ true
listed-is_expiring k [] h = absurd (ground arith)
listed-is_expiring k (it ∷ items) h = ground (arith, listed-is_expiring k items)

-- What is expiring is not cleared.
pub not_cleared :
    (k : Key) (items : List Item) (sent : Sent)
    → listed k items ≡ 1
    → contains (to_clear (current_keys items []) sent) k ≡ false
not_cleared k items sent h =
    rw
      (
        contains-to_clear (current_keys items []) sent k,
        current_keys-any items [] k,
        listed-is_expiring k items h,
      )
      (ground arith)

unlisted-is_expiring :
    (k : Key) (items : List Item) → listed k items ≡ 0 → is_expiring k items ≡ false
unlisted-is_expiring k [] h = refl
unlisted-is_expiring k (it ∷ items) h = ground (arith, unlisted-is_expiring k items)

-- What expires no more is cleared, if the database takes every call.
pub renewed-cleared :
    (can_clear : Key → Bool) (k : Key) (items : List Item) (sent : Sent)
    → ((k : Key) → can_clear k ≡ true)
    → listed k items ≡ 0
    → has_key k (clear_all can_clear (to_clear (current_keys items []) sent) sent).1 ≡ false
renewed-cleared can_clear k items sent clears h =
    rw
      (
        has_key-cleared can_clear (to_clear (current_keys items []) sent) sent k clears,
        contains-to_clear (current_keys items []) sent k,
        current_keys-any items [] k,
        unlisted-is_expiring k items h,
      )
      (ground (arith, lookup-nil {V = Bool} k))
