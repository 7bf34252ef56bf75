-- ===== src/Notify/Passes.antt =====
-- What internal/notify/notify.go sends in a pass, and in any number of passes.
use mathlib.Core.Path.{subst}
use almanaut.Base.{
  All, Bool, Bool-cases, List, [], any, arith, bool_eq, false, inl, inr, length, length-append,
  list_eq, nat_eq, pair_eq, refl, string_eq, sym, true, ◌++◌, ◌==◌, ◌||◌, ◌∙◌, ◌∷◌, ◌≡◌, ◌⊎◌,
}
use almanaut.Base.Assoc.{has_key}
use almanaut.Notify.{
  Attempt, Item, Key, Pass, Sent, clear_all, current_keys, decide, run, send_all, to_clear,
  to_notify,
}
use almanaut.Notify.Sends.{
  HasReached, IsTried, clear_all-done, has_key-clear_all, length-tries, listed, listed-to_notify,
  not_cleared, renewed-cleared, send_all-HasReached, send_all-IsTried, send_all-others, tries,
}

pub run-HasReached : (p : Pass) (sent : Sent) → All (HasReached p) (run p sent).1
unfolding run decide
run-HasReached p sent =
    let clear = to_clear (current_keys p.expiring []) sent in
    elim (Bool-cases (clear_all p.can_clear clear sent).0) [
      | inl cleared ↦ rw cleared (send_all-HasReached p (to_notify sent p.expiring) _)
      | inr stuck ↦ rw stuck tt
    ]

-- A key that is listed once: what was sent is not sent again, and the rest is tried at most once.
run-IsTried :
    (p : Pass) (sent : Sent) (k : Key)
    → listed k p.expiring ≡ 1
    → IsTried k (has_key k sent) (run p sent)
      × (has_key k sent ≡ true → tries k (run p sent).1 ≡ [])
unfolding run decide
run-IsTried p sent k h =
    let clear = to_clear (current_keys p.expiring []) sent in
    let kept = has_key-clear_all p.can_clear clear sent k (not_cleared k p.expiring sent h) in
    let after = (clear_all p.can_clear clear sent).1 in
    let items = to_notify sent p.expiring in
    let due = listed-to_notify k sent p.expiring in
    elim (Bool-cases (clear_all p.can_clear clear sent).0) [
      | inl cleared ↦ elim (Bool-cases (has_key k sent)) [
        | inl was ↦
            let nothing = send_all-others p items after k (due ∙ rw was refl) in
            rw cleared (inl (nothing.0, nothing.1 ∙ kept), λ sent_before. nothing.0)
        | inr unsent ↦ rw cleared (
          subst (λ was. IsTried k was (send_all p items after)) kept
              (send_all-IsTried p items after k (due ∙ rw unsent h)),
          λ was. absurd (cc (was, unsent)),
        )
      ]
      | inr stuck ↦ rw stuck (inl (refl, kept), λ was. refl)
    ]

-- The database takes every call of the pass.
abbrev pub IsReliable : Pass → Type 0
IsReliable p = ((k : Key) → p.can_clear k ≡ true) × ((it : Item) → p.can_mark it ≡ true)

run-tries :
    (p : Pass) (sent : Sent) (k : Key)
    → listed k p.expiring ≡ 1
    → IsReliable p
    → has_key k sent ≡ false
    → length (tries k (run p sent).1) ≡ 1
unfolding run decide
run-tries p sent k h (clears, marks) unsent =
    let clear = to_clear (current_keys p.expiring []) sent in
    rw (clear_all-done p.can_clear clear sent clears) (
      length-tries p (to_notify sent p.expiring) _ k marks
      ∙ listed-to_notify k sent p.expiring
      ∙ rw unsent h)

run-renewed :
    (p : Pass) (sent : Sent) (k : Key)
    → IsReliable p
    → listed k p.expiring ≡ 0
    → has_key k (run p sent).0 ≡ false
unfolding run decide
run-renewed p sent k (clears, marks) h =
    let clear = to_clear (current_keys p.expiring []) sent in
    let due : listed k (to_notify sent p.expiring) ≡ 0 =
      listed-to_notify k sent p.expiring ∙ rw h (ground arith) in
    rw (clear_all-done p.can_clear clear sent clears) (
      (send_all-others p (to_notify sent p.expiring) _ k due).1
      ∙ renewed-cleared p.can_clear k p.expiring sent clears h)

abbrev pub passes : List Pass → Sent → Sent × List Attempt
passes [] sent = (sent, [])
passes (p ∷ ps) sent =
    let (after, log) = run p sent in let (end, later) = passes ps after in (end, log ++ later)

-- Nothing follows a success.
abbrev pub ends_once : List Bool → Bool
ends_once [] = true
ends_once (true ∷ rest) = rest == []
ends_once (false ∷ rest) = ends_once rest

tries-append : (k : Key) (xs ys : List Attempt) → tries k (xs ++ ys) ≡ tries k xs ++ tries k ys
tries-append k [] ys = refl
tries-append k (x ∷ xs) ys = ground (arith, tries-append k xs ys)

-- The notification was sent in one of the passes.
abbrev pub ComesFrom : List Pass → Attempt → Type 0
ComesFrom [] a = false ≡ true
ComesFrom (p ∷ ps) a = HasReached p a ⊎ ComesFrom ps a

ComesFrom-append :
    (p : Pass) (ps : List Pass) (xs ys : List Attempt)
    → All (HasReached p) xs
    → All (ComesFrom ps) ys
    → All (ComesFrom (p ∷ ps)) (xs ++ ys)
ComesFrom-append p ps [] [] here there = tt
ComesFrom-append p ps [] (y ∷ ys) here there =
    (inr there.0, ComesFrom-append p ps [] ys here there.1)
ComesFrom-append p ps (x ∷ xs) ys here there =
    (inl here.0, ComesFrom-append p ps xs ys here.1 there)

-- The notifications of a pass, and those of the passes after it.
follows :
    (was mid end : Bool) (xs ys : List Bool)
    → ((xs ≡ []) × (mid ≡ was)) ⊎ ((m : Bool) × (xs ≡ m ∷ []) × (mid ≡ (m || was)))
    → (was ≡ true → xs ≡ [])
    → (mid ≡ true → ys ≡ [])
    → ends_once ys ≡ true
    → end ≡ (mid || any (λ marked. marked) ys)
    → (was ≡ true → xs ++ ys ≡ [])
      × (ends_once (xs ++ ys) ≡ true)
      × (end ≡ (was || any (λ marked. marked) (xs ++ ys)))
follows was mid end xs ys (inl (nothing, same)) again later once marked =
    rw nothing (λ h. later (same ∙ h), once, rw marked (ground (arith, same)))
follows was mid end xs ys (inr (true, one, now)) again later once marked =
    rw (one, later now) (λ h. sym one ∙ again h, refl, marked ∙ rw now (ground arith))
follows was mid end xs ys (inr (false, one, now)) again later once marked =
    rw one (λ h. absurd (cc (one, again h)), once, marked ∙ rw now refl)

-- What holds of a key over some passes.
abbrev pub SendsOnce : Key → List Pass → Sent → Sent × List Attempt → Type 0
SendsOnce k ps sent (end, log) =
    All (ComesFrom ps) log
    × (has_key k sent ≡ true → tries k log ≡ [])
    × (ends_once (tries k log) ≡ true)
    × (has_key k end ≡ (has_key k sent || any (λ marked. marked) (tries k log)))
    × (All IsReliable ps → has_key k end ≡ false → length (tries k log) ≡ length ps)
    × ((p : Pass) → IsReliable p → listed k p.expiring ≡ 0 → has_key k (run p end).0 ≡ false)

-- Of an item that goes on expiring, listed once in each pass, whatever the channels answer and
-- whichever calls of the database fail. Each notification was tried on every channel of its pass,
-- and one that marks its item has reached all of them. An item that was marked before is not sent
-- again, and no notification of it follows one that marked it; before that, one that a channel has
-- already taken may be repeated. At the end the item is marked exactly if it was before or one of
-- its notifications marked it. If no call of the database fails and the item is not marked at the
-- end, each pass has tried it. And a further pass in which the item is listed no more and no
-- call of the database fails takes the mark away.
pub passes-SendsOnce :
    (k : Key) (ps : List Pass) (sent : Sent)
    → All (λ p. listed k p.expiring ≡ 1) ps
    → SendsOnce k ps sent (passes ps sent)
passes-SendsOnce k [] sent h =
    (tt, λ was. refl, refl, ground arith, λ reliable unsent. refl, λ p. run-renewed p sent k)
passes-SendsOnce k (p ∷ ps) sent h =
    let after = (run p sent).0 in
    let log = (run p sent).1 in
    let (reached, again, once, marked, all_tried, renewed) = passes-SendsOnce k ps after h.1 in
    let tried = run-IsTried p sent k h.0 in
    let mine = tries k log in
    let later = tries k (passes ps after).1 in
    let (kept, final, shown) =
      follows (has_key k sent) (has_key k after) (has_key k (passes ps after).0) mine later tried.0
        tried.1 again once marked in
    rw (tries-append k log (passes ps after).1) (
      ComesFrom-append p ps log (passes ps after).1 (run-HasReached p sent) reached,
      kept,
      final,
      shown,
      λ reliable unsent.
          length-append mine later
          ∙ ground (
            arith,
            run-tries p sent k h.0 reliable.0 (ground (arith, shown, unsent)),
            all_tried reliable.1 unsent,
          ),
      renewed,
    )
