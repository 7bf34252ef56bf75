-- ===== src/Totp/Store/SingleUse.antt =====
-- A recovery code is redeemed once and a step is accepted once, in internal/store/totp_repo.go.
use almanaut.Base.{
  Bool-cases, List, Option, Option-cases, [], any, arith, beq_refl, bool_eq, false, if◌then◌else◌,
  inl, inr, list_beq_iff, list_eq, ltb, nat_eq, none, pair_eq, refl, some, string_eq, true, ℕ, ◌<◌,
  ◌∷◌, ◌≡◌, ◌≢◌, ◌≤◌, ◌⊎◌,
}
use almanaut.Base.Assoc.{lookup, lookup-insert}
use almanaut.Base.Text.{Text}
use almanaut.Totp.Store.{
  RecoveryCode, TotpDb, UserTotp, is_redeemable, mark_used, use_recovery_code, use_step,
}

mark_used-spent :
    (user : ℕ) (hash : Text) (codes : List RecoveryCode)
    → any (is_redeemable user hash) (mark_used user hash codes) ≡ false
unfolding mark_used is_redeemable
mark_used-spent user hash [] = refl
mark_used-spent user hash (c ∷ codes) = ground (arith, mark_used-spent user hash codes)

mark_used-others :
    (user other : ℕ) (hash h : Text) (codes : List RecoveryCode)
    → (other ≢ user) ⊎ (h ≢ hash)
    → any (is_redeemable other h) (mark_used user hash codes) ≡ any (is_redeemable other h) codes
unfolding mark_used is_redeemable
mark_used-others user other hash h [] ne = refl
mark_used-others user other hash h (c ∷ codes) ne = ground (
  arith,
  mark_used-others user other hash h codes ne,
  list_beq_iff c.code_hash hash,
  list_beq_iff c.code_hash h,
)

-- Redeeming a recovery code a second time fails, and no other code of this or another user is
-- spent by it.
pub use_recovery_code_once :
    (db : TotpDb) (user : ℕ) (hash : Text)
    → ((use_recovery_code (use_recovery_code db user hash).0 user hash).1 ≡ false)
      × ((other : ℕ) (h : Text)
          → (other ≢ user) ⊎ (h ≢ hash)
          → (use_recovery_code (use_recovery_code db user hash).0 other h).1
            ≡ (use_recovery_code db other h).1)
unfolding use_recovery_code
use_recovery_code_once db user hash = (
  mark_used-spent user hash db.recovery,
  λ other h ne. mark_used-others user other hash h db.recovery ne,
)

-- Steps presented for one user, and those of them that are accepted.
abbrev pub present : TotpDb → ℕ → List ℕ → TotpDb × List ℕ
present db user [] = (db, [])
present db user (step ∷ steps) =
    let (db', fresh) = use_step db user step in
    let (end, accepted) = present db' user steps in
    (end, if fresh then step ∷ accepted else accepted)

-- Every element is greater than the number, and the elements rise.
abbrev pub Rises : ℕ → List ℕ → Type 0
Rises n [] = Unit
Rises n (x ∷ xs) = (n < x) × Rises x xs

abbrev pub last_step : Option UserTotp → ℕ
last_step none = 0
last_step (some t) = t.last_used_step

Rises-mono : (m n : ℕ) (xs : List ℕ) → m ≤ n → Rises n xs → Rises m xs
Rises-mono m n [] h r = tt
Rises-mono m n (x ∷ xs) h r = (omega arith, r.1)

use_step-last :
    (db : TotpDb) (user step : ℕ)
    → let r = use_step db user step in
      ((r.1 ≡ true)
        × (last_step (lookup user db.factors) < step)
        × (last_step (lookup user r.0.factors) ≡ step))
      ⊎ ((r.1 ≡ false) × (r.0 ≡ db))
unfolding use_step
use_step-last db user step = elim (Option-cases (lookup user db.factors)) [
  | inl absent ↦ inr (ground arith, ground arith)
  | inr (t, row) ↦ elim (Bool-cases (ltb t.last_used_step step)) [
    | inl later ↦ inl (rw (row, later) (refl, ground arith, rw lookup-insert (rw (beq_refl user))))
    | inr spent ↦ inr (rw (row, spent) (refl, refl))
  ]
]

-- The steps that are accepted for a user rise, and all lie above the last one that was accepted
-- before: no step is accepted twice, in whatever order and how often codes are presented.
pub present-Rises :
    (db : TotpDb) (user : ℕ) (steps : List ℕ)
    → Rises (last_step (lookup user db.factors)) (present db user steps).1
present-Rises db user [] = tt
present-Rises db user (step ∷ steps) = elim (use_step-last db user step) [
  | inl (fresh, above, now) ↦
      rw fresh (above, rw now at (present-Rises (use_step db user step).0 user steps))
  | inr (stale, same) ↦ rw (stale, same) (present-Rises db user steps)
]
