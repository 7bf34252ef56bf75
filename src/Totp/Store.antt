-- ===== src/Totp/Store.antt =====
-- internal/store/totp_repo.go: the second factors, the recovery codes and the pending challenges,
-- each table as the SQL statements change it. Instants that the code keeps as RFC 3339 text in UTC
-- are numbers, which that text orders alike. Failures of the database are left out.
pub mod SingleUse
use almanaut.Base.{
  Bool, List, Option, [], any, bool_eq, false, if◌then◌else◌, length, list_eq, ltb, map, nat_eq,
  none, not, pair_eq, select, some, string_eq, true, ℕ, ◌&&◌, ◌++◌, ◌==◌, ◌∷◌,
}
use almanaut.Base.Assoc.{Assoc, delete, insert, lookup, retain}
use almanaut.Base.Text.{Text}

-- A row of `user_totp`, under its user.
pub record UserTotp : Type 0 where
  pub secret : Text
  pub enabled : Bool
  pub created_at : ℕ
  pub last_used_step : ℕ

pub record RecoveryCode : Type 0 where
  pub user_id : ℕ
  pub code_hash : Text
  pub used : Bool

-- A row of `totp_pending`, under its token's hash.
pub record Pending : Type 0 where
  pub user_id : ℕ
  pub expires_at : ℕ

pub record TotpDb : Type 0 where
  pub factors : Assoc ℕ UserTotp
  pub recovery : List RecoveryCode
  pub pending : Assoc Text Pending

unfoldable pub set_secret : TotpDb → ℕ → Text → ℕ → TotpDb
set_secret db user secret created_at = record db {
  factors =
      insert user
        (record { secret = secret; enabled = false; created_at = created_at; last_used_step = 0 })
        db.factors;
}

unfoldable pub get : TotpDb → ℕ → Option UserTotp
get db user = lookup user db.factors

-- `false` for `ErrNotFound`.
enable_row : TotpDb → ℕ → Option UserTotp → TotpDb × Bool
enable_row db user none = (db, false)
enable_row db user (some t) =
    (record db { factors = insert user (record t { enabled = true }) db.factors }, true)

unfoldable pub enable : TotpDb → ℕ → TotpDb × Bool
unfolding enable_row
enable db user = enable_row db user (lookup user db.factors)

use_row : TotpDb → ℕ → ℕ → Option UserTotp → TotpDb × Bool
use_row db user step none = (db, false)
use_row db user step (some t) =
    if ltb t.last_used_step step
    then (record db { factors = insert user (record t { last_used_step = step }) db.factors }, true)
    else (db, false)

unfoldable pub use_step : TotpDb → ℕ → ℕ → TotpDb × Bool
unfolding use_row
use_step db user step = use_row db user step (lookup user db.factors)

-- DELETE FROM totp_recovery_codes WHERE user_id = ?
without_codes : ℕ → List RecoveryCode → List RecoveryCode
without_codes user codes = select (λ c. not (c.user_id == user)) codes

unfoldable pub disable : TotpDb → ℕ → TotpDb
unfolding without_codes
disable db user = record db {
  factors = delete user db.factors;
  recovery = without_codes user db.recovery;
}

unfoldable pub replace_recovery_codes : TotpDb → ℕ → List Text → TotpDb
unfolding without_codes
replace_recovery_codes db user hashes = record db {
  recovery =
      without_codes user db.recovery
      ++ map (λ h. record { user_id = user; code_hash = h; used = false }) hashes;
}

-- The rows that UseRecoveryCode's statement selects.
unfoldable pub is_redeemable : ℕ → Text → RecoveryCode → Bool
is_redeemable user hash c = c.user_id == user && c.code_hash == hash && not c.used

mark_used : ℕ → Text → List RecoveryCode → List RecoveryCode
mark_used user hash [] = []
mark_used user hash (c ∷ codes) =
    (if is_redeemable user hash c then record c { used = true } else c) ∷ mark_used user hash codes

unfoldable pub use_recovery_code : TotpDb → ℕ → Text → TotpDb × Bool
unfolding mark_used
use_recovery_code db user hash = (
  record db { recovery = mark_used user hash db.recovery },
  any (is_redeemable user hash) db.recovery,
)

unfoldable pub count_unused_recovery : TotpDb → ℕ → ℕ
count_unused_recovery db user = length (select (λ c. c.user_id == user && not c.used) db.recovery)

-- The primary key is the hash of a new random token: a clash, an error in the code, is left out.
unfoldable pub create_pending : TotpDb → Text → ℕ → ℕ → TotpDb
create_pending db token_hash user expires_at = record db {
  pending = insert token_hash (record { user_id = user; expires_at = expires_at }) db.pending;
}

unfoldable pub unexpired : ℕ → Option Pending → Option ℕ
unexpired now none = none
unexpired now (some p) = if ltb now p.expires_at then some p.user_id else none

unfoldable pub pending_user : TotpDb → Text → ℕ → Option ℕ
unfolding unexpired
pending_user db token_hash now = unexpired now (lookup token_hash db.pending)

unfoldable pub delete_pending : TotpDb → Text → TotpDb
delete_pending db token_hash = record db { pending = delete token_hash db.pending }

unfoldable pub delete_expired_pending : TotpDb → ℕ → TotpDb
delete_expired_pending db now = record db {
  pending = retain (λ key p. ltb now p.expires_at) db.pending;
}
