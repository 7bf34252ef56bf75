-- ===== src/Login.antt =====
-- Signing in and out: the users, the sessions of internal/store/session_repo.go and `safeNext` of
-- internal/web/auth.go. The tables have instants in seconds.
pub mod Handlers
use almanaut.Base.{
  Bool, List, Option, [], any, bool_eq, false, find, if◌then◌else◌, list_eq, ltb, nat_eq, none, not,
  pair_eq, select, some, string_eq, ℕ, ◌&&◌, ◌++◌, ◌==◌, ◌||◌, ◌∷◌,
}
use almanaut.Base.Text.{Text, text_of}
use almanaut.Throttle.{LoginThrottle}
use almanaut.Totp.Store.{TotpDb, UserTotp}

pub record User : Type 0 where
  pub id : ℕ
  pub username : Text
  pub password_hash : Text

pub record Session : Type 0 where
  pub token_hash : Text
  pub user_id : ℕ
  pub created_at : ℕ
  pub expires_at : ℕ

pub record Site : Type 0 where
  pub users : List User
  pub sessions : List Session
  pub totp : TotpDb
  pub throttle : LoginThrottle

-- The pages: the challenge for the second factor, the one that was asked for, the login page.
pub data Reply : Type 0 where
  rate_limited bad_credentials challenged bad_factor sign_in server_error : Reply
  forward : Text → Reply

-- In seconds.
abbrev pub session_duration : ℕ
session_duration = 2592000

abbrev pub pending_duration : ℕ
pending_duration = 300

has_break : Text → Bool
has_break raw = any (λ c. c == 92 || c == 13 || c == 10) raw

-- A local path: one slash at its start, and no backslash or line break.
unfoldable pub safe_next : Text → Text
unfolding has_break
safe_next [] = text_of "/"
safe_next (c ∷ []) = if c == 47 then c ∷ [] else text_of "/"
safe_next (c ∷ d ∷ rest) =
    if not (c == 47) || d == 47 || has_break (c ∷ d ∷ rest) then text_of "/" else c ∷ d ∷ rest

abbrev pub get_by_username : Text → List User → Option User
get_by_username username users = find (λ u. u.username == username) users

abbrev pub get_user : ℕ → List User → Option User
get_user id users = find (λ u. u.id == id) users

-- A user's id is a foreign key. The token's hash is UNIQUE as well, which a new random token does not
-- break, and is left out.
unfoldable pub create_session : Session → Site → Option Site
create_session s site =
    if any (λ u. u.id == s.user_id) site.users
    then some (record site { sessions = site.sessions ++ s ∷ [] })
    else none

abbrev pub user_of : Option Session → List User → Option User
user_of none users = none
user_of (some s) users = get_user s.user_id users

unfoldable pub user_by_token : Text → ℕ → Site → Option User
user_by_token token_hash now site =
    user_of (find (λ s. s.token_hash == token_hash && ltb now s.expires_at) site.sessions)
      site.users

unfoldable pub delete_by_token : Text → Site → Site
delete_by_token token_hash site = record site {
  sessions = select (λ s. not (s.token_hash == token_hash)) site.sessions;
}

unfoldable pub delete_by_user : ℕ → Site → Site
delete_by_user user site = record site {
  sessions = select (λ s. not (s.user_id == user)) site.sessions;
}

unfoldable pub delete_other_sessions : ℕ → Text → Site → Site
delete_other_sessions user keep site = record site {
  sessions = select (λ s. not (s.user_id == user && not (s.token_hash == keep))) site.sessions;
}

unfoldable pub delete_expired : ℕ → Site → Site
delete_expired now site = record site {
  sessions = select (λ s. ltb now s.expires_at) site.sessions;
}

-- An unknown user is the zero value.
abbrev pub id_of : Option User → ℕ
id_of none = 0
id_of (some u) = u.id

abbrev pub is_enabled : Option UserTotp → Bool
is_enabled none = false
is_enabled (some t) = t.enabled
