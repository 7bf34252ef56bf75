-- ===== src/Login/Handlers.antt =====
-- `login` and `logout` of internal/web/auth.go, `verify2FA` and `resetUser2FA` of totp.go there, and
-- `revokeSessions` of users.go. An instant is that of the throttle, and `seconds` gives the whole seconds
-- that the tables and the codes know it by. bcrypt and the hash of a token are parameters, as are the
-- tokens that are drawn. The journal of sign-ins is left out.
pub mod Grants
pub mod Factor
use almanaut.Base.{
  Bool, Option, [], bool_eq, if◌then◌else◌, list_eq, nat_eq, none, not, pair_eq, some, string_eq, ℕ,
  ◌&&◌, ◌+◌, ◌==◌,
}
use almanaut.Base.Text.{Text, trim_space}
use almanaut.Throttle.{allowed, cleanup, record_failure, record_success}
use almanaut.Totp.{Primitives}
use almanaut.Totp.Store.{
  UserTotp, create_pending, delete_expired_pending, delete_pending, disable, get, pending_user,
}
use almanaut.Totp.Factor.{verify_second_factor}
use almanaut.Login.{
  Reply, Session, Site, User, bad_credentials, bad_factor, challenged, create_session,
  delete_by_token, delete_by_user, delete_expired, delete_other_sessions, forward, get_by_username,
  get_user, id_of, is_enabled, pending_duration, rate_limited, safe_next, server_error,
  session_duration, sign_in,
}

module _ (lib : Primitives) (hash_token : Text → Text) (compare_password : Text → Text → Bool)
    (dummy_hash : Text) (seconds : ℕ → ℕ) where
  fail_login : Text → ℕ → Site → Site
  fail_login username now site = record site {
    throttle = cleanup (record_failure lib.to_lower site.throttle username now) now;
  }

  abbrev pub hash_of : Option User → Text
  hash_of none = dummy_hash
  hash_of (some u) = u.password_hash

  abbrev new_session : Text → ℕ → ℕ → Session
  new_session token user now = record {
    token_hash = hash_token token;
    user_id = user;
    created_at = seconds now;
    expires_at = seconds now + session_duration;
  }

  challenge : Text → ℕ → ℕ → Site → Site
  challenge token user now site = record site {
    totp =
        delete_expired_pending
          (create_pending site.totp (hash_token token) user (seconds now + pending_duration))
          (seconds now);
  }

  finish_login : Text → Text → ℕ → Site → Option Site → Site × Reply
  unfolding delete_expired
  finish_login username next now site none = (site, server_error)
  finish_login username next now site (some opened) = (
    delete_expired (seconds now) (record opened {
      throttle = cleanup (record_success lib.to_lower opened.throttle username) now;
    }),
    forward next,
  )

  start_session : Text → Text → Text → ℕ → ℕ → Site → Site × Reply
  unfolding finish_login create_session
  start_session username next token user now site =
      finish_login username next now site (create_session (new_session token user now) site)

  admit : Text → Text → Text → ℕ → ℕ → Site → Site × Reply
  unfolding challenge start_session
  admit username next token user now site =
      if is_enabled (get site.totp user)
      then (challenge token user now site, challenged)
      else start_session username next token user now site

  unfoldable pub login : Text → Text → Text → Text → ℕ → Site → Site × Reply
  unfolding fail_login admit safe_next
  login name password next token now site =
      let username = trim_space name in
      let user = get_by_username username site.users in
      if not (allowed lib.to_lower site.throttle username now).0
      then (site, rate_limited)
      else if compare_password (hash_of user) password
      then admit username (safe_next next) token (id_of user) now site
      else (fail_login username now site, bad_credentials)

  opened_or_failed : Text → Site → Option Site → Site × Reply
  opened_or_failed next site none = (site, server_error)
  opened_or_failed next site (some opened) = (opened, forward next)

  -- The challenge is used up.
  pass_challenge : Text → Text → Text → ℕ → User → Site → Site × Reply
  unfolding opened_or_failed create_session
  pass_challenge cookie next token now u site =
      let used : Site = record site {
        throttle = record_success lib.to_lower site.throttle u.username;
        totp = delete_pending site.totp (hash_token cookie);
      } in
      opened_or_failed next used (create_session (new_session token u.id now) used)

  try_factor :
      Text → Text → Text → Text → Text → ℕ → ℕ → User → Site → Option UserTotp → Site × Reply
  unfolding pass_challenge fail_login
  try_factor cookie code recovery next token now checked_at u site none = (site, server_error)
  try_factor cookie code recovery next token now checked_at u site (some t) =
      let (totp, accepted) =
        verify_second_factor lib hash_token site.totp u.id t.secret code recovery checked_at in
      let tried : Site = record site { totp = totp } in
      if accepted
      then pass_challenge cookie next token now u tried
      else (fail_login u.username now tried, bad_factor)

  answer_challenge : Text → Text → Text → Text → Text → ℕ → ℕ → Site → Option User → Site × Reply
  unfolding try_factor
  answer_challenge cookie code recovery next token now checked_at site none = (site, server_error)
  answer_challenge cookie code recovery next token now checked_at site (some u) =
      if not (allowed lib.to_lower site.throttle u.username now).0
      then (site, rate_limited)
      else try_factor cookie code recovery next token now checked_at u site (get site.totp u.id)

  find_challenged : Text → Text → Text → Text → Text → ℕ → ℕ → Site → Option ℕ → Site × Reply
  unfolding answer_challenge
  find_challenged cookie code recovery next token now checked_at site none = (site, sign_in)
  find_challenged cookie code recovery next token now checked_at site (some user) =
      answer_challenge cookie code recovery next token now checked_at site
        (get_user user site.users)

  -- `verifySecondFactor` reads the clock once more, at `checked_at`, in seconds.
  unfoldable pub verify_2fa : Text → Text → Text → Text → Text → ℕ → ℕ → Site → Site × Reply
  unfolding find_challenged safe_next
  verify_2fa cookie code recovery next token now checked_at site =
      if cookie == []
      then (site, sign_in)
      else find_challenged cookie code recovery (safe_next next) token now checked_at site
          (pending_user site.totp (hash_token cookie) (seconds now))

  unfoldable pub logout : Text → Site → Site
  unfolding delete_by_token
  logout cookie site = if cookie == [] then site else delete_by_token (hash_token cookie) site

  -- The sessions of `user`, but for that of the request where an admin resets their own factor.
  unfoldable pub revoke_sessions : ℕ → ℕ → Text → Site → Site
  unfolding delete_other_sessions delete_by_user
  revoke_sessions actor user cookie site =
      if actor == user && not (cookie == [])
      then delete_other_sessions user (hash_token cookie) site
      else delete_by_user user site

  reset_found : ℕ → ℕ → Text → Site → Option User → Option Site
  unfolding revoke_sessions
  reset_found actor user cookie site none = none
  reset_found actor user cookie site (some u) =
      some (revoke_sessions actor user cookie (record site { totp = disable site.totp user }))

  -- `none` for a user that is missing.
  unfoldable pub reset_user_2fa : ℕ → ℕ → Text → Site → Option Site
  unfolding reset_found
  reset_user_2fa actor user cookie site =
      reset_found actor user cookie site (get_user user site.users)
