-- ===== src/Login/Handlers/Grants.antt =====
-- Who gets a session: internal/web/auth.go and totp.go.
use almanaut.Base.Text.{Text, trim_space}
use almanaut.Totp.{Primitives}
use almanaut.Throttle.{allowed}
use almanaut.Totp.Store.{get}
use almanaut.Login.{
  Session, Site, User, create_session, delete_expired, forward, get_by_username, is_enabled,
  safe_next, session_duration,
}
use almanaut.Login.Handlers.{admit, challenge, fail_login, finish_login, login, start_session}
use almanaut.Base.{
  Bool, Bool-cases, List, Option-cases, [], any, ap, arith, beq_refl, bool_eq, false, inl, inr,
  list_beq_iff, list_eq, ltb, lt→ltb, nat_beq_iff, nat_eq, pair_eq, refl, select, some, string_eq,
  sym, true, ℕ, ◌&&◌, ◌++◌, ◌+◌, ◌<◌, ◌==◌, ◌||◌, ◌∙◌, ◌∷◌, ◌≡◌, ◌⊎◌,
}

-- Until `at`, the token opens a session of the user.
abbrev pub opens : List Session → Text → ℕ → ℕ → Bool
opens sessions token_hash user at =
    any (λ s. s.token_hash == token_hash && s.user_id == user && ltb at s.expires_at) sessions

any-select :
    {A : Type 0} (p q : A → Bool) (xs : List A) → any p (select q xs) ≡ true → any p xs ≡ true
any-select p q [] h = h
any-select p q (x ∷ xs) h = ground (arith, any-select p q xs)

pub any-append :
    {A : Type 0} (p : A → Bool) (xs ys : List A) → any p (xs ++ ys) ≡ (any p xs || any p ys)
any-append p [] ys = refl
any-append p (x ∷ xs) ys = ground (arith, any-append p xs ys)

known_user :
    (username : Text) (users : List User) (u : User)
    → get_by_username username users ≡ some u
    → (u.username ≡ username) × (any (λ v. v.id == u.id) users ≡ true)
known_user username [] u h = absurd (cc h)
known_user username (v ∷ users) u h = elim (Bool-cases (v.username == username)) [
  | inl here ↦
      let head : some v ≡ some u = rw here at h in
      let e : v ≡ u = cc head in
      (
        sym (ap (λ (x : User). x.username) e) ∙ (list_beq_iff v.username username).0 here,
        ground (arith, (nat_beq_iff v.id u.id).1 (ap (λ (x : User). x.id) e)),
      )
  | inr other ↦ let (p, q) = known_user username users u (rw other at h) in (p, ground (arith, q))
]

pub appended :
    (sessions : List Session) (s : Session) (key : Text) (user at : ℕ)
    → opens (sessions ++ s ∷ []) key user at ≡ true
    → (opens sessions key user at ≡ true) ⊎ ((key ≡ s.token_hash) × (user ≡ s.user_id))
appended sessions s key user at h = elim (Bool-cases (opens sessions key user at)) [
  | inl old ↦ inl old
  | inr new ↦
      let split =
        sym (
          any-append (λ x. x.token_hash == key && x.user_id == user && ltb at x.expires_at) sessions
            (s ∷ []))
        ∙ h in
      inr (
        sym ((list_beq_iff s.token_hash key).0 (ground (arith, split, new))),
        sym ((nat_beq_iff s.user_id user).0 (ground (arith, split, new))),
      )
]

any-select-last :
    {A : Type 0} (p q : A → Bool) (xs : List A) (a : A)
    → p a ≡ true
    → q a ≡ true
    → any p (select q (xs ++ a ∷ [])) ≡ true
any-select-last p q [] a h k = rw k (ground (arith, h))
any-select-last p q (x ∷ xs) a h k = ground (arith, any-select-last p q xs a)

module _ (lib : Primitives) (hash_token : Text → Text) (compare_password : Text → Text → Bool)
    (dummy_hash : Text) (seconds : ℕ → ℕ) where
  start_session-opens :
      (username next token : Text) (id now : ℕ) (site : Site) (key : Text) (user at : ℕ)
      → opens
          (start_session lib hash_token compare_password dummy_hash seconds username next token id
            now site).0.sessions
          key
          user
          at
        ≡ true
      → (opens site.sessions key user at ≡ true)
        ⊎ ((key ≡ hash_token token) × (user ≡ id) × (any (λ u. u.id == id) site.users ≡ true))
  unfolding start_session create_session finish_login delete_expired
  start_session-opens username next token id now site key user at h =
      elim (Bool-cases (any (λ u. u.id == id) site.users)) [
        | inl known ↦
            let s : Session = record {
              token_hash = hash_token token;
              user_id = id;
              created_at = seconds now;
              expires_at = seconds now + session_duration;
            } in
            let p : Session → Bool =
              λ x. x.token_hash == key && x.user_id == user && ltb at x.expires_at in
            let q : Session → Bool = λ x. ltb (seconds now) x.expires_at in
            let kept : any p (select q (site.sessions ++ s ∷ [])) ≡ true = rw known at h in
            elim (appended site.sessions s key user at
              (any-select p q (site.sessions ++ s ∷ []) kept)) [
                | inl old ↦ inl old
                | inr (a, b) ↦ inr (a, b, known)
              ]
        | inr unknown ↦ inl (rw unknown at h)
      ]

  admit-opens :
      (username next token : Text) (id now : ℕ) (site : Site) (key : Text) (user at : ℕ)
      → opens
          (admit lib hash_token compare_password dummy_hash seconds username next token id now
            site).0.sessions
          key
          user
          at
        ≡ true
      → (opens site.sessions key user at ≡ true)
        ⊎ ((key ≡ hash_token token)
            × (user ≡ id)
            × (any (λ u. u.id == id) site.users ≡ true)
            × (is_enabled (get site.totp id) ≡ false))
  unfolding admit challenge
  admit-opens username next token id now site key user at h =
      elim (Bool-cases (is_enabled (get site.totp id))) [
        | inl factor ↦ inl (rw factor at h)
        | inr plain ↦
            elim (start_session-opens username next token id now site key user at (rw plain at h)) [
              | inl old ↦ inl old
              | inr (a, b, c) ↦ inr (a, b, c, plain)
            ]
      ]

  -- A password was right, no second factor is enabled, and the name was not locked out.
  pub record LoginEarns (name password token : Text) (now : ℕ) (site : Site) (key : Text) (user : ℕ)
      : Type 0 where
    pub owner : User
    pub known : get_by_username (trim_space name) site.users ≡ some owner
    pub its_id : user ≡ owner.id
    pub password_fits : compare_password owner.password_hash password ≡ true
    pub no_factor : is_enabled (get site.totp owner.id) ≡ false
    pub not_locked : (allowed lib.to_lower site.throttle (trim_space name) now).0 ≡ true
    pub its_token : key ≡ hash_token token

  login-LoginEarns :
      (name password next token : Text) (now : ℕ) (site : Site) (key : Text) (user at : ℕ)
      → any (λ u. u.id == 0) site.users ≡ false
      → opens
          (login lib hash_token compare_password dummy_hash seconds name password next token now
            site).0.sessions
          key
          user
          at
        ≡ true
      → (opens site.sessions key user at ≡ true) ⊎ LoginEarns name password token now site key user
  unfolding login admit challenge fail_login
  login-LoginEarns name password next token now site key user at no_zero h =
      elim (Bool-cases (allowed lib.to_lower site.throttle (trim_space name) now).0) [
        | inr locked ↦ inl (rw locked at h)
        | inl free ↦ elim (Option-cases (get_by_username (trim_space name) site.users)) [
          | inl unknown ↦ elim (Bool-cases (compare_password dummy_hash password)) [
            | inr wrong ↦ inl (rw (free, unknown, wrong) at h)
            | inl right ↦
                elim (admit-opens (trim_space name) (safe_next next) token 0 now site key user at
                  (rw (free, unknown, right) at h)) [
                    | inl old ↦ inl old
                    | inr (a, b, zero_user, d) ↦ absurd (cc (no_zero, zero_user))
                  ]
          ]
          | inr (u, known) ↦ elim (Bool-cases (compare_password u.password_hash password)) [
            | inr wrong ↦ inl (rw (free, known, wrong) at h)
            | inl right ↦
                elim (admit-opens (trim_space name) (safe_next next) token u.id now site key user at
                  (rw (free, known, right) at h)) [
                    | inl old ↦ inl old
                    | inr (a, b, c, d) ↦ inr (record {
                      owner = u;
                      known = known;
                      its_id = b;
                      password_fits = right;
                      no_factor = d;
                      not_locked = free;
                      its_token = a;
                    })
                  ]
          ]
        ]
      ]

  start_session-open :
      (username next token : Text) (id now : ℕ) (site : Site) (at : ℕ)
      → any (λ u. u.id == id) site.users ≡ true
      → at < seconds now + session_duration
      → ((start_session lib hash_token compare_password dummy_hash seconds username next token id
            now site).1
          ≡ forward next)
        × (opens
              (start_session lib hash_token compare_password dummy_hash seconds username next token
                id now site).0.sessions
              (hash_token token)
              id
              at
            ≡ true)
  unfolding start_session create_session finish_login delete_expired
  start_session-open username next token id now site at known early = (
    rw known refl,
    rw known (
        any-select-last _ _ site.sessions _
          (ground (arith, early, beq_refl (hash_token token), beq_refl id))
          (lt→ltb _ _ (omega arith))),
  )

  -- A login opens no session but one: every token that opens a session after it opened it before,
  -- or it is the one drawn for this login, and then the session is that of the user who was named,
  -- the password was right, the user has no second factor enabled, and the name was not locked out.
  -- And where all of this holds, the login answers with the page that was asked for, and the token
  -- opens a session of the user until the session's duration is over. User ids start at 1.
  pub login_lem :
      (name password next token : Text) (now : ℕ) (site : Site)
      → any (λ u. u.id == 0) site.users ≡ false
      → ((key : Text) (user at : ℕ)
          → opens
              (login lib hash_token compare_password dummy_hash seconds name password next token now
                site).0.sessions
              key
              user
              at
            ≡ true
          → (opens site.sessions key user at ≡ true)
            ⊎ LoginEarns name password token now site key user)
        × ((user at : ℕ)
            → LoginEarns name password token now site (hash_token token) user
            → at < seconds now + session_duration
            → ((login lib hash_token compare_password dummy_hash seconds name password next token
                  now site).1
                ≡ forward (safe_next next))
              × (opens
                    (login lib hash_token compare_password dummy_hash seconds name password next
                      token now site).0.sessions
                    (hash_token token)
                    user
                    at
                  ≡ true))
  unfolding login admit
  login_lem name password next token now site no_zero = (
    λ key user at. login-LoginEarns name password next token now site key user at no_zero,
    λ user at e early.
        rw (e.not_locked, e.known, e.password_fits, e.no_factor, e.its_id)
          (start_session-open (trim_space name) (safe_next next) token e.owner.id now site at
            (known_user (trim_space name) site.users e.owner e.known).1 early),
  )
