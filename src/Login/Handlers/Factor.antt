-- ===== src/Login/Handlers/Factor.antt =====
-- Who gets a session by a second factor: `verify2FA` and `resetUser2FA` of internal/web/totp.go.
use almanaut.Base.{
  Bool, Bool-cases, List, Option-cases, [], any, ap, arith, beq_refl, bool_eq, false, inl, inr,
  list_eq, lt→ltb, nat_beq_iff, nat_eq, none, pair_eq, refl, some, string_eq, sym, true, ℕ, ◌+◌,
  ◌<◌, ◌==◌, ◌∙◌, ◌∷◌, ◌≡◌, ◌⊎◌,
}
use almanaut.Base.Assoc.{lookup-delete}
use almanaut.Base.Text.{Text}
use almanaut.Throttle.{allowed}
use almanaut.Totp.{Primitives}
use almanaut.Totp.Store.{TotpDb, UserTotp, delete_pending, get, pending_user, unexpired}
use almanaut.Totp.Factor.{verify_second_factor}
use almanaut.Login.{
  Reply, Site, User, create_session, forward, get_user, safe_next, session_duration,
}
use almanaut.Login.Handlers.{
  answer_challenge, fail_login, find_challenged, opened_or_failed, pass_challenge, try_factor,
  verify_2fa,
}
use almanaut.Login.Handlers.Grants.{any-append, appended, opens}

get_user-id : (id : ℕ) (users : List User) (u : User) → get_user id users ≡ some u → u.id ≡ id
get_user-id id [] u h = absurd (cc h)
get_user-id id (v ∷ users) u h = elim (Bool-cases (v.id == id)) [
  | inl here ↦
      let head : some v ≡ some u = rw here at h in
      let e : v ≡ u = cc head in sym (ap (λ (x : User). x.id) e) ∙ (nat_beq_iff v.id id).0 here
  | inr other ↦ get_user-id id users u (rw other at h)
]

get_user-known :
    (id : ℕ) (users : List User) (u : User)
    → get_user id users ≡ some u
    → any (λ v. v.id == id) users ≡ true
get_user-known id [] u h = absurd (cc h)
get_user-known id (v ∷ users) u h = elim (Bool-cases (v.id == id)) [
  | inl here ↦ ground (arith, here)
  | inr other ↦ ground (arith, get_user-known id users u (rw other at h))
]

deleted_pending :
    (db : TotpDb) (token_hash : Text) (at : ℕ)
    → pending_user (delete_pending db token_hash) token_hash at ≡ none
unfolding pending_user delete_pending unexpired
deleted_pending db token_hash at =
    rw (lookup-delete token_hash token_hash db.pending, beq_refl token_hash) refl

module _ (lib : Primitives) (hash_token : Text → Text) (compare_password : Text → Text → Bool)
    (dummy_hash : Text) (seconds : ℕ → ℕ) where
  -- An open challenge names the user, a factor of theirs was accepted, and the challenge is used up.
  pub record FactorEarns (cookie code recovery token : Text) (now checked_at : ℕ)
      (site after : Site) (key : Text) (user : ℕ) : Type 0 where
    pub owner : User
    pub challenged_user : pending_user site.totp (hash_token cookie) (seconds now) ≡ some user
    pub known : get_user user site.users ≡ some owner
    pub not_locked : (allowed lib.to_lower site.throttle owner.username now).0 ≡ true
    pub factor : UserTotp
    pub its_factor : get site.totp user ≡ some factor
    pub factor_fits :
        (verify_second_factor lib hash_token site.totp user factor.secret code recovery
          checked_at).1
        ≡ true
    pub its_token : key ≡ hash_token token
    pub used_up : (at : ℕ) → pending_user after.totp (hash_token cookie) at ≡ none

  pass_challenge-opens :
      (cookie next token : Text) (now : ℕ) (u : User) (site : Site) (key : Text) (user at : ℕ)
      → opens
          (pass_challenge lib hash_token compare_password dummy_hash seconds cookie next token now u
            site).0.sessions
          key
          user
          at
        ≡ true
      → (opens site.sessions key user at ≡ true) ⊎ ((key ≡ hash_token token) × (user ≡ u.id))
  unfolding pass_challenge opened_or_failed create_session
  pass_challenge-opens cookie next token now u site key user at h =
      elim (Bool-cases (any (λ v. v.id == u.id) site.users)) [
        | inl known ↦ appended site.sessions _ key user at (rw known at h)
        | inr unknown ↦ inl (rw unknown at h)
      ]

  pass_challenge-used_up :
      (cookie next token : Text) (now : ℕ) (u : User) (site : Site) (at : ℕ)
      → pending_user
          (pass_challenge lib hash_token compare_password dummy_hash seconds cookie next token now u
            site).0.totp
          (hash_token cookie)
          at
        ≡ none
  unfolding pass_challenge opened_or_failed create_session
  pass_challenge-used_up cookie next token now u site at =
      elim (Bool-cases (any (λ v. v.id == u.id) site.users)) [
        | inl known ↦ rw known (deleted_pending site.totp (hash_token cookie) at)
        | inr unknown ↦ rw unknown (deleted_pending site.totp (hash_token cookie) at)
      ]

  verify_2fa-FactorEarns :
      (cookie code recovery next token : Text) (now checked_at : ℕ) (site : Site) (key : Text)
      (user at : ℕ)
      → opens
          (verify_2fa lib hash_token compare_password dummy_hash seconds cookie code recovery next
            token now checked_at site).0.sessions
          key
          user
          at
        ≡ true
      → (opens site.sessions key user at ≡ true)
        ⊎ FactorEarns cookie code recovery token now checked_at site
            (verify_2fa lib hash_token compare_password dummy_hash seconds cookie code recovery next
              token now checked_at site).0
            key
            user
  unfolding verify_2fa find_challenged answer_challenge try_factor fail_login
  verify_2fa-FactorEarns cookie code recovery next token now checked_at site key user at h =
      elim (Bool-cases (cookie == [])) [
        | inl none_sent ↦ inl (rw none_sent at h)
        | inr sent ↦
            elim (Option-cases (pending_user site.totp (hash_token cookie) (seconds now))) [
              | inl nobody ↦ inl (rw (sent, nobody) at h)
              | inr (id, waiting) ↦ elim (Option-cases (get_user id site.users)) [
                | inl gone ↦ inl (rw (sent, waiting, gone) at h)
                | inr (u, known) ↦
                    elim (Bool-cases (allowed lib.to_lower site.throttle u.username now).0) [
                      | inr locked ↦ inl (rw (sent, waiting, known, locked) at h)
                      | inl free ↦ elim (Option-cases (get site.totp u.id)) [
                        | inl bare ↦ inl (rw (sent, waiting, known, free, bare) at h)
                        | inr (t, its_row) ↦
                            let tried =
                              verify_second_factor lib hash_token site.totp u.id t.secret code
                                recovery checked_at in
                            elim (Bool-cases tried.1) [
                              | inr wrong ↦
                                  inl (rw (sent, waiting, known, free, its_row, wrong) at h)
                              | inl right ↦
                                  let after : Site = record site { totp = tried.0 } in
                                  let same : user ≡ u.id → user ≡ id =
                                    λ b. b ∙ get_user-id id site.users u known in
                                  elim (pass_challenge-opens cookie (safe_next next) token now u
                                    after key user at
                                    (rw (sent, waiting, known, free, its_row, right) at h)) [
                                      | inl old ↦ inl old
                                      | inr (a, b) ↦ inr (record {
                                        owner = u;
                                        challenged_user = rw (same b) waiting;
                                        known = rw (same b) known;
                                        not_locked = free;
                                        factor = t;
                                        its_factor = rw b its_row;
                                        factor_fits = rw b right;
                                        its_token = a;
                                        used_up = λ later.
                                            rw (sent, waiting, known, free, its_row, right)
                                              (pass_challenge-used_up cookie (safe_next next) token
                                                now u after later);
                                      })
                                    ]
                            ]
                      ]
                    ]
              ]
            ]
      ]

  pass_challenge-open :
      (cookie next token : Text) (now : ℕ) (u : User) (site : Site) (at : ℕ)
      → any (λ v. v.id == u.id) site.users ≡ true
      → at < seconds now + session_duration
      → ((pass_challenge lib hash_token compare_password dummy_hash seconds cookie next token now u
            site).1
          ≡ forward next)
        × (opens
              (pass_challenge lib hash_token compare_password dummy_hash seconds cookie next token
                now u site).0.sessions
              (hash_token token)
              u.id
              at
            ≡ true)
  unfolding pass_challenge opened_or_failed create_session
  pass_challenge-open cookie next token now u site at known early = (
    rw known refl,
    rw known (
        any-append _ site.sessions _
        ∙ ground (
          arith,
          lt→ltb at (seconds now + session_duration) early,
          beq_refl (hash_token token),
          beq_refl u.id,
        )),
  )

  -- Answering a challenge opens no session but one: every token that opens a session after it opened
  -- it before, or it is the one drawn for this answer, and then an open challenge names the user of
  -- the session, a code or a recovery code of their second factor was accepted, their name was not
  -- locked out, and the challenge is used up. And where all of this holds and there is a cookie, the
  -- answer leads to the page that was asked for, and the token opens a session of the user until the
  -- session's duration is over.
  pub verify_2fa_lem :
      (cookie code recovery next token : Text) (now checked_at : ℕ) (site : Site)
      → let answered : Site × Reply =
          verify_2fa lib hash_token compare_password dummy_hash seconds cookie code recovery next
            token now checked_at site in
        ((key : Text) (user at : ℕ)
          → opens answered.0.sessions key user at ≡ true
          → (opens site.sessions key user at ≡ true)
            ⊎ FactorEarns cookie code recovery token now checked_at site answered.0 key user)
        × ((user at : ℕ)
            → (cookie == []) ≡ false
            → FactorEarns cookie code recovery token now checked_at site answered.0
                (hash_token token)
                user
            → at < seconds now + session_duration
            → (answered.1 ≡ forward (safe_next next))
              × (opens answered.0.sessions (hash_token token) user at ≡ true))
  unfolding verify_2fa find_challenged answer_challenge try_factor
  verify_2fa_lem cookie code recovery next token now checked_at site = (
    verify_2fa-FactorEarns cookie code recovery next token now checked_at site,
    λ user at sent e early.
        let its_id : user ≡ e.owner.id = sym (get_user-id user site.users e.owner e.known) in
        let in_table : any (λ v. v.id == e.owner.id) site.users ≡ true =
          rw (← its_id) (get_user-known user site.users e.owner e.known) in
        let row : get site.totp e.owner.id ≡ some e.factor = rw (← its_id) e.its_factor in
        let fits : (verify_second_factor lib hash_token site.totp e.owner.id e.factor.secret code
              recovery checked_at).1
            ≡ true =
          rw (← its_id) e.factor_fits in
        rw (sent, e.challenged_user, e.known, e.not_locked, row, fits, its_id)
          (pass_challenge-open cookie (safe_next next) token now e.owner _ at in_table early),
  )
