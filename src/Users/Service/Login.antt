-- ===== src/Users/Service/Login.antt =====
-- Proofs about `Login` of internal/service/auth.go, and about its token in the session middleware.
use realm_api.Common.{
  ℕ, ◌+◌, ◌≤◌, ◌≡◌, inl, inr, refl, Bool, true, false, Option, none, some, List, Text, txt,
  is_empty, trim_space, ltb, arith, Option-cases, Bool-cases, eqb_iff,
}
use Prim.Native.String.{String}
use realm_api.Errors.{ok, Result-cases}
use realm_api.Env.{Env}
use realm_api.Auth.Paseto.{IsSealed, claims_for, generate_token, generate_2fa_temp_token}
use realm_api.Auth.Paseto.Laws.{verify_token-generate_token, verify_token-generate_2fa_temp_token}
use realm_api.Middleware.{Request, reject, proceed, extract_user_raw_token}
use realm_api.Middleware.Token.{session_locals}
use realm_api.Middleware.Session.{require_user_auth}
use realm_api.Users.{User, OAuthAccount, AuthResponse, to_dto_with_accounts}
use realm_api.Users.Repo.{Db, find, norm, is_named, get_by_identifier}
use realm_api.Users.Service.{
  Libraries, LoginInput, get_connected_accounts, matches_password, finish_login, login, session,
  subject_of, token_ttl, challenge_ttl, granted, challenged,
}

get_by_identifier-eq-ok :
    (table : ℕ → ℕ) (fails : Bool) (identifier : Text) (db : Db) (u : User)
    → get_by_identifier table fails identifier db ≡ ok u
    → find (is_named (norm table identifier)) db.users ≡ some u
unfolding get_by_identifier
get_by_identifier-eq-ok table fails identifier db u h =
    elim (Option-cases (find (is_named (norm table identifier)) db.users)) [
      | inl missing ↦ absurd (ground arith)
      | inr (v, found) ↦ ground arith
    ]

module _ (l : Libraries) (e : Env) (nonce : ℕ) (input : LoginInput) where
  -- The user that the login is for.
  pub record Found (db : Db) (u : User) : Type 0 where
    pub found : find (is_named (norm l.lower (trim_space input.identifier))) db.users ≡ some u
    pub active : u.is_active ≡ true
    pub matches : matches_password l u.password_hash input.password ≡ true

  pub login-eq-ok :
      (db : Db) (r : AuthResponse)
      → login l e nonce input (some db) ≡ ok r
      → (u : User) × Found db u
        × (finish_login l nonce (e.clock 0) u (get_connected_accounts (e.fails 1) u.id db) ≡ ok r)
  unfolding login
  login-eq-ok db r h =
      elim (Result-cases (get_by_identifier l.lower (e.fails 0) (trim_space input.identifier) db)) [
        | inr (x, bad) ↦ absurd (ground arith)
        | inl (u, good) ↦ (
          u,
          record {
            found =
                get_by_identifier-eq-ok l.lower (e.fails 0) (trim_space input.identifier) db u good;
            active = ground arith;
            matches = ground arith;
          },
          ground arith,
        )
      ]

  -- what the login of a user answers: a challenge only, or a session only
  pub data Answer (u : User) (accounts : List OAuthAccount) : AuthResponse → Type 0 where
    second_factor :
        (token : Text)
        → u.two_factor_enabled ≡ true
        → generate_2fa_temp_token l.paseto l.key nonce (e.clock 0) challenge_ttl (subject_of l u)
          ≡ ok token
        → Answer u accounts (challenged token (to_dto_with_accounts u accounts))
    first_factor :
        (token : Text)
        → u.two_factor_enabled ≡ false
        → generate_token l.paseto l.key nonce (e.clock 0) token_ttl (subject_of l u) ≡ ok token
        → Answer u accounts (granted "Login successful" token (to_dto_with_accounts u accounts))

  pub finish_login-Answer :
      (u : User) (accounts : List OAuthAccount) (r : AuthResponse)
      → finish_login l nonce (e.clock 0) u accounts ≡ ok r
      → Answer u accounts r
  unfolding finish_login session
  finish_login-Answer u accounts r h = elim (Bool-cases u.two_factor_enabled) [
    | inl on ↦
        elim (Result-cases (
          generate_2fa_temp_token l.paseto l.key nonce (e.clock 0) challenge_ttl
            (subject_of l u))) [
              | inr (x, bad) ↦ absurd (ground arith)
              | inl (token, good) ↦
                  let same : challenged token (to_dto_with_accounts u accounts) ≡ r =
                    ground arith in
                  rw (← same) (second_factor token on good)
            ]
    | inr off ↦
        elim (Result-cases
          (generate_token l.paseto l.key nonce (e.clock 0) token_ttl (subject_of l u))) [
            | inr (x, bad) ↦ absurd (ground arith)
            | inl (token, good) ↦
                let same : granted "Login successful" token (to_dto_with_accounts u accounts) ≡ r =
                  ground arith in
                rw (← same) (first_factor token off good)
          ]
  ]

  -- A login succeeds only for the first user whose address or name is the identifier, if that user is
  -- active and has a password that the given one matches. Its answer is a challenge without a session
  -- if the second factor is on, and a session without a challenge if it is off.
  pub login_sound :
      (repo : Option Db) (r : AuthResponse)
      → login l e nonce input repo ≡ ok r
      → (db : Db) × (u : User) × (repo ≡ some db)
        × Found db u
        × Answer u (get_connected_accounts (e.fails 1) u.id db) r
  unfolding login
  login_sound none r h = absurd (ground arith)
  login_sound (some db) r h =
      let (u, f, done) = login-eq-ok db r h in
      (db, u, refl, f, finish_login-Answer u (get_connected_accounts (e.fails 1) u.id db) r done)

  module _ (sealed : IsSealed l.paseto) (now : ℕ) (c : Request) where
    challenge-rejected :
        (u : User) (accounts : List OAuthAccount) (r : AuthResponse)
        → Answer u accounts r
        → r.two_factor_required ≡ true
        → extract_user_raw_token c ≡ r.temp_token
        → (m : String) × (require_user_auth l.uuid now (some l.paseto) l.key c ≡ reject 401 m)
    unfolding require_user_auth claims_for
    challenge-rejected u accounts _ (first_factor token off good) t h = absurd (cc)
    challenge-rejected u accounts _ (second_factor token on good) t h =
        let v =
          verify_token-generate_2fa_temp_token l.paseto l.key sealed nonce (e.clock 0) challenge_ttl
            now (subject_of l u) token good in
        elim (Bool-cases (is_empty (extract_user_raw_token c))) [
          | inl missing ↦ ("Unauthorized: missing authentication token", ground arith)
          | inr full ↦ elim (Bool-cases (ltb (e.clock 0 + challenge_ttl) now)) [
            | inl late ↦ ("Unauthorized: invalid or expired session", ground arith)
            | inr early ↦ (
              "Unauthorized: two-factor authentication verification required",
              ground (arith, eqb_iff (txt "2fa_challenge") (txt "2fa_challenge")),
            )
          ]
        ]

    -- The challenge that a login gives never passes the session middleware, at any time and in any
    -- request, provided that the library reads back what it sealed: the answer is status 401.
    pub login-challenge :
        (repo : Option Db) (r : AuthResponse)
        → login l e nonce input repo ≡ ok r
        → r.two_factor_required ≡ true
        → extract_user_raw_token c ≡ r.temp_token
        → (m : String) × (require_user_auth l.uuid now (some l.paseto) l.key c ≡ reject 401 m)
    login-challenge repo r done t h =
        let (db, u, here, f, answer) = login_sound repo r done in
        challenge-rejected u (get_connected_accounts (e.fails 1) u.id db) r answer t h

    session-accepted :
        (u : User) (accounts : List OAuthAccount) (r : AuthResponse)
        → Answer u accounts r
        → r.two_factor_required ≡ false
        → extract_user_raw_token c ≡ r.token
        → is_empty r.token ≡ false
        → l.uuid.parse (l.uuid.text u.id) ≡ some u.id
        → now ≤ e.clock 0 + token_ttl
        → require_user_auth l.uuid now (some l.paseto) l.key c
          ≡ proceed (
              session_locals
                (claims_for (txt "auth") (e.clock 0) token_ttl (subject_of l u))
                u.id
                none)
    unfolding require_user_auth claims_for
    session-accepted u accounts _ (second_factor token on good) t h full uuid early = absurd (cc)
    session-accepted u accounts _ (first_factor token off good) t h full uuid early =
        let v =
          verify_token-generate_token l.paseto l.key sealed nonce (e.clock 0) token_ttl now
            (subject_of l u) token good in
        ground (arith, eqb_iff (txt "auth") (txt "2fa_challenge"))

    -- The session that a login gives passes the session middleware for seven days from then on, in any
    -- request that carries it, with the identifier of the user who logged in. The libraries must read
    -- back what they sealed and what they printed, and the token must not be empty.
    pub login-session :
        (repo : Option Db) (r : AuthResponse)
        → login l e nonce input repo ≡ ok r
        → r.two_factor_required ≡ false
        → extract_user_raw_token c ≡ r.token
        → is_empty r.token ≡ false
        → ((id : ℕ) → l.uuid.parse (l.uuid.text id) ≡ some id)
        → now ≤ e.clock 0 + token_ttl
        → (db : Db) × (u : User) × (repo ≡ some db)
          × Found db u
          × (require_user_auth l.uuid now (some l.paseto) l.key c
              ≡ proceed (
                  session_locals
                    (claims_for (txt "auth") (e.clock 0) token_ttl (subject_of l u))
                    u.id
                    none))
    login-session repo r done t h full uuid early =
        let (db, u, here, f, answer) = login_sound repo r done in
        (
          db,
          u,
          here,
          f,
          session-accepted u (get_connected_accounts (e.fails 1) u.id db) r answer t h full
              (uuid u.id) early,
        )
