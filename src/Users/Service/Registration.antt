-- ===== src/Users/Service/Registration.antt =====
-- Proofs about `Register` and `Login` of internal/service/auth.go.
use realm_api.Common.{
  ℕ, ◌+◌, ◌*◌, ◌≤◌, ◌≡◌, inl, inr, refl, true, false, Option, some, Text, txt, arith, Option-cases,
  is_empty, trim_space, to_lower, any, eqb_iff,
}
use realm_api.Errors.{ok, Result-cases}
use realm_api.Env.{Env, minute}
use realm_api.Users.{User, AuthResponse, to_dto_with_accounts}
use realm_api.Users.Names.{matches_username, check_registration}
use realm_api.Users.Names.Laws.{
  nonempty_name, nonempty_password, check_registration-eq-ok, words_of, to_lower-words,
  to_lower-to_lower, trim_space-words,
}
use realm_api.Users.Repo.{Db, create, find, norm, is_named, get_by_identifier, new_row, with_user}
use realm_api.Users.Repo.Rows.{find-append}
use realm_api.Users.Service.External.{to_dto_with_accounts-id}
use realm_api.Auth.Paseto.{UserClaims, IsSealed, claims_for, generate_token, verify_token}
use realm_api.Users.Service.{
  granted, subject_of, token_ttl, Libraries, RegisterInput, register, login, session, new_user,
  get_connected_accounts, finish_login,
}

-- bcrypt accepts the password of a hash that it made, and no hash is empty.
pub record IsHashing (l : Libraries) : Type 0 where
  pub compare-hash :
      (salt : ℕ) (password hash : Text)
      → l.hash salt password ≡ some hash
      → l.compare hash password ≡ true
  pub hash-nonempty :
      (salt : ℕ) (password hash : Text) → l.hash salt password ≡ some hash → is_empty hash ≡ false

create-local :
    (table : ℕ → ℕ) (e : Env) (first account : ℕ) (user : User) (db db' : Db)
    → user.provider ≡ txt "local"
    → create table e first account user db ≡ ok db'
    → with_user (new_row table user) db ≡ db'
unfolding create
create-local table e first account user db db' here h =
    ground (arith, eqb_iff user.provider (txt "local"))

module _ (l : Libraries) (e f : Env) (salt nonce nonce' id : ℕ) (input : RegisterInput) where
  -- the row that a registration leaves
  abbrev pub row_of : Text → User
  row_of hash = new_row l.lower (new_user l id (e.clock 0) hash input)

  register-eq-ok :
      (db : Db) (repo : Option Db) (r : AuthResponse)
      → register l e salt nonce id input (some db) ≡ (ok r, repo)
      → (hash : Text) × (l.hash salt input.password ≡ some hash)
        × (check_registration l.parse_address
              (trim_space input.email)
              (trim_space input.username)
              input.password
              (trim_space input.full_name)
            ≡ ok tt)
        × (repo ≡ some (with_user (row_of hash) db))
  unfolding register
  register-eq-ok db repo r h =
      let valid =
        check_registration l.parse_address (trim_space input.email) (trim_space input.username)
          input.password (trim_space input.full_name) in
      elim (Result-cases valid) [
        | inr (x, bad) ↦ absurd (ground arith)
        | inl (done, good) ↦ elim (Option-cases (l.hash salt input.password)) [
          | inl unhashed ↦ absurd (ground arith)
          | inr (hash, hashed) ↦
              let user = new_user l id (e.clock 0) hash input in
              elim (Result-cases (create l.lower e 0 id user db)) [
                | inr (x, bad) ↦ absurd (ground arith)
                | inl (db', made) ↦
                    let same = create-local l.lower e 0 id user db db' refl made in
                    (hash, hashed, good, ground arith)
              ]
        ]
      ]

  abbrev name : Text
  name = to_lower l.lower (trim_space input.username)

  name-words :
      matches_username (trim_space input.username) ≡ true
      → (norm l.lower (trim_space input.username) ≡ name) × (norm l.lower name ≡ name)
  name-words h =
      let words = words_of (trim_space input.username) h in
      (
        rw (trim_space-words (trim_space input.username) words) refl,
        rw (trim_space-words name (to_lower-words l.lower (trim_space input.username) words))
            (to_lower-to_lower l.lower (trim_space input.username) words),
      )

  row-found :
      (hash : Text) (db : Db)
      → matches_username (trim_space input.username) ≡ true
      → any (is_named name) db.users ≡ false
      → find
          (is_named (norm l.lower (trim_space input.username)))
          (with_user (row_of hash) db).users
        ≡ some (row_of hash)
  unfolding new_row new_user
  row-found hash db h new =
      let (here, again) = name-words h in
      rw here (
        find-append (is_named name) db.users (row_of hash) new
          (ground (arith, eqb_iff (norm l.lower name) name)))

  login-row :
      (hash : Text) (db : Db)
      → matches_username (trim_space input.username) ≡ true
      → any (is_named name) db.users ≡ false
      → is_empty input.password ≡ false
      → is_empty hash ≡ false
      → l.compare hash input.password ≡ true
      → f.fails 0 ≡ false
      → login l f nonce'
          (record { identifier = input.username; password = input.password })
          (some (with_user (row_of hash) db))
        ≡ finish_login l nonce'
            (f.clock 0)
            (row_of hash)
            (get_connected_accounts (f.fails 1) id (with_user (row_of hash) db))
  unfolding login get_by_identifier new_row new_user
  login-row hash db h new full set right reads =
      let found = row-found hash db h new in
      let typed = nonempty_name (trim_space input.username) h in ground arith

  -- a sealed session is read back while it lasts
  session_read :
      IsSealed l.paseto
      → (now : ℕ) (token : Text) (u : User)
      → l.paseto.encrypt l.key nonce'
          (claims_for (txt "auth") (f.clock 0) token_ttl (subject_of l u))
        ≡ some token
      → now ≤ f.clock 0 + token_ttl
      → verify_token l.paseto l.key now token
        ≡ ok (claims_for (txt "auth") (f.clock 0) token_ttl (subject_of l u))
  unfolding verify_token claims_for
  session_read opens now token u sealed early =
      let c = claims_for (txt "auth") (f.clock 0) token_ttl (subject_of l u) in
      ground (arith, opens l.key nonce' c token sealed)

  -- A user who has registered logs in with the name and the password of the registration, and is asked
  -- for no second factor. The answer names the new identifier, and for seven days its token reads back
  -- as a session, not a challenge, with this identifier and the name of the registration,
  -- trimmed and in lower case. The name must be no address and no name in the tables before, the query
  -- must not fail, bcrypt must accept the password of its own hash, no hash is empty, and tokens can be
  -- sealed and are read back as they were sealed.
  pub login-register :
      IsHashing l
      → IsSealed l.paseto
      → ((key : Text) (n : ℕ) (c : UserClaims) → (t : Text) × (l.paseto.encrypt key n c ≡ some t))
      → (db db' : Db) (r : AuthResponse) (now : ℕ)
      → register l e salt nonce id input (some db) ≡ (ok r, some db')
      → any (is_named name) db.users ≡ false
      → f.fails 0 ≡ false
      → now ≤ f.clock 0 + 7 * 24 * 60 * minute
      → (r' : AuthResponse) × (login l f nonce'
            (record { identifier = input.username; password = input.password })
            (some db')
          ≡ ok r')
        × (r'.two_factor_required ≡ false)
        × (r'.user.id ≡ id)
        × (claims : UserClaims) × (verify_token l.paseto l.key now r'.token ≡ ok claims)
        × (claims.id ≡ l.uuid.text id)
        × (claims.purpose ≡ txt "auth")
        × (claims.username ≡ to_lower l.lower (trim_space input.username))
  unfolding finish_login session generate_token new_row new_user claims_for
  login-register sound opens seals db db' r now h new reads early =
      let (hash, hashed, valid, after) = register-eq-ok db (some db') r h in
      let (address, matches, password, full_name) =
        check_registration-eq-ok l.parse_address (trim_space input.email)
          (trim_space input.username) input.password (trim_space input.full_name) valid in
      let same : with_user (row_of hash) db ≡ db' = cc in
      let accounts = get_connected_accounts (f.fails 1) id (with_user (row_of hash) db) in
      let (token, sealed) =
        seals l.key nonce'
          (claims_for (txt "auth") (f.clock 0) token_ttl (subject_of l (row_of hash))) in
      let logged =
        login-row hash db matches new (nonempty_password input.password password)
          (sound.hash-nonempty salt input.password hash hashed)
          (sound.compare-hash salt input.password hash hashed) reads in
      (
        granted "Login successful" token (to_dto_with_accounts (row_of hash) accounts),
        rw (← same) (rw logged (rw sealed refl)),
        refl,
        to_dto_with_accounts-id (row_of hash) accounts,
        claims_for (txt "auth") (f.clock 0) token_ttl (subject_of l (row_of hash)),
        session_read opens now token (row_of hash) sealed early,
        refl,
        refl,
        (name-words matches).1,
      )
