-- ===== src/Users/Service/Moves.antt =====
-- Proofs that relate registration and the login through a provider to internal/repository/user.go.
use realm_api.Common.{
  ℕ, ◌≡◌, inl, inr, refl, Bool, Option, some, Text, arith, Option-cases, Bool-cases, trim_space,
  is_empty,
}
use realm_api.Errors.{Result, ok, err, Result-cases}
use realm_api.Env.{Env}
use realm_api.Users.{is_given, User}
use realm_api.Users.Names.{check_registration}
use realm_api.Users.Repo
use realm_api.Users.Repo.{Db, create, or_same, get_by_id, get_by_email, get_by_oauth_account}
use realm_api.Users.Repo.Update.{update}
use realm_api.Users.Repo.History.{Step, Reach, here, next, created, linked, updated}
use realm_api.Users.Service.{Libraries, RegisterInput, register, new_user}
use realm_api.Users.Service.Profile.{OAuthUserInfo, account_of}
use realm_api.Users.Service.OAuth.{
  Drawn, set_avatar, refresh_avatar, known_account, known_email, choose_name, oauth_user, enter,
  new_account, handle_oauth_login,
}

-- The repository stays, and its tables have changed by steps of the repository only.
abbrev pub Moves : Db → Option Db → Type 0
Moves s repo = (db : Db) × (repo ≡ some db) × Reach s db

pub stays : (s : Db) → Moves s (some s)
stays s = (s, refl, here)

pub moves : {s db : Db} → Reach s db → Moves s (some db)
moves {db} r = (db, refl, r)

or_same-Reach :
    (s db : Db) (r : Result Db)
    → Reach s db
    → ((db' : Db) → r ≡ ok db' → Step db db')
    → Reach s (or_same db r)
or_same-Reach s db (ok db') h step = next h (step db' refl)
or_same-Reach s db (err x) h step = h

module _ (l : Libraries) (e : Env) where
  pub register-Moves :
      (salt nonce id : ℕ) (input : RegisterInput) (db : Db)
      → Moves db (register l e salt nonce id input (some db)).1
  unfolding register
  register-Moves salt nonce id input db =
      let after = (register l e salt nonce id input (some db)).1 in
      let valid =
        check_registration l.parse_address (trim_space input.email) (trim_space input.username)
          input.password (trim_space input.full_name) in
      elim (Result-cases valid) [
        | inr (x, bad) ↦ let same : after ≡ some db = ground arith in rw same (stays db)
        | inl (done, good) ↦ elim (Option-cases (l.hash salt input.password)) [
          | inl unhashed ↦ let same : after ≡ some db = ground arith in rw same (stays db)
          | inr (hash, hashed) ↦
              let user = new_user l id (e.clock 0) hash input in
              elim (Result-cases (create l.lower e 0 id user db)) [
                | inr (x, bad) ↦ let same : after ≡ some db = ground arith in rw same (stays db)
                | inl (db', made) ↦
                    let same : after ≡ some db' = ground arith in
                    rw same (moves (next here (created l.lower e 0 id user made)))
              ]
        ]
      ]

  set_avatar-Reach :
      (fails : Bool) (now : ℕ) (url : Text) (u : User) (s db : Db)
      → Reach s db
      → Reach s (set_avatar fails now url u db).1
  unfolding set_avatar
  set_avatar-Reach fails now url u s db r = elim (Bool-cases (is_given u.avatar_url)) [
    | inl given ↦ rw given r
    | inr without ↦
        let u' : User = record u { avatar_url = some url; updated_at = now } in
        rw without (or_same-Reach s db (update fails u' db) r (λ db' done. updated fails u' done))
  ]

  refresh_avatar-Reach :
      (fails : Bool) (now : ℕ) (url : Text) (u : User) (db : Db)
      → Reach db (refresh_avatar fails now url u db).1
  unfolding refresh_avatar
  refresh_avatar-Reach fails now url u db = elim (Bool-cases (is_empty url)) [
    | inl without ↦ rw without here
    | inr given ↦ rw given (set_avatar-Reach fails now url u db db here)
  ]

  known_account-Reach :
      (account : ℕ) (i : OAuthUserInfo) (u : User) (db : Db)
      → Reach db (known_account e account i u db).1
  unfolding known_account
  known_account-Reach account i u db =
      let a = account_of account (e.clock 1) u.id i in
      let db' = (refresh_avatar (e.fails 2) (e.clock 0) i.avatar_url u db).1 in
      or_same-Reach db db' (Repo.link_oauth_account (e.fails 3) (e.fails 4) a db')
        (refresh_avatar-Reach (e.fails 2) (e.clock 0) i.avatar_url u db)
        (λ _ done. linked (e.fails 3) (e.fails 4) a done)

  known_email-Reach :
      (account : ℕ) (i : OAuthUserInfo) (u : User) (db : Db)
      → Reach db (known_email e account i u db).1
  unfolding known_email
  known_email-Reach account i u db =
      let a = account_of account (e.clock 2) u.id i in
      let link = Repo.link_oauth_account (e.fails 7) (e.fails 8) a db in
      set_avatar-Reach (e.fails 9) (e.clock 3) i.avatar_url u db (or_same db link)
        (or_same-Reach db db link here (λ _ done. linked (e.fails 7) (e.fails 8) a done))

  enter-repo : (d : Drawn) (u : User) (db : Db) → (enter l e d (u, db)).1 ≡ some db
  unfolding enter
  enter-repo d u db = ground arith

  new_account-Moves :
      (d : Drawn) (i : OAuthUserInfo) (db : Db) → Moves db (new_account l e d i db).1
  unfolding new_account
  new_account-Moves d i db =
      let after = (new_account l e d i db).1 in
      elim (Option-cases (choose_name l e d i db)) [
        | inl never ↦ let same : after ≡ some db = ground arith in rw same (stays db)
        | inr (name, chosen) ↦
            let user = oauth_user l (e.clock 4) d i name in
            elim (Result-cases (create l.lower e 10 d.account user db)) [
              | inr (x, bad) ↦ let same : after ≡ some db = ground arith in rw same (stays db)
              | inl (db', made) ↦
                  let account = account_of d.account' (e.clock 4) d.user i in
                  let link = Repo.link_oauth_account (e.fails 13) (e.fails 14) account db' in
                  let same : after ≡ some (or_same db' link) = ground arith in
                  rw same (
                    moves (
                      or_same-Reach db db' link
                        (next here (created l.lower e 10 d.account user made))
                        (λ _ done. linked (e.fails 13) (e.fails 14) account done)))
            ]
      ]

  pub handle_oauth_login-Moves :
      (d : Drawn) (i : OAuthUserInfo) (db : Db) → Moves db (handle_oauth_login l e d i (some db)).1
  unfolding handle_oauth_login
  handle_oauth_login-Moves d i db =
      let after = (handle_oauth_login l e d i (some db)).1 in
      elim (Bool-cases i.email_verified) [
        | inr unverified ↦ let same : after ≡ some db = ground arith in rw same (stays db)
        | inl verified ↦
            elim (Result-cases
              (get_by_oauth_account (e.fails 0) (e.fails 1) i.provider i.provider_id db)) [
                | inl (u, found) ↦ elim (Bool-cases u.is_active) [
                  | inr inactive ↦ let same : after ≡ some db = ground arith in rw same (stays db)
                  | inl active ↦
                      let to = known_account e d.account i u db in
                      let same : after ≡ some to.1 = ground (arith, enter-repo d to.0 to.1) in
                      rw same (moves (known_account-Reach d.account i u db))
                ]
                | inr (x, unknown) ↦
                    elim (Result-cases (get_by_email l.sql_lower (e.fails 6) i.email db)) [
                      | inl (u, found) ↦ elim (Bool-cases u.is_active) [
                        | inr inactive ↦
                            let same : after ≡ some db = ground arith in rw same (stays db)
                        | inl active ↦
                            let to = known_email e d.account i u db in
                            let same : after ≡ some to.1 = ground (arith, enter-repo d to.0 to.1) in
                            rw same (moves (known_email-Reach d.account i u db))
                      ]
                      | inr (y, unnamed) ↦
                          let same : after ≡ (new_account l e d i db).1 = ground arith in
                          rw same (new_account-Moves d i db)
                    ]
              ]
      ]
