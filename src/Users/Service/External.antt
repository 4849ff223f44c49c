-- ===== src/Users/Service/External.antt =====
-- Proofs about who is let in by `HandleOAuthLogin` of internal/service/auth.go.
use realm_api.Common.{
  ℕ, ◌≡◌, ◌∙◌, inl, inr, refl, Bool, true, Option, none, some, List, [], ◌∷◌, Text, arith,
  Option-cases,
}
use realm_api.Errors.{ok, err, Err, Result-cases}
use realm_api.Env.{Env}
use realm_api.Users.{
  User, UserDto, OAuthAccount, AuthResponse, merge_accounts, to_dto, to_dto_with_accounts,
}
use realm_api.Users.Repo.{
  Db, get_by_email, get_by_oauth_account, create, or_same, link_oauth_account,
}
use realm_api.Users.Service.{Libraries, get_connected_accounts}
use realm_api.Users.Service.Profile.{OAuthUserInfo, account_of}
use realm_api.Users.Service.OAuth.{
  Drawn, set_avatar, refresh_avatar, known_account, known_email, oauth_user, choose_name, enter,
  new_account, handle_oauth_login,
}

merge_accounts-id :
    (accounts : List OAuthAccount) (d : UserDto)
    → ((merge_accounts accounts d).id ≡ d.id)
      × ((merge_accounts accounts d).is_active ≡ d.is_active)
unfolding merge_accounts
merge_accounts-id [] d = (refl, refl)
merge_accounts-id (a ∷ accounts) d = merge_accounts-id accounts _

pub to_dto_with_accounts-id :
    (u : User) (accounts : List OAuthAccount) → (to_dto_with_accounts u accounts).id ≡ u.id
unfolding to_dto_with_accounts to_dto
to_dto_with_accounts-id u accounts = (merge_accounts-id accounts (to_dto u)).0

set_avatar-id :
    (fails : Bool) (now : ℕ) (url : Text) (u : User) (db : Db)
    → (set_avatar fails now url u db).0.id ≡ u.id
unfolding set_avatar
set_avatar-id fails now url u db = ground arith

known_account-id :
    (e : Env) (account : ℕ) (i : OAuthUserInfo) (u : User) (db : Db)
    → (known_account e account i u db).0.id ≡ u.id
unfolding known_account refresh_avatar
known_account-id e account i u db =
    ground (arith, set_avatar-id (e.fails 2) (e.clock 0) i.avatar_url u db)

known_email-id :
    (e : Env) (account : ℕ) (i : OAuthUserInfo) (u : User) (db : Db)
    → (known_email e account i u db).0.id ≡ u.id
unfolding known_email
known_email-id e account i u db = set_avatar-id (e.fails 9) (e.clock 3) i.avatar_url u (
    or_same db
      (link_oauth_account (e.fails 7) (e.fails 8) (account_of account (e.clock 2) u.id i) db))

module _ (l : Libraries) (e : Env) (d : Drawn) (i : OAuthUserInfo) where
  -- the user who is let in, and on what ground
  pub data Admission (db : Db) : ℕ → Type 0 where
    by_account :
        (u : User)
        → get_by_oauth_account (e.fails 0) (e.fails 1) i.provider i.provider_id db ≡ ok u
        → u.is_active ≡ true
        → Admission db u.id
    by_email :
        (u : User) (x : Err)
        → get_by_oauth_account (e.fails 0) (e.fails 1) i.provider i.provider_id db ≡ err x
        → get_by_email l.sql_lower (e.fails 6) i.email db ≡ ok u
        → u.is_active ≡ true
        → Admission db u.id
    registered :
        (x y : Err) (name : Text) (db' : Db)
        → get_by_oauth_account (e.fails 0) (e.fails 1) i.provider i.provider_id db ≡ err x
        → get_by_email l.sql_lower (e.fails 6) i.email db ≡ err y
        → choose_name l e d i db ≡ some name
        → create l.lower e 10 d.account (oauth_user l (e.clock 4) d i name) db ≡ ok db'
        → Admission db d.user

  enter-id :
      (u : User) (db : Db) (r : AuthResponse) → (enter l e d (u, db)).0 ≡ ok r → r.user.id ≡ u.id
  unfolding enter
  enter-id u db r h =
      ground (arith, to_dto_with_accounts-id u (get_connected_accounts (e.fails 5) u.id db))

  new_account-Admission :
      (db : Db) (x y : Err) (r : AuthResponse)
      → get_by_oauth_account (e.fails 0) (e.fails 1) i.provider i.provider_id db ≡ err x
      → get_by_email l.sql_lower (e.fails 6) i.email db ≡ err y
      → (new_account l e d i db).0 ≡ ok r
      → Admission db r.user.id
  unfolding new_account oauth_user
  new_account-Admission db x y r hx hy h = elim (Option-cases (choose_name l e d i db)) [
    | inl never ↦ absurd (ground arith)
    | inr (name, chosen) ↦
        let user = oauth_user l (e.clock 4) d i name in
        elim (Result-cases (create l.lower e 10 d.account user db)) [
          | inr (z, bad) ↦ absurd (ground arith)
          | inl (db', good) ↦
              let after : Db = or_same db' (
                link_oauth_account (e.fails 13) (e.fails 14)
                  (account_of d.account' (e.clock 4) d.user i) db') in
              let accounts = get_connected_accounts (e.fails 15) d.user after in
              let shown = to_dto_with_accounts-id user accounts in
              let same : r.user.id ≡ d.user = ground arith in
              rw same (registered x y name db' hx hy chosen good)
        ]
  ]

  entered :
      (db : Db) (r : AuthResponse)
      → i.email_verified ≡ true
      → (handle_oauth_login l e d i (some db)).0 ≡ ok r
      → Admission db r.user.id
  unfolding handle_oauth_login
  entered db r v h =
      elim (Result-cases
        (get_by_oauth_account (e.fails 0) (e.fails 1) i.provider i.provider_id db)) [
          | inl (u, linked) ↦
              let after = known_account e d.account i u db in
              let active : u.is_active ≡ true = ground arith in
              let done : (enter l e d (after.0, after.1)).0 ≡ ok r = ground arith in
              rw (enter-id after.0 after.1 r done ∙ known_account-id e d.account i u db)
                (by_account u linked active)
          | inr (x, unlinked) ↦
              elim (Result-cases (get_by_email l.sql_lower (e.fails 6) i.email db)) [
                | inl (u, addressed) ↦
                    let after = known_email e d.account i u db in
                    let active : u.is_active ≡ true = ground arith in
                    let done : (enter l e d (after.0, after.1)).0 ≡ ok r = ground arith in
                    rw (enter-id after.0 after.1 r done ∙ known_email-id e d.account i u db)
                      (by_email u x unlinked addressed active)
                | inr (y, unknown) ↦ new_account-Admission db x y r unlinked unknown (ground arith)
              ]
        ]

  -- A login through a provider succeeds only with an address that the provider has verified, and for
  -- one of three users: an active one who is found by the account at the provider; otherwise an active
  -- one who is found by the address; otherwise a new one, whom the table has taken.
  pub handle_oauth_login_sound :
      (repo : Option Db) (r : AuthResponse)
      → (handle_oauth_login l e d i repo).0 ≡ ok r
      → (db : Db) × (repo ≡ some db) × (i.email_verified ≡ true) × Admission db r.user.id
  unfolding handle_oauth_login
  handle_oauth_login_sound none r h = absurd (ground arith)
  handle_oauth_login_sound (some db) r h =
      let v : i.email_verified ≡ true = ground arith in (db, refl, v, entered db r v h)
