-- ===== src/Users/Service/OAuth.antt =====
-- internal/service/auth.go: `HandleOAuthLogin`.
use realm_api.Common.{
  ℕ, zero, suc, ◌+◌, ◌/◌, ◌%◌, Bool, false, not, Option, none, some, [], ◌∷◌, ◌++◌, Text, txt, take,
  ltb, is_empty, trim_space, to_lower, if◌then◌else◌,
}
use realm_api.Errors.{
  Result, ok, err, sentinel, new, wrap, is, err_user_not_found, err_account_deactivated,
  err_unverified_oauth_email,
}
use realm_api.Env.{Env}
use realm_api.Auth.Paseto.{generate_token}
use realm_api.Users.{User, AuthResponse, is_given, to_dto_with_accounts}
use realm_api.Users.Names.{matches_username}
use realm_api.Users.Repo.{
  Db, create, get_by_email, get_by_username, get_by_oauth_account, link_oauth_account, or_same,
}
use realm_api.Users.Repo.Update.{update}
use realm_api.Users.Service.{
  Libraries, token_ttl, get_connected_accounts, granted, subject_of, session,
}
use realm_api.Users.Service.Profile.{OAuthUserInfo, avatar_of, account_of}

-- `%d` of a number below 100
unfoldable pub decimal : ℕ → Text
decimal n = if ltb n 10 then (b'0' + n) ∷ [] else (b'0' + n / 10) ∷ (b'0' + n % 10) ∷ []

-- `fmt.Sprintf("%s_%d", ...)`; the name holds ASCII characters only, so that its bytes are these.
unfoldable pub numbered : Text → ℕ → Text
numbered original counter = take 20 original ++ b'_' ∷ decimal counter

-- The loop that looks for a name that nobody has, where `is_free counter` is the answer of the query
-- of that round. `none` means that the fuel ran out.
unfoldable pub pick_name : (ℕ → Text → Bool) → Text → Text → ℕ → ℕ → Text → Option Text
unfolding numbered
pick_name is_free fallback original zero counter name = none
pick_name is_free fallback original (suc fuel) counter name =
    let rest = pick_name is_free fallback original fuel (counter + 1) (numbered original counter) in
    if is_free counter name then some name else if ltb 50 (counter + 1) then some fallback else rest

abbrev pub not_found : Result User → Bool
not_found (ok u) = false
not_found (err x) = is x err_user_not_found

-- What is drawn for a login: the nonce of the token, `uuid.New` for the user and for two accounts,
-- and the first eight characters of two more.
pub record Drawn : Type 0 where
  pub nonce : ℕ
  pub user : ℕ
  pub account : ℕ
  pub account' : ℕ
  pub short : Text
  pub short' : Text

-- `user.AvatarURL == nil || *user.AvatarURL == ""` and its update, whose error is dropped
unfoldable pub set_avatar : Bool → ℕ → Text → User → Db → User × Db
set_avatar fails now url u db =
    if is_given u.avatar_url
    then (u, db)
    else let u' : User = record u { avatar_url = some url; updated_at = now } in
      (u', or_same db (update fails u' db))

-- the first case changes the avatar only if the provider gives one
unfoldable pub refresh_avatar : Bool → ℕ → Text → User → Db → User × Db
unfolding set_avatar
refresh_avatar fails now url u db = if is_empty url then (u, db) else set_avatar fails now url u db

-- the first case: a row for the account at the provider is found
unfoldable pub known_account : Env → ℕ → OAuthUserInfo → User → Db → User × Db
known_account e account i u db =
    let (u', db') = refresh_avatar (e.fails 2) (e.clock 0) i.avatar_url u db in
    (
      u',
      or_same db'
          (link_oauth_account (e.fails 3) (e.fails 4) (account_of account (e.clock 1) u.id i) db'),
    )

-- the second case: a user has the address
unfoldable pub known_email : Env → ℕ → OAuthUserInfo → User → Db → User × Db
unfolding set_avatar
known_email e account i u db = set_avatar (e.fails 9) (e.clock 3) i.avatar_url u (
    or_same db
      (link_oauth_account (e.fails 7) (e.fails 8) (account_of account (e.clock 2) u.id i) db))

module _ (l : Libraries) where
  -- the name that the third case starts from
  unfoldable pub first_name : Drawn → OAuthUserInfo → Text
  first_name d i =
      if matches_username (to_lower l.lower (trim_space i.username))
      then to_lower l.lower (trim_space i.username)
      else txt "user_" ++ d.short

  unfoldable pub choose_name : Env → Drawn → OAuthUserInfo → Db → Option Text
  unfolding pick_name first_name
  choose_name e d i db =
      pick_name
        (λ counter name. not_found (get_by_username l.sql_lower (e.fails (100 + counter)) name db))
        (txt "user_" ++ d.short') (first_name d i) 50 1 (first_name d i)

  unfoldable pub oauth_user : ℕ → Drawn → OAuthUserInfo → Text → User
  oauth_user now d i name = record {
    updated_at = now;
    created_at = now;
    provider_id = some i.provider_id;
    two_factor_secret = none;
    password_hash = none;
    avatar_url = avatar_of i;
    full_name = if is_empty (trim_space i.full_name) then name else trim_space i.full_name;
    provider = i.provider;
    username = name;
    email = to_lower l.lower (trim_space i.email);
    two_factor_recovery_codes = [];
    id = d.user;
    two_factor_enabled = false;
    is_active = false;
  }

  -- the end of the first two cases
  unfoldable pub enter : Env → Drawn → User × Db → Result AuthResponse × Option Db
  enter e d (u, db) =
      elim (generate_token l.paseto l.key d.nonce (e.clock 4) token_ttl (subject_of l u)) [
        | err x ↦ (err x, some db)
        | ok token ↦ (
          ok (
              granted "OAuth login successful" token
                (to_dto_with_accounts u (get_connected_accounts (e.fails 5) u.id db))),
          some db,
        )
      ]

  -- the third case
  unfoldable pub new_account : Env → Drawn → OAuthUserInfo → Db → Result AuthResponse × Option Db
  unfolding oauth_user session choose_name
  new_account e d i db = elim (choose_name e d i db) [
    | none ↦ (err (new "unreachable"), some db)
    | some name ↦
        let user : User = oauth_user (e.clock 4) d i name in
        elim (create l.lower e 10 d.account user db) [
          | err x ↦ (err (wrap "failed to create oauth user" x), some db)
          | ok created ↦
              let db' : Db = or_same created (
                link_oauth_account (e.fails 13) (e.fails 14)
                  (account_of d.account' (e.clock 4) d.user i) created) in
              elim (session l d.nonce (e.clock 5) user) [
                | err x ↦ (err x, some db')
                | ok token ↦ (
                  ok (
                      granted "OAuth registration successful" token (
                        to_dto_with_accounts user
                          (get_connected_accounts (e.fails 15) d.user db'))),
                  some db',
                )
              ]
        ]
  ]

  unfoldable pub handle_oauth_login :
      Env → Drawn → OAuthUserInfo → Option Db → Result AuthResponse × Option Db
  unfolding enter known_account known_email new_account
  handle_oauth_login e d i none = (err (new "database user repository unavailable"), none)
  handle_oauth_login e d i (some db) =
      if not i.email_verified
      then (err (sentinel err_unverified_oauth_email), some db)
      else elim (get_by_oauth_account (e.fails 0) (e.fails 1) i.provider i.provider_id db) [
        | ok u ↦
            if not u.is_active
            then (err (sentinel err_account_deactivated), some db)
            else enter e d (known_account e d.account i u db)
        | err x ↦ elim (get_by_email l.sql_lower (e.fails 6) i.email db) [
          | ok u ↦
              if not u.is_active
              then (err (sentinel err_account_deactivated), some db)
              else enter e d (known_email e d.account i u db)
          | err y ↦ new_account e d i db
        ]
      ]
