-- ===== src/Users/Service/Profile.antt =====
-- internal/service/auth.go: a user's own profile, password and accounts at providers.
use realm_api.Common.{
  ℕ, Bool, false, not, Option, none, some, Text, eqb, is_empty, trim_space, to_lower, if◌then◌else◌,
  ◌==◌,
}
use realm_api.Errors.{
  Result, ok, err, sentinel, wrap, driver, err_database_unavailable, err_full_name_required,
  err_invalid_username, err_username_taken, err_current_password_req, err_current_password_bad,
}
use realm_api.Env.{Env}
use realm_api.Users.{User, OAuthAccount, UserDto, to_dto_with_accounts}
use realm_api.Users.Names.{check_password, matches_username, is_full_name}
use realm_api.Users.Repo
use realm_api.Users.Repo.{Db, get_by_id, get_by_email, get_by_username}
use realm_api.Users.Repo.Update
use realm_api.Users.Repo.Update.{update, update_password}
use realm_api.Users.Service.{Libraries, get_connected_accounts}

pub record UpdateProfileInput : Type 0 where
  pub full_name : Option Text
  pub username : Option Text
  pub avatar_url : Option Text

pub record SetPasswordInput : Type 0 where
  pub current_password : Option Text
  pub new_password : Text

-- `OAuthUserInfo` of internal/service/oauth.go
pub record OAuthUserInfo : Type 0 where
  pub provider : Text
  pub provider_id : Text
  pub email : Text
  pub username : Text
  pub full_name : Text
  pub avatar_url : Text
  pub email_verified : Bool

-- what is left of a field after trimming; `none` when it is not given or blank
abbrev pub filled : Option Text → Option Text
filled none = none
filled (some t) = if is_empty (trim_space t) then none else some (trim_space t)

-- `avatarPtr`
abbrev pub avatar_of : OAuthUserInfo → Option Text
avatar_of i = if is_empty i.avatar_url then none else some i.avatar_url

abbrev pub account_of : ℕ → ℕ → ℕ → OAuthUserInfo → OAuthAccount
account_of id now user i = record {
  created_at = now;
  email = some i.email;
  avatar_url = avatar_of i;
  provider = i.provider;
  provider_id = i.provider_id;
  id = id;
  user_id = user;
}

unfoldable pub get_profile : Env → ℕ → Option Db → Result UserDto
get_profile e id none = err (sentinel err_database_unavailable)
get_profile e id (some db) = elim (get_by_id (e.fails 0) id db) [
  | err x ↦ err x
  | ok u ↦ ok (to_dto_with_accounts u (get_connected_accounts (e.fails 1) id db))
]

unfoldable pub change_full_name : Option Text → User → Result User
change_full_name input u = elim (filled input) [
  | none ↦ ok u
  | some name ↦
      if is_full_name name
      then ok (record u { full_name = name })
      else err (sentinel err_full_name_required)
]

-- another user is found by the name
abbrev pub is_taken : ℕ → Result User → Bool
is_taken id (err x) = false
is_taken id (ok other) = not (other.id == id)

unfoldable pub change_avatar : Option Text → User → User
change_avatar none u = u
change_avatar (some url) u = record u { avatar_url = filled (some url) }

unfoldable pub set_password :
    Libraries → Env → ℕ → ℕ → SetPasswordInput → Option Db → Result (Unit {0}) × Option Db
set_password l e salt id input none = (err (sentinel err_database_unavailable), none)
set_password l e salt id input (some db) =
    let store : Result (Unit {0}) × Option Db = elim (l.hash salt input.new_password) [
      | none ↦ (err (wrap "failed to hash password" driver), some db)
      | some hash ↦ elim (update_password (e.fails 1) (e.clock 0) id hash db) [
        | err x ↦ (err x, some db)
        | ok db' ↦ (ok tt, some db')
      ]
    ] in
    elim (check_password input.new_password) [
      | err x ↦ (err x, some db)
      | ok done ↦ elim (get_by_id (e.fails 0) id db) [
        | err x ↦ (err x, some db)
        | ok u ↦ elim u.password_hash [
          | none ↦ store
          | some old ↦ if is_empty old then store else elim input.current_password [
            | none ↦ (err (sentinel err_current_password_req), some db)
            | some current ↦
                if is_empty current
                then (err (sentinel err_current_password_req), some db)
                else if l.compare old current
                then store
                else (err (sentinel err_current_password_bad), some db)
          ]
        ]
      ]
    ]

-- `account` is what `uuid.New` gives.
unfoldable pub link_oauth_account :
    Env → ℕ → ℕ → OAuthUserInfo → Option Db → Result (Unit {0}) × Option Db
link_oauth_account e account id info none = (err (sentinel err_database_unavailable), none)
link_oauth_account e account id info (some db) =
    elim (Repo.link_oauth_account (e.fails 0) (e.fails 1) (account_of account (e.clock 0) id info)
      db) [ err x ↦ (err x, some db) | ok db' ↦ (ok tt, some db') ]

unfoldable pub unlink_oauth_account : Env → ℕ → Text → Option Db → Result (Unit {0}) × Option Db
unlink_oauth_account e id provider none = (err (sentinel err_database_unavailable), none)
unlink_oauth_account e id provider (some db) = elim (Update.unlink_oauth_account e id provider db) [
  | err x ↦ (err x, some db)
  | ok db' ↦ (ok tt, some db')
]

module _ (l : Libraries) where
  unfoldable pub change_username : Bool → Db → Option Text → User → Result User
  change_username fails db input u = elim (filled input) [
    | none ↦ ok u
    | some trimmed ↦
        let name : Text = to_lower l.lower trimmed in
        if eqb name u.username
        then ok u
        else if not (matches_username name)
        then err (sentinel err_invalid_username)
        else if is_taken u.id (get_by_username l.sql_lower fails name db)
        then err (sentinel err_username_taken)
        else ok (record u { username = name })
  ]

  unfoldable pub update_profile :
      Env → ℕ → UpdateProfileInput → Option Db → Result UserDto × Option Db
  unfolding change_username change_full_name change_avatar
  update_profile e id input none = (err (sentinel err_database_unavailable), none)
  update_profile e id input (some db) = elim (get_by_id (e.fails 0) id db) [
    | err x ↦ (err x, some db)
    | ok u ↦ elim (change_full_name input.full_name u) [
      | err x ↦ (err x, some db)
      | ok named ↦ elim (change_username (e.fails 1) db input.username named) [
        | err x ↦ (err x, some db)
        | ok renamed ↦
            let u' : User = record (change_avatar input.avatar_url renamed) {
              updated_at = e.clock 0;
            } in
            elim (update (e.fails 2) u' db) [
              | err x ↦ (err x, some db)
              | ok db' ↦ (
                ok (to_dto_with_accounts u' (get_connected_accounts (e.fails 3) id db')),
                some db',
              )
            ]
      ]
    ]
  ]
