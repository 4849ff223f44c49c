-- ===== src/Users/Repo/Update.antt =====
-- internal/repository/user.go: the changes to a user and to the accounts that exist already.
use realm_api.Common.{
  ℕ, ◌+◌, Bool, true, false, ◌&&◌, ◌||◌, not, Option, none, some, List, [], ◌∷◌, Text, any, keep,
  eqb, trim_space, length, leb, if◌then◌else◌, to_upper, ◌==◌,
}
use realm_api.Errors.{
  Result, ok, err, sentinel, new, wrap, driver, err_user_not_found, err_cannot_unlink_last_auth,
}
use realm_api.Env.{Env}
use realm_api.Users.{User, OAuthAccount, is_given}
use realm_api.Users.Repo.{Db, has_id, is_of, get_by_id}

-- `UPDATE users SET ... WHERE id = $n`
unfoldable pub set_row : ℕ → (User → User) → List User → List User
set_row id change [] = []
set_row id change (u ∷ users) = (if has_id id u then change u else u) ∷ set_row id change users

-- Another row has the address or the name already.
abbrev pub takes : User → User → Bool
takes user u = not (has_id user.id u) && (eqb u.email user.email || eqb u.username user.username)

-- the columns that `Update` writes
abbrev pub write_columns : User → User → User
write_columns user u = record u {
  email = user.email;
  username = user.username;
  full_name = user.full_name;
  avatar_url = user.avatar_url;
  updated_at = user.updated_at;
}

unfoldable pub update : Bool → User → Db → Result Db
update fails user db =
    if fails || any (has_id user.id) db.users && any (takes user) db.users
    then err (wrap "failed to update user" driver)
    else ok (record db { users = set_row user.id (write_columns user) db.users })

unfoldable pub update_password : Bool → ℕ → ℕ → Text → Db → Result Db
update_password fails now id hash db =
    if fails
    then err (wrap "failed to update user password" driver)
    else if any (has_id id) db.users
    then ok (record db {
      users = set_row id (λ u. record u { password_hash = some hash; updated_at = now }) db.users;
    })
    else err (sentinel err_user_not_found)

-- `ORDER BY created_at ASC`
unfoldable pub insert_by_age : OAuthAccount → List OAuthAccount → List OAuthAccount
insert_by_age a [] = a ∷ []
insert_by_age a (b ∷ accounts) =
    let rest = insert_by_age a accounts in
    if leb a.created_at b.created_at then a ∷ b ∷ accounts else b ∷ rest

unfoldable pub sort_by_age : List OAuthAccount → List OAuthAccount
unfolding insert_by_age
sort_by_age [] = []
sort_by_age (a ∷ accounts) = insert_by_age a (sort_by_age accounts)

abbrev pub belongs_to : ℕ → OAuthAccount → Bool
belongs_to user a = a.user_id == user

unfoldable pub get_oauth_accounts : Bool → ℕ → Db → Result (List OAuthAccount)
unfolding sort_by_age
get_oauth_accounts fails user db =
    if fails
    then err (wrap "failed to query oauth accounts" driver)
    else ok (sort_by_age (keep (belongs_to user) db.accounts))

-- `UnlinkOAuthAccount`: three calls of the database
unfoldable pub unlink_oauth_account : Env → ℕ → Text → Db → Result Db
unlink_oauth_account e id provider db = elim (get_by_id (e.fails 0) id db) [
  | err x ↦ err x
  | ok user ↦ elim (get_oauth_accounts (e.fails 1) id db) [
    | err x ↦ err x
    | ok accounts ↦
        if not (is_given user.password_hash) && leb (length accounts) 1
        then err (sentinel err_cannot_unlink_last_auth)
        else if e.fails 2
        then err (wrap "failed to unlink oauth account" driver)
        else if any (is_of id provider) db.accounts
        then ok (record db { accounts = keep (λ a. not (is_of id provider a)) db.accounts })
        else err (new "oauth account not found")
  ]
]

unfoldable pub update_2fa_secret : Bool → ℕ → ℕ → Text → Db → Result Db
update_2fa_secret fails now id secret db =
    if fails
    then err driver
    else ok (record db {
      users =
          set_row id (λ u. record u { two_factor_secret = some secret; updated_at = now }) db.users;
    })

unfoldable pub enable_2fa : Bool → ℕ → ℕ → Text → List Text → Db → Result Db
enable_2fa fails now id secret codes db =
    if fails
    then err driver
    else ok (record db {
      users =
          set_row id
            (λ u. record u {
              two_factor_enabled = true;
              two_factor_secret = some secret;
              two_factor_recovery_codes = codes;
              updated_at = now;
            })
            db.users;
    })

unfoldable pub disable_2fa : Bool → ℕ → ℕ → Db → Result Db
disable_2fa fails now id db =
    if fails
    then err driver
    else ok (record db {
      users =
          set_row id
            (λ u. record u {
              two_factor_enabled = false;
              two_factor_secret = none;
              two_factor_recovery_codes = [];
              updated_at = now;
            })
            db.users;
    })

-- `strings.ToUpper(strings.TrimSpace(code))`; `upper` is the case table of package unicode.
abbrev pub norm_code : (ℕ → ℕ) → Text → Text
norm_code upper code = to_upper upper (trim_space code)

-- the list without its first code that is the one given; `none` when there is no such code
unfoldable pub remove_code : (ℕ → ℕ) → Text → List Text → Option (List Text)
remove_code upper code [] = none
remove_code upper code (c ∷ codes) =
    let rest = remove_code upper code codes in
    if eqb (norm_code upper c) (norm_code upper code)
    then some codes
    else elim rest [ none ↦ none | some left ↦ some (c ∷ left) ]

-- the answer, and the tables after it
unfoldable pub consume_recovery_code : (ℕ → ℕ) → Env → ℕ → ℕ → Text → Db → Result Bool × Db
consume_recovery_code upper e first id code db = elim (get_by_id (e.fails first) id db) [
  | err x ↦ (err x, db)
  | ok user ↦ elim (remove_code upper code user.two_factor_recovery_codes) [
    | none ↦ (ok false, db)
    | some left ↦ if e.fails (first + 1) then (err driver, db) else (
      ok true,
      record db {
        users =
            set_row id
              (λ u. record u { two_factor_recovery_codes = left; updated_at = e.clock first })
              db.users;
      },
    )
  ]
]
