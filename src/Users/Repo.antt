-- ===== src/Users/Repo.antt =====
-- internal/repository/user.go: the tables `users`, `user_oauth_accounts` and `admin_users`, with their
-- keys (internal/database/database.go): in `users` the columns `id`, `email` and `username` are unique
-- each; in `user_oauth_accounts` the column `id`, the pair of provider and provider's identifier, and
-- the pair of user and provider, and the user exists. `fails` stands for every other error of the
-- driver. Of several rows that match, a query takes the first.
pub mod Update
pub mod Rows
pub mod Keys
pub mod Kept
pub mod Renamed
pub mod History
pub mod Guarded
pub mod Unlink
use Prim.Native.String.{String}
use realm_api.Common.{
  ℕ, ◌+◌, Bool, true, false, ◌&&◌, ◌||◌, not, Option, none, some, List, [], ◌∷◌, ◌++◌, Text, txt,
  any, keep, eqb, is_empty, trim_space, to_lower, length, leb, ◌==◌, if◌then◌else◌,
}
use realm_api.Errors.{
  Err, Result, ok, err, sentinel, wrap, driver, err_user_not_found, err_user_already_exists,
  err_oauth_account_linked,
}
use realm_api.Env.{Env}
use realm_api.Middleware.{AdminUser}
use realm_api.Users.{User, OAuthAccount, is_given, is_external}

pub record Db : Type 0 where
  pub users : List User
  pub accounts : List OAuthAccount
  pub admins : List AdminUser

abbrev pub has_id : ℕ → User → Bool
has_id id u = u.id == id

unfoldable pub find : (User → Bool) → List User → Option User
find hit [] = none
find hit (u ∷ users) = if hit u then some u else find hit users

-- the end of the five queries for a user
abbrev pub one_user : Bool → String → Option User → Result User
one_user fails message found =
    if fails
    then err (wrap message driver)
    else elim found [ none ↦ err (sentinel err_user_not_found) | some u ↦ ok u ]

unfoldable pub get_by_id : Bool → ℕ → Db → Result User
get_by_id fails id db = one_user fails "failed to query user by id" (find (has_id id) db.users)

-- `sql_lower` is the function LOWER of the database.
unfoldable pub get_by_email : (Text → Text) → Bool → Text → Db → Result User
get_by_email sql_lower fails email db =
    one_user fails "failed to query user by email"
      (find (λ u. eqb (sql_lower u.email) (sql_lower (trim_space email))) db.users)

unfoldable pub get_by_username : (Text → Text) → Bool → Text → Db → Result User
get_by_username sql_lower fails username db =
    one_user fails "failed to query user by username"
      (find (λ u. eqb (sql_lower u.username) (sql_lower (trim_space username))) db.users)

-- `table` is the case table of package unicode.
abbrev pub norm : (ℕ → ℕ) → Text → Text
norm table t = to_lower table (trim_space t)

abbrev pub is_named : Text → User → Bool
is_named name u = eqb u.email name || eqb u.username name

-- `LIMIT 1` without an order: of two rows that match, the first of the table is taken.
unfoldable pub get_by_identifier : (ℕ → ℕ) → Bool → Text → Db → Result User
get_by_identifier table fails identifier db =
    one_user fails "failed to query user by identifier"
      (find (is_named (norm table identifier)) db.users)

abbrev pub is_at : Text → Text → OAuthAccount → Bool
is_at provider provider_id a = eqb a.provider provider && eqb a.provider_id provider_id

unfoldable pub find_account : (OAuthAccount → Bool) → List OAuthAccount → Option OAuthAccount
find_account hit [] = none
find_account hit (a ∷ accounts) = if hit a then some a else find_account hit accounts

-- the column `provider_id` is the one given; NULL is not
abbrev pub is_text : Text → Option Text → Bool
is_text t none = false
is_text t (some u) = eqb u t

-- the first query, which joins the two tables, and the fallback
unfoldable pub get_by_oauth_account : Bool → Bool → Text → Text → Db → Result User
get_by_oauth_account fails later_fails provider provider_id db =
    elim (if fails
      then none
      else find (λ u. any (λ a. is_at provider provider_id a && a.user_id == u.id) db.accounts)
          db.users) [
            | some u ↦ ok u
            | none ↦
                one_user later_fails "failed to query user by oauth account" (
                  find (λ u. eqb u.provider provider && is_text provider_id u.provider_id) db.users)
          ]

unfoldable pub set_accounts :
    (OAuthAccount → Bool) → OAuthAccount → List OAuthAccount → List OAuthAccount
set_accounts hit added [] = []
set_accounts hit added (a ∷ accounts) =
    (if hit a
      then record a {
        email = added.email;
        avatar_url = elim added.avatar_url [ none ↦ a.avatar_url | some v ↦ some v ];
      }
      else a)
    ∷ set_accounts hit added accounts

abbrev pub has_account_id : ℕ → OAuthAccount → Bool
has_account_id id a = a.id == id

abbrev pub is_of : ℕ → Text → OAuthAccount → Bool
is_of user provider a = a.user_id == user && eqb a.provider provider

-- `INSERT ... ON CONFLICT (provider, provider_id) DO UPDATE ... WHERE ...`
unfoldable pub upsert_account : OAuthAccount → Db → Result Db
upsert_account added db = elim (find_account (is_at added.provider added.provider_id) db.accounts) [
  | some a ↦
      if a.user_id == added.user_id
      then ok (record db {
        accounts = set_accounts (is_at added.provider added.provider_id) added db.accounts;
      })
      else ok db
  | none ↦
      if any (has_account_id added.id) db.accounts
        || any (is_of added.user_id added.provider) db.accounts
      then err (sentinel err_oauth_account_linked)
      else if not (any (has_id added.user_id) db.users)
      then err (wrap "failed to link oauth account" driver)
      else ok (record db { accounts = db.accounts ++ added ∷ [] })
]

-- `LinkOAuthAccount`; an error of the first query is dropped.
unfoldable pub link_oauth_account : Bool → Bool → OAuthAccount → Db → Result Db
link_oauth_account fails later_fails added db =
    let insert : Result Db =
      if later_fails
      then err (wrap "failed to link oauth account" driver)
      else upsert_account added db in
    elim (if fails
      then none
      else find_account (is_at added.provider added.provider_id) db.accounts) [
        | none ↦ insert
        | some a ↦
            if a.user_id == added.user_id then insert else err (sentinel err_oauth_account_linked)
      ]

-- An error that the caller drops leaves the tables as they were.
abbrev pub or_same : Db → Result Db → Db
or_same db (ok db') = db'
or_same db (err x) = db

-- The row that `Create` inserts: what a user has not yet comes from the defaults of the table.
unfoldable pub new_row : (ℕ → ℕ) → User → User
new_row table u = record u {
  email = norm table u.email;
  username = norm table u.username;
  is_active = true;
  two_factor_enabled = false;
  two_factor_secret = none;
  two_factor_recovery_codes = [];
}

unfoldable pub clashes : User → User → Bool
clashes added u = has_id added.id u || eqb u.email added.email || eqb u.username added.username

-- the account that goes with a user of a provider
abbrev pub first_account : ℕ → User → Text → OAuthAccount
first_account id user provider_id = record {
  created_at = user.created_at;
  email = some user.email;
  avatar_url = user.avatar_url;
  provider = user.provider;
  provider_id = provider_id;
  id = id;
  user_id = user.id;
}

abbrev pub external_id : User → Option Text
external_id user = if is_external user.provider then user.provider_id else none

abbrev pub with_user : User → Db → Db
with_user row db = record db { users = db.users ++ row ∷ [] }

-- `account_id` is what `uuid.New` gives for the account.
unfoldable pub create : (ℕ → ℕ) → Env → ℕ → ℕ → User → Db → Result Db
unfolding new_row clashes
create table e first account_id user db =
    let row = new_row table user in
    if e.fails first
    then err (wrap "failed to insert user" driver)
    else if any (clashes row) db.users
    then err (sentinel err_user_already_exists)
    else elim (external_id user) [
      | none ↦ ok (with_user row db)
      | some provider_id ↦ ok (
          or_same (with_user row db) (
            link_oauth_account (e.fails (first + 1)) (e.fails (first + 2))
              (first_account account_id user provider_id) (with_user row db)))
    ]
