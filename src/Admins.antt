-- ===== src/Admins.antt =====
-- internal/repository/admin.go, and what internal/repository/user.go does for the administration:
-- `UpdateUser` and `DeleteUser`. The state is that of Users.Repo; in `admin_users` the columns `id` and
-- `user_id` are unique each, and the user and the user who created the row exist
-- (internal/database/database.go).
pub mod Update
pub mod Laws
pub mod Superadmin
mod Tests
use realm_api.Common.{
  ℕ, Bool, true, false, ◌&&◌, ◌||◌, not, Option, none, some, List, [], ◌∷◌, ◌++◌, Text, any, keep,
  eqb, ◌==◌, trim_space, to_lower, if◌then◌else◌,
}
use realm_api.Errors.{
  Result, ok, err, sentinel, new, wrap, driver, err_user_not_found, err_admin_not_found,
}
use realm_api.Env.{Env}
use realm_api.Middleware.{AdminUser}
use realm_api.Users.{User}
use realm_api.Users.Repo.{Db, find, has_id, norm}
use realm_api.Users.Repo.Update.{belongs_to}

-- An administrator with the row of the user, of which the query reads some columns.
pub record Joined : Type 0 where
  pub admin : AdminUser
  pub user : User

unfoldable pub find_admin : (AdminUser → Bool) → List AdminUser → Option AdminUser
find_admin hit [] = none
find_admin hit (a ∷ admins) = if hit a then some a else find_admin hit admins

abbrev pub has_admin_id : ℕ → AdminUser → Bool
has_admin_id id a = a.id == id

abbrev pub is_for : ℕ → AdminUser → Bool
is_for user a = a.user_id == user

-- `JOIN users u ON a.user_id = u.id`
unfoldable pub join : Result Joined → AdminUser → Db → Result Joined
join missing a db = elim (find (has_id a.user_id) db.users) [
  | none ↦ missing
  | some u ↦ ok (record { admin = a; user = u })
]

unfoldable pub get_by_user_id : Bool → ℕ → Db → Result Joined
unfolding join
get_by_user_id fails user db =
    if fails
    then err (wrap "failed to get admin by user_id" driver)
    else elim (find_admin (is_for user) db.admins) [
      | none ↦ err (sentinel err_admin_not_found)
      | some a ↦ join (err (sentinel err_admin_not_found)) a db
    ]

unfoldable pub get_by_id : Bool → ℕ → Db → Result Joined
unfolding join
get_by_id fails id db =
    if fails
    then err (wrap "failed to get admin by id" driver)
    else elim (find_admin (has_admin_id id) db.admins) [
      | none ↦ err (sentinel err_admin_not_found)
      | some a ↦ join (err (sentinel err_admin_not_found)) a db
    ]

-- `UPDATE admin_users SET permissions = ... WHERE ... AND is_superadmin = false`
unfoldable pub set_permissions : (AdminUser → Bool) → List Text → List AdminUser → List AdminUser
set_permissions hit permissions [] = []
set_permissions hit permissions (a ∷ admins) =
    (if hit a && not a.is_superadmin then record a { permissions = permissions } else a)
    ∷ set_permissions hit permissions admins

abbrev pub with_admins : List AdminUser → Db → Db
with_admins admins db = record db { admins = admins }

-- the creator exists, or there is none
abbrev pub has_creator : Option ℕ → Db → Bool
has_creator none db = true
has_creator (some creator) db = any (has_id creator) db.users

-- `sql_lower` is the function LOWER of the database, `table` the case table of package unicode, `id`
-- the default of the table; the address is left out of the text of the third error. A superadmin's row does not come back from the insertion, which is an error.
unfoldable pub add_admin :
    (ℕ → ℕ) → (Text → Text) → Env → ℕ → Text → List Text → Option ℕ → Db → Result (Joined × Db)
add_admin table sql_lower e id email permissions created_by db =
    let failed : Result (Joined × Db) = err (wrap "failed to insert admin user" driver) in
    if e.fails 0
    then err (wrap "failed to lookup user" driver)
    else elim (find (λ u. eqb (sql_lower u.email) (norm table email)) db.users) [
      | none ↦ err (new "user not found; they must register an account first")
      | some u ↦ if e.fails 1 then failed else elim (find_admin (is_for u.id) db.admins) [
        | some a ↦
            if a.is_superadmin
            then failed
            else ok (
              record { admin = record a { permissions = permissions }; user = u },
              with_admins (set_permissions (is_for u.id) permissions db.admins) db,
            )
        | none ↦
            let a : AdminUser = record {
              created_by = created_by;
              id = id;
              user_id = u.id;
              permissions = permissions;
              is_superadmin = false;
            } in
            if any (has_admin_id id) db.admins || not (has_creator created_by db)
            then failed
            else ok (record { admin = a; user = u }, with_admins (db.admins ++ a ∷ []) db)
      ]
    ]

-- The answer of the second query, and the tables, which the first has changed.
unfoldable pub update_permissions : Env → ℕ → List Text → Db → Result Joined × Db
update_permissions e id permissions db =
    if e.fails 0
    then (err (wrap "failed to update admin permissions" driver), db)
    else if any (λ a. has_admin_id id a && not a.is_superadmin) db.admins
    then (let db' = with_admins (set_permissions (has_admin_id id) permissions db.admins) db in
        (get_by_id (e.fails 1) id db', db'))
    else (err (new "admin not found or is superadmin"), db)

unfoldable pub remove_admin : Bool → ℕ → Db → Result Db
remove_admin fails id db =
    if fails
    then err (wrap "failed to delete admin" driver)
    else if any (λ a. has_admin_id id a && not a.is_superadmin) db.admins
    then ok (with_admins (keep (λ a. not (has_admin_id id a && not a.is_superadmin)) db.admins) db)
    else err (new "admin not found or is superadmin")
