-- ===== src/Admins/Update.antt =====
-- internal/repository/user.go: `DeleteUser` and `UpdateUser`.
use realm_api.Common.{
  ℕ, Bool, true, false, ◌&&◌, ◌||◌, not, Option, none, some, List, [], ◌∷◌, Text, any, keep, eqb,
  ◌==◌, to_lower, if◌then◌else◌,
}
use realm_api.Errors.{
  Result, ok, err, sentinel, new, wrap, driver, err_user_not_found, err_user_already_exists,
}
use realm_api.Env.{Env}
use realm_api.Middleware.{AdminUser}
use realm_api.Users.{User}
use realm_api.Users.Repo
use realm_api.Users.Repo.{Db, find, has_id, norm}
use realm_api.Users.Repo.Update.{belongs_to, set_row, takes}
use realm_api.Users.Service.Profile.{filled}
use realm_api.Admins.{find_admin, is_for}

-- the query for the flag; an error of it counts as no
unfoldable pub is_superadmin_user : Bool → ℕ → Db → Bool
is_superadmin_user fails user db =
    if fails
    then false
    else elim (find_admin (is_for user) db.admins) [ none ↦ false | some a ↦ a.is_superadmin ]

-- `UPDATE admin_users SET created_by = NULL WHERE created_by = $1`
unfoldable pub forget_one : ℕ → AdminUser → AdminUser
forget_one user a = record a {
  created_by = elim a.created_by [ none ↦ none | some c ↦ if c == user then none else some c ];
}

unfoldable pub forget_creator : ℕ → List AdminUser → List AdminUser
unfolding forget_one
forget_creator user [] = []
forget_creator user (a ∷ admins) = forget_one user a ∷ forget_creator user admins

abbrev pub created_by_user : ℕ → AdminUser → Bool
created_by_user user a = elim a.created_by [ none ↦ false | some c ↦ c == user ]

-- The second statement's error is dropped. Of the tables that refer to users these are modelled. The row of a user takes its accounts and its row in
-- `admin_users` with it; a row that names the user as its creator is in the way.
unfoldable pub delete_user : Env → ℕ → Db → Result (Unit {0}) × Db
unfolding is_superadmin_user forget_creator
delete_user e id db =
    let admins : List AdminUser = if e.fails 1 then db.admins else forget_creator id db.admins in
    let kept : List AdminUser = keep (λ a. not (is_for id a)) admins in
    let db' : Db = record db { admins = admins } in
    if is_superadmin_user (e.fails 0) id db
    then (err (new "cannot delete superadmin user"), db)
    else if e.fails 2 || any (has_id id) db.users && any (created_by_user id) kept
    then (err (wrap "failed to delete user" driver), db')
    else if not (any (has_id id) db.users)
    then (err (sentinel err_user_not_found), db')
    else (
      ok tt,
      record {
        users = keep (λ u. not (has_id id u)) db.users;
        accounts = keep (λ a. not (belongs_to id a)) db.accounts;
        admins = kept;
      },
    )

pub record UpdateUserInput : Type 0 where
  pub email : Option Text
  pub username : Option Text
  pub full_name : Option Text
  pub is_active : Option Bool

-- The value that a field asks for: `old` and the column of the other rows are compared in lower case.
unfoldable pub check_unique :
    (ℕ → ℕ)
    → (Text → Text)
    → Bool
    → Bool
    → Text
    → (User → Text)
    → ℕ
    → Option Text
    → List User
    → Result (Unit {0})
check_unique table sql_lower fails is_email old column id none users = ok tt
check_unique table sql_lower fails is_email old column id (some t) users =
    let new_value : Text = to_lower table t in
    if eqb new_value (to_lower table old)
    then ok tt
    else if fails
    then err (
        wrap
          (if is_email
            then "failed to check email uniqueness"
            else "failed to check username uniqueness")
          driver)
    else if any (λ v. eqb (sql_lower (column v)) new_value && not (has_id id v)) users
    then err (sentinel err_user_already_exists)
    else ok tt

abbrev lowered_or : (ℕ → ℕ) → Text → Option Text → Text
lowered_or table old none = old
lowered_or table old (some t) = to_lower table t

abbrev text_or : Text → Option Text → Text
text_or old none = old
text_or old (some t) = t

abbrev bool_or : Bool → Option Bool → Bool
bool_or old none = old
bool_or old (some b) = b

abbrev pub is_blank : UpdateUserInput → Bool
is_blank i =
    let absent : Option Text → Bool = λ o. elim o [ none ↦ true | some t ↦ false ] in
    absent (filled i.email)
    && absent (filled i.username)
    && absent (filled i.full_name)
    && elim i.is_active [ none ↦ true | some b ↦ false ]

-- the row after `UPDATE`
unfoldable pub edited : (ℕ → ℕ) → ℕ → UpdateUserInput → User → User
edited table now i u = record u {
  email = lowered_or table u.email (filled i.email);
  username = lowered_or table u.username (filled i.username);
  full_name = text_or u.full_name (filled i.full_name);
  is_active = bool_or u.is_active i.is_active;
  updated_at = now;
}

abbrev pub deactivates : UpdateUserInput → Bool
deactivates i = not (bool_or true i.is_active)

-- from the check of the superadmin on, for the user who is found
unfoldable pub edit : (ℕ → ℕ) → Env → ℕ → UpdateUserInput → User → Db → Result User × Db
unfolding edited is_superadmin_user
edit table e id i u db =
    if deactivates i && is_superadmin_user (e.fails 3) id db
    then (err (new "cannot deactivate a superadmin account"), db)
    else if is_blank i
    then (ok u, db)
    else if e.fails 4 || any (takes (edited table (e.clock 0) i u)) db.users
    then (err (wrap "failed to update user" driver), db)
    else (let db' : Db = record db { users = set_row id (edited table (e.clock 0) i) db.users } in
        (Repo.get_by_id (e.fails 5) id db', db'))

unfoldable pub update_user :
    (ℕ → ℕ) → (Text → Text) → Env → ℕ → UpdateUserInput → Db → Result User × Db
unfolding edit check_unique
update_user table sql_lower e id i db = elim (Repo.get_by_id (e.fails 0) id db) [
  | err x ↦ (err x, db)
  | ok u ↦
      elim (check_unique table sql_lower (e.fails 1) true u.email (λ v. v.email) id (filled i.email)
        db.users) [
          | err x ↦ (err x, db)
          | ok fine ↦
              elim (check_unique table sql_lower (e.fails 2) false u.username (λ v. v.username) id
                (filled i.username) db.users) [
                  | err x ↦ (err x, db)
                  | ok good ↦ edit table e id i u db
                ]
        ]
]
