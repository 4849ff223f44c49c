-- ===== src/Admins/Superadmin.antt =====
-- Proofs about the steps of internal/repository/admin.go, and of `UpdateUser` and `DeleteUser`.
use realm_api.Common.{
  ℕ, ◌≡◌, ◌≢◌, ◌∙◌, inl, inr, refl, sym, Bool, true, false, ◌&&◌, ◌||◌, not, Option, some, List, [],
  ◌∷◌, Text, any, keep, arith, Bool-cases, if◌then◌else◌,
}
use realm_api.Errors.{ok, Result-cases}
use realm_api.Env.{Env}
use realm_api.Middleware.{AdminUser}
use realm_api.Users.{User}
use realm_api.Users.Repo
use realm_api.Users.Repo.{Db, has_id}
use realm_api.Users.Repo.Update.{belongs_to, set_row, takes}
use realm_api.Users.Repo.Kept.{set_row-has_id}
use realm_api.Users.Service.Profile.{filled}
use realm_api.Admins.{Joined, find_admin, is_for, add_admin, update_permissions, remove_admin}
use realm_api.Admins.Update.{
  is_superadmin_user, forget_creator, created_by_user, delete_user, UpdateUserInput, edited, edit,
  update_user, check_unique, deactivates, is_blank,
}
use realm_api.Admins.Laws.{
  IsProtected, find_admin-keep, forget_creator-find, keep-has_id, add_admin-IsProtected,
  update_permissions-IsProtected, remove_admin-IsProtected,
}

-- What the administration does; a row that fails to change may still have changed another.
pub data Step : Db → Db → Type 0 where
  added :
      (table : ℕ → ℕ) (sql_lower : Text → Text) (e : Env) (id : ℕ) (email : Text) (ps : List Text)
      (created_by : Option ℕ) (j : Joined) {db db' : Db}
      → add_admin table sql_lower e id email ps created_by db ≡ ok (j, db')
      → Step db db'
  permitted :
      (e : Env) (admin : ℕ) (ps : List Text) (db : Db)
      → Step db (update_permissions e admin ps db).1
  removed :
      (fails : Bool) (admin : ℕ) {db db' : Db} → remove_admin fails admin db ≡ ok db' → Step db db'
  user_edited :
      (table : ℕ → ℕ) (sql_lower : Text → Text) (e : Env) (user : ℕ) (i : UpdateUserInput) (db : Db)
      → Step db (update_user table sql_lower e user i db).1
  -- where the query for the flag has an answer
  user_deleted :
      (e : Env) (user : ℕ) (db : Db) → e.fails 0 ≡ false → Step db (delete_user e user db).1

pub data Reach (s : Db) : Db → Type 0 where
  here : Reach s s
  next : {t u : Db} → Reach s t → Step t u → Reach s u

module _ (id : ℕ) (permissions : List Text) where
  edit-IsProtected :
      (table : ℕ → ℕ) (e : Env) (user : ℕ) (i : UpdateUserInput) (u : User) (db : Db)
      → IsProtected id permissions db
      → IsProtected id permissions (edit table e user i u db).1
  unfolding edit
  edit-IsProtected table e user i u db k =
      let after = (edit table e user i u db).1 in
      let written : Db = record db { users = set_row user (edited table (e.clock 0) i) db.users } in
      elim (Bool-cases (deactivates i && is_superadmin_user (e.fails 3) user db)) [
        | inl stopped ↦ let same : after ≡ db = ground arith in rw same k
        | inr fine ↦ elim (Bool-cases (is_blank i)) [
          | inl blank ↦ let same : after ≡ db = ground arith in rw same k
          | inr asked ↦
              elim (Bool-cases (e.fails 4 || any (takes (edited table (e.clock 0) i u)) db.users)) [
                | inl failed ↦ let same : after ≡ db = ground arith in rw same k
                | inr done ↦
                    let same : after ≡ written = ground arith in
                    rw same (record {
                      admin = k.admin;
                      found = k.found;
                      superadmin = k.superadmin;
                      unchanged = k.unchanged;
                      present =
                          set_row-has_id user (edited table (e.clock 0) i) (λ v. refl) id db.users
                          ∙ k.present;
                    })
              ]
        ]
      ]

  update_user-IsProtected :
      (table : ℕ → ℕ) (sql_lower : Text → Text) (e : Env) (user : ℕ) (i : UpdateUserInput) (db : Db)
      → IsProtected id permissions db
      → IsProtected id permissions (update_user table sql_lower e user i db).1
  unfolding update_user
  update_user-IsProtected table sql_lower e user i db k =
      let after = (update_user table sql_lower e user i db).1 in
      elim (Result-cases (Repo.get_by_id (e.fails 0) user db)) [
        | inr (x, bad) ↦ let same : after ≡ db = ground arith in rw same k
        | inl (u, read) ↦
            let email =
              check_unique table sql_lower (e.fails 1) true u.email (λ v. v.email) user
                (filled i.email) db.users in
            let name =
              check_unique table sql_lower (e.fails 2) false u.username (λ v. v.username) user
                (filled i.username) db.users in
            elim (Result-cases email) [
              | inr (x, bad) ↦ let same : after ≡ db = ground arith in rw same k
              | inl (fine, good) ↦ elim (Result-cases name) [
                | inr (x, bad) ↦ let same : after ≡ db = ground arith in rw same k
                | inl (free, right) ↦
                    let same : after ≡ (edit table e user i u db).1 = ground arith in
                    rw same (edit-IsProtected table e user i u db k)
              ]
            ]
      ]

  forgotten :
      (user : ℕ) (db : Db)
      → IsProtected id permissions db
      → IsProtected id permissions (record db { admins = forget_creator user db.admins })
  forgotten user db k =
      let (b, found, s, p, u) = forget_creator-find id user db.admins k.admin k.found in
      record {
        admin = b;
        found = found;
        superadmin = s ∙ k.superadmin;
        unchanged = p ∙ k.unchanged;
        present = k.present;
      }

  find_admin_sound :
      (admins : List AdminUser) (a : AdminUser)
      → find_admin (is_for id) admins ≡ some a
      → a.user_id ≡ id
  unfolding find_admin
  find_admin_sound [] a h = cc
  find_admin_sound (b ∷ admins) a h = ground (arith, find_admin_sound admins a)

  gone :
      (user : ℕ) (db : Db)
      → IsProtected id permissions db
      → user ≢ id
      → IsProtected id permissions (record {
        users = keep (λ u. not (has_id user u)) db.users;
        accounts = keep (λ a. not (belongs_to user a)) db.accounts;
        admins = keep (λ a. not (is_for user a)) db.admins;
      })
  gone user db k ne =
      let mine = find_admin_sound db.admins k.admin k.found in
      record {
        admin = k.admin;
        found =
            find_admin-keep (is_for id) (λ a. not (is_for user a)) db.admins k.admin k.found
              (ground arith);
        superadmin = k.superadmin;
        unchanged = k.unchanged;
        present = keep-has_id id user db.users k.present (λ e. ne (sym e));
      }

  is_superadmin_user_lem :
      (db : Db) → IsProtected id permissions db → is_superadmin_user false id db ≡ true
  unfolding is_superadmin_user
  is_superadmin_user_lem db k = rw k.found k.superadmin

  other_user :
      (user : ℕ) (fails : Bool) (db : Db)
      → IsProtected id permissions db
      → fails ≡ false
      → is_superadmin_user fails user db ≡ false
      → user ≢ id
  other_user user fails db k reads ordinary = λ same. let super = is_superadmin_user_lem db k in cc

  -- the tables after the second statement of `DeleteUser`
  abbrev after_forgetting : Bool → ℕ → Db → Db
  after_forgetting fails user db = record db {
    admins = if fails then db.admins else forget_creator user db.admins;
  }

  after_forgetting-IsProtected :
      (fails : Bool) (user : ℕ) (db : Db)
      → IsProtected id permissions db
      → IsProtected id permissions (after_forgetting fails user db)
  after_forgetting-IsProtected true user db k = k
  after_forgetting-IsProtected false user db k = forgotten user db k

  delete_user-IsProtected :
      (e : Env) (user : ℕ) (db : Db)
      → e.fails 0 ≡ false
      → IsProtected id permissions db
      → IsProtected id permissions (delete_user e user db).1
  unfolding delete_user
  delete_user-IsProtected e user db reads k =
      let after = (delete_user e user db).1 in
      let mid = after_forgetting (e.fails 1) user db in
      let mid_k = after_forgetting-IsProtected (e.fails 1) user db k in
      let kept = keep (λ a. not (is_for user a)) mid.admins in
      elim (Bool-cases (is_superadmin_user (e.fails 0) user db)) [
        | inl stopped ↦ let same : after ≡ db = ground arith in rw same k
        | inr ordinary ↦
            let ne = other_user user (e.fails 0) db k reads ordinary in
            elim (Bool-cases
              (e.fails 2 || any (has_id user) db.users && any (created_by_user user) kept)) [
                | inl failed ↦ let same : after ≡ mid = ground arith in rw same mid_k
                | inr fine ↦ elim (Bool-cases (any (has_id user) db.users)) [
                  | inr missing ↦ let same : after ≡ mid = ground arith in rw same mid_k
                  | inl there ↦
                      let end : Db = record {
                        users = keep (λ u. not (has_id user u)) mid.users;
                        accounts = keep (λ a. not (belongs_to user a)) mid.accounts;
                        admins = kept;
                      } in
                      let same : after ≡ end = ground arith in rw same (gone user mid mid_k ne)
                ]
              ]
      ]

  Step-IsProtected :
      {db db' : Db} → Step db db' → IsProtected id permissions db → IsProtected id permissions db'
  Step-IsProtected {db} {db'} (added table sql_lower e new_id email ps created_by j h) k =
      add_admin-IsProtected id permissions table sql_lower e new_id email ps created_by j db db' k h
  Step-IsProtected (permitted e admin ps db) k =
      update_permissions-IsProtected id permissions e admin ps db k
  Step-IsProtected {db} {db'} (removed fails admin h) k =
      remove_admin-IsProtected id permissions fails admin db db' k h
  Step-IsProtected (user_edited table sql_lower e user i db) k =
      update_user-IsProtected table sql_lower e user i db k
  Step-IsProtected (user_deleted e user db reads) k = delete_user-IsProtected e user db reads k

  -- A superadmin whose user is in the tables stays both, with the same permissions, through every
  -- sequence of additions of administrators, changes of permissions, removals, edits of users and
  -- deletions of users; in the deletions the query for the flag must have an answer.
  pub Reach-IsProtected :
      {s t : Db} → IsProtected id permissions s → Reach s t → IsProtected id permissions t
  Reach-IsProtected k here = k
  Reach-IsProtected k (next r st) = Step-IsProtected st (Reach-IsProtected k r)
