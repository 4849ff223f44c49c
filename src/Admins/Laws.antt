-- ===== src/Admins/Laws.antt =====
-- Proofs about the rows of internal/repository/admin.go.
use realm_api.Common.{
  ℕ, ◌≡◌, ◌≢◌, inl, inr, refl, ap, Bool, true, false, ◌&&◌, not, Option, some, List, [], ◌∷◌, ◌++◌,
  Text, any, keep, eqb, arith, Bool-cases, Option-cases,
}
use realm_api.Errors.{ok}
use realm_api.Env.{Env}
use realm_api.Middleware.{AdminUser}
use realm_api.Users.{User}
use realm_api.Users.Repo.{Db, find, has_id, norm}
use realm_api.Admins.{
  Joined, find_admin, is_for, has_admin_id, set_permissions, with_admins, add_admin,
  update_permissions, remove_admin,
}
use realm_api.Admins.Update.{forget_one, forget_creator}

-- The user is in the tables, and is a superadmin with these permissions.
pub record IsProtected (id : ℕ) (permissions : List Text) (db : Db) : Type 0 where
  pub admin : AdminUser
  pub found : find_admin (is_for id) db.admins ≡ some admin
  pub superadmin : admin.is_superadmin ≡ true
  pub unchanged : admin.permissions ≡ permissions
  pub present : any (has_id id) db.users ≡ true

set_permissions-find :
    (id : ℕ) (hit : AdminUser → Bool) (permissions : List Text) (admins : List AdminUser)
    (a : AdminUser)
    → find_admin (is_for id) admins ≡ some a
    → a.is_superadmin ≡ true
    → find_admin (is_for id) (set_permissions hit permissions admins) ≡ some a
unfolding find_admin set_permissions
set_permissions-find id hit permissions [] a h s = cc
set_permissions-find id hit permissions (b ∷ admins) a h s =
    ground (arith, set_permissions-find id hit permissions admins a)

find_admin-append :
    (hit : AdminUser → Bool) (admins : List AdminUser) (a b : AdminUser)
    → find_admin hit admins ≡ some a
    → find_admin hit (admins ++ b ∷ []) ≡ some a
unfolding find_admin
find_admin-append hit [] a b h = cc
find_admin-append hit (c ∷ admins) a b h = ground (arith, find_admin-append hit admins a b)

-- A row that is kept is found again.
pub find_admin-keep :
    (hit kept : AdminUser → Bool) (admins : List AdminUser) (a : AdminUser)
    → find_admin hit admins ≡ some a
    → kept a ≡ true
    → find_admin hit (keep kept admins) ≡ some a
unfolding find_admin
find_admin-keep hit kept [] a h k = cc
find_admin-keep hit kept (b ∷ admins) a h k = elim (Bool-cases (hit b)) [
  | inl here ↦
      let same : b ≡ a = ground arith in
      let kept_here : kept b ≡ true = rw same k in rw kept_here (rw here (ap some same))
  | inr further ↦
      let rest = find_admin-keep hit kept admins a (ground arith) k in
      elim (Bool-cases (kept b)) [
        | inl stays ↦ rw stays (rw further rest)
        | inr goes ↦ rw goes rest
      ]
]

pub forget_creator-find :
    (id other : ℕ) (admins : List AdminUser) (a : AdminUser)
    → find_admin (is_for id) admins ≡ some a
    → (b : AdminUser) × (find_admin (is_for id) (forget_creator other admins) ≡ some b)
      × (b.is_superadmin ≡ a.is_superadmin)
      × (b.permissions ≡ a.permissions)
      × (b.user_id ≡ a.user_id)
unfolding find_admin forget_creator
forget_creator-find id other [] a h = cc
forget_creator-find id other (c ∷ admins) a h = elim (Bool-cases (is_for id c)) [
  | inl here ↦
      let same : c ≡ a = ground arith in
      (
        forget_one other c,
        rw here refl,
        ap (λ (r : AdminUser). r.is_superadmin) same,
        ap (λ (r : AdminUser). r.permissions) same,
        ap (λ (r : AdminUser). r.user_id) same,
      )
  | inr further ↦
      let (b, found, s, p, u) = forget_creator-find id other admins a (ground arith) in
      (b, rw further found, s, p, u)
]

pub keep-has_id :
    (id other : ℕ) (users : List User)
    → any (has_id id) users ≡ true
    → id ≢ other
    → any (has_id id) (keep (λ u. not (has_id other u)) users) ≡ true
keep-has_id id other [] h ne = cc
keep-has_id id other (u ∷ users) h ne = ground (arith, keep-has_id id other users)

module _ (id : ℕ) (permissions : List Text) where
  set_permissions-IsProtected :
      (hit : AdminUser → Bool) (ps : List Text) (db : Db)
      → IsProtected id permissions db
      → IsProtected id permissions (with_admins (set_permissions hit ps db.admins) db)
  set_permissions-IsProtected hit ps db k = record {
    admin = k.admin;
    found = set_permissions-find id hit ps db.admins k.admin k.found k.superadmin;
    superadmin = k.superadmin;
    unchanged = k.unchanged;
    present = k.present;
  }

  pub add_admin-IsProtected :
      (table : ℕ → ℕ) (sql_lower : Text → Text) (e : Env) (new_id : ℕ) (email : Text)
      (ps : List Text) (created_by : Option ℕ) (j : Joined) (db db' : Db)
      → IsProtected id permissions db
      → add_admin table sql_lower e new_id email ps created_by db ≡ ok (j, db')
      → IsProtected id permissions db'
  unfolding add_admin
  add_admin-IsProtected table sql_lower e new_id email ps created_by j db db' k h =
      elim (Option-cases (find (λ u. eqb (sql_lower u.email) (norm table email)) db.users)) [
        | inl nobody ↦ absurd (ground arith)
        | inr (u, found) ↦ elim (Option-cases (find_admin (is_for u.id) db.admins)) [
          | inr (a, there) ↦
              let same : with_admins (set_permissions (is_for u.id) ps db.admins) db ≡ db' =
                ground arith in
              rw (← same) (set_permissions-IsProtected (is_for u.id) ps db k)
          | inl missing ↦
              let a : AdminUser = record {
                created_by = created_by;
                id = new_id;
                user_id = u.id;
                permissions = ps;
                is_superadmin = false;
              } in
              let same : with_admins (db.admins ++ a ∷ []) db ≡ db' = ground arith in
              rw (← same) (record {
                admin = k.admin;
                found = find_admin-append (is_for id) db.admins k.admin a k.found;
                superadmin = k.superadmin;
                unchanged = k.unchanged;
                present = k.present;
              })
        ]
      ]

  pub update_permissions-IsProtected :
      (e : Env) (admin : ℕ) (ps : List Text) (db : Db)
      → IsProtected id permissions db
      → IsProtected id permissions (update_permissions e admin ps db).1
  unfolding update_permissions
  update_permissions-IsProtected e admin ps db k =
      let after = (update_permissions e admin ps db).1 in
      elim (Bool-cases (e.fails 0)) [
        | inl failed ↦ let same : after ≡ db = ground arith in rw same k
        | inr done ↦
            elim (Bool-cases (any (λ a. has_admin_id admin a && not a.is_superadmin) db.admins)) [
              | inr missing ↦ let same : after ≡ db = ground arith in rw same k
              | inl there ↦
                  let same : after
                      ≡ with_admins (set_permissions (has_admin_id admin) ps db.admins) db =
                    ground arith in
                  rw same (set_permissions-IsProtected (has_admin_id admin) ps db k)
            ]
      ]

  pub remove_admin-IsProtected :
      (fails : Bool) (admin : ℕ) (db db' : Db)
      → IsProtected id permissions db
      → remove_admin fails admin db ≡ ok db'
      → IsProtected id permissions db'
  unfolding remove_admin
  remove_admin-IsProtected fails admin db db' k h =
      let kept : AdminUser → Bool = λ a. not (has_admin_id admin a && not a.is_superadmin) in
      let same : with_admins (keep kept db.admins) db ≡ db' = ground arith in
      let super = k.superadmin in
      rw (← same) (record {
        admin = k.admin;
        found = find_admin-keep (is_for id) kept db.admins k.admin k.found (ground arith);
        superadmin = k.superadmin;
        unchanged = k.unchanged;
        present = k.present;
      })
