-- ===== src/Admins/Tests.antt =====
-- A superadmin among two users.
use realm_api.Common.{
  ◌/◌, ◌*◌, ℕ, ◌≡◌, refl, true, false, Option, none, some, List, [], ◌∷◌, Text, txt,
}
use realm_api.Env.{Env}
use realm_api.Errors.{ok, err, new}
use realm_api.Middleware.{AdminUser}
use realm_api.Users.{User}
use realm_api.Users.Repo.{Db}
use realm_api.Admins.{Joined, add_admin, remove_admin}
use realm_api.Admins.Update.{UpdateUserInput, delete_user, update_user}
use realm_api.Admins.Laws.{IsProtected}
use realm_api.Admins.Superadmin.{Reach, here, next, added, user_deleted, Reach-IsProtected}

abbrev env : Env
env = record {
  clock = λ n. 1000;
  fails = λ n. false;
  choice = λ n. 0;
  column = λ t. t / 1000 * 1000;
}

abbrev ann : User
ann = record {
  updated_at = 5;
  created_at = 5;
  provider_id = none;
  two_factor_secret = none;
  password_hash = none;
  avatar_url = none;
  full_name = txt "Ann";
  provider = txt "local";
  username = txt "ann";
  email = txt "ann@a.example";
  two_factor_recovery_codes = [];
  id = 7;
  two_factor_enabled = false;
  is_active = true;
}

abbrev bob : User
bob = record ann { username = txt "bob"; email = txt "bob@b.example"; id = 8 }

abbrev root : AdminUser
root = record {
  created_by = none;
  id = 1;
  user_id = 7;
  permissions = txt "*" ∷ [];
  is_superadmin = true;
}

abbrev helper : AdminUser
helper = record {
  created_by = some 7;
  id = 2;
  user_id = 8;
  permissions = txt "pastes:*" ∷ [];
  is_superadmin = false;
}

abbrev db : Db
db = record { users = ann ∷ bob ∷ []; accounts = []; admins = root ∷ [] }

abbrev db_helped : Db
db_helped = record db { admins = root ∷ helper ∷ [] }

helper-added :
    add_admin (λ c. c) (λ t. t) env 2 (txt " Bob@b.example") (txt "pastes:*" ∷ []) (some 7) db
    ≡ ok (record { admin = helper; user = bob }, db_helped)
unfolding add_admin realm_api.Users.Repo.find realm_api.Common.eqb realm_api.Common.Text-discrete
    realm_api.Common.to_lower realm_api.Common.trim_space realm_api.Admins.find_admin
helper-added = refl

root-kept : remove_admin false 1 db_helped ≡ err (new "admin not found or is superadmin")
unfolding remove_admin
root-kept = refl

bob-deleted :
    delete_user env 8 db_helped
    ≡ (ok tt, record { users = ann ∷ []; accounts = []; admins = root ∷ [] })
unfolding delete_user realm_api.Admins.find_admin
bob-deleted = refl

ann-kept : delete_user env 7 db_helped ≡ (err (new "cannot delete superadmin user"), db_helped)
unfolding delete_user realm_api.Admins.find_admin
ann-kept = refl

abbrev deactivation : UpdateUserInput
deactivation = record { email = none; username = none; full_name = none; is_active = some false }

ann-active :
    update_user (λ c. c) (λ t. t) env 7 deactivation db
    ≡ (err (new "cannot deactivate a superadmin account"), db)
unfolding update_user realm_api.Users.Repo.get_by_id realm_api.Users.Repo.find
    realm_api.Admins.find_admin
ann-active = refl

db-IsProtected : IsProtected 7 (txt "*" ∷ []) db
unfolding realm_api.Admins.find_admin
db-IsProtected = record {
  admin = root;
  found = refl;
  superadmin = refl;
  unchanged = refl;
  present = refl;
}

abbrev db_end : Db
db_end = (delete_user env 8 db_helped).1

abbrev history : Reach db db_end
history =
    next
      (next here (
        added (λ c. c) (λ t. t) env 2 (txt " Bob@b.example") (txt "pastes:*" ∷ []) (some 7)
          (record { admin = helper; user = bob }) helper-added))
      (user_deleted env 8 db_helped refl)

Reach-IsProtected_example : IsProtected 7 (txt "*" ∷ []) db_end
Reach-IsProtected_example =
    Reach-IsProtected 7 (txt "*" ∷ []) {s = db} {t = db_end} db-IsProtected history
