-- ===== src/Users/Repo/History.antt =====
-- internal/repository/user.go as a whole: the changes of the tables, in any order, and their keys.
use realm_api.Common.{
  ℕ, ◌+◌, true, false, [], ◌≡◌, inl, inr, refl, Bool, not, none, some, List, Text, Option-cases,
  arith, Bool-cases, keep, Distinct-keep, leb, length,
}
use realm_api.Errors.{ok, Result-cases}
use realm_api.Env.{Env}
use realm_api.Users.{User, OAuthAccount}
use realm_api.Users.Repo.{Db, create, link_oauth_account, is_of, get_by_id}
use realm_api.Users.Repo.Update.{
  set_row, update, update_password, unlink_oauth_account, update_2fa_secret, enable_2fa,
  disable_2fa, consume_recovery_code, get_oauth_accounts, remove_code,
}
use realm_api.Users.Repo.Keys.{IsKeyed, conflicts, owned-keep}
use realm_api.Users.Repo.Kept.{create-IsKeyed, link_oauth_account-IsKeyed, set_row-IsKeyed}
use realm_api.Users.Repo.Renamed.{update-IsKeyed}

-- An operation that fails leaves the tables as they are; these have succeeded. Eight recovery codes at
-- most are given at a time.
pub data Step : Db → Db → Type 0 where
  created :
      (table : ℕ → ℕ) (e : Env) (first account : ℕ) (user : User) {db db' : Db}
      → create table e first account user db ≡ ok db'
      → Step db db'
  linked :
      (fails later_fails : Bool) (a : OAuthAccount) {db db' : Db}
      → link_oauth_account fails later_fails a db ≡ ok db'
      → Step db db'
  unlinked :
      (e : Env) (id : ℕ) (provider : Text) {db db' : Db}
      → unlink_oauth_account e id provider db ≡ ok db'
      → Step db db'
  updated : (fails : Bool) (user : User) {db db' : Db} → update fails user db ≡ ok db' → Step db db'
  password_set :
      (fails : Bool) (now id : ℕ) (hash : Text) {db db' : Db}
      → update_password fails now id hash db ≡ ok db'
      → Step db db'
  secret_set :
      (fails : Bool) (now id : ℕ) (secret : Text) {db db' : Db}
      → update_2fa_secret fails now id secret db ≡ ok db'
      → Step db db'
  enabled :
      (fails : Bool) (now id : ℕ) (secret : Text) (codes : List Text) {db db' : Db}
      → leb (length codes) 8 ≡ true
      → enable_2fa fails now id secret codes db ≡ ok db'
      → Step db db'
  disabled :
      (fails : Bool) (now id : ℕ) {db db' : Db} → disable_2fa fails now id db ≡ ok db' → Step db db'
  consumed :
      (upper : ℕ → ℕ) (e : Env) (first id : ℕ) (code : Text) (db : Db)
      → Step db (consume_recovery_code upper e first id code db).1

pub data Reach (s : Db) : Db → Type 0 where
  here : Reach s s
  next : {t u : Db} → Reach s t → Step t u → Reach s u

-- A change of one row, behind an answer of the driver.
same_keys :
    (id : ℕ) (change : User → User) (db db' : Db)
    → ((u : User)
        → ((change u).id ≡ u.id)
          × ((change u).email ≡ u.email)
          × ((change u).username ≡ u.username))
    → IsKeyed db
    → record db { users = set_row id change db.users } ≡ db'
    → IsKeyed db'
same_keys id change db db' keeps k e = rw (← e) (set_row-IsKeyed id change keeps db k)

unlink_oauth_account-IsKeyed :
    (e : Env) (id : ℕ) (provider : Text) (db db' : Db)
    → IsKeyed db
    → unlink_oauth_account e id provider db ≡ ok db'
    → IsKeyed db'
unfolding unlink_oauth_account
unlink_oauth_account-IsKeyed e id provider db db' k h =
    elim (Result-cases (get_by_id (e.fails 0) id db)) [
      | inr (x, bad) ↦ absurd (ground arith)
      | inl (u, good) ↦ elim (Result-cases (get_oauth_accounts (e.fails 1) id db)) [
        | inr (x, bad) ↦ absurd (ground arith)
        | inl (accounts, read) ↦
            let gone : OAuthAccount → Bool = λ a. not (is_of id provider a) in
            let same : record db { accounts = keep gone db.accounts } ≡ db' = ground arith in
            rw (← same) (record {
              users_distinct = k.users_distinct;
              accounts_distinct = Distinct-keep conflicts gone db.accounts k.accounts_distinct;
              have_owners = owned-keep db.users gone db.accounts k.have_owners;
            })
      ]
    ]

consume_recovery_code-IsKeyed :
    (upper : ℕ → ℕ) (e : Env) (first id : ℕ) (code : Text) (db : Db)
    → IsKeyed db
    → IsKeyed (consume_recovery_code upper e first id code db).1
unfolding consume_recovery_code
consume_recovery_code-IsKeyed upper e first id code db k =
    elim (Result-cases (get_by_id (e.fails first) id db)) [
      | inr (x, bad) ↦ rw (bad, consume_recovery_code) k
      | inl (u, good) ↦ elim (Option-cases (remove_code upper code u.two_factor_recovery_codes)) [
        | inl missing ↦ rw (good, consume_recovery_code) (rw missing k)
        | inr (left, found) ↦ elim (Bool-cases (e.fails (first + 1))) [
          | inl failed ↦ rw (good, consume_recovery_code) (rw found (rw failed k))
          | inr done ↦
              rw (good, consume_recovery_code)
                (rw found (rw done (set_row-IsKeyed id _ (λ v. (refl, refl, refl)) db k)))
        ]
      ]
    ]

Step-IsKeyed : {db db' : Db} → Step db db' → IsKeyed db → IsKeyed db'
unfolding update_password update_2fa_secret enable_2fa disable_2fa
Step-IsKeyed {db} {db'} (created table e first account user h) k =
    create-IsKeyed table e first account user db db' k h
Step-IsKeyed {db} {db'} (linked fails later_fails a h) k =
    link_oauth_account-IsKeyed fails later_fails a db db' k h
Step-IsKeyed {db} {db'} (unlinked e id provider h) k =
    unlink_oauth_account-IsKeyed e id provider db db' k h
Step-IsKeyed {db} {db'} (updated fails user h) k = update-IsKeyed user fails db db' k h
Step-IsKeyed {db} {db'} (password_set fails now id hash h) k =
    same_keys id (λ u. record u { password_hash = some hash; updated_at = now }) db db'
      (λ u. (refl, refl, refl)) k (ground arith)
Step-IsKeyed {db} {db'} (secret_set fails now id secret h) k =
    same_keys id (λ u. record u { two_factor_secret = some secret; updated_at = now }) db db'
      (λ u. (refl, refl, refl)) k (ground arith)
Step-IsKeyed {db} {db'} (enabled fails now id secret codes few h) k =
    same_keys id
      (λ u. record u {
        two_factor_enabled = true;
        two_factor_secret = some secret;
        two_factor_recovery_codes = codes;
        updated_at = now;
      })
      db db' (λ u. (refl, refl, refl)) k (ground arith)
Step-IsKeyed {db} {db'} (disabled fails now id h) k =
    same_keys id
      (λ u. record u {
        two_factor_enabled = false;
        two_factor_secret = none;
        two_factor_recovery_codes = [];
        updated_at = now;
      })
      db db' (λ u. (refl, refl, refl)) k (ground arith)
Step-IsKeyed (consumed upper e first id code db) k =
    consume_recovery_code-IsKeyed upper e first id code db k

-- From tables in which the identifiers, addresses and names of users are unique, and the identifiers,
-- places at a provider and pairs of user and provider of accounts, each of a user that exists, no
-- sequence of successful operations of the repository, recovery codes tried in between, leads to tables
-- where this does not hold.
pub Reach-IsKeyed : {s t : Db} → IsKeyed s → Reach s t → IsKeyed t
Reach-IsKeyed k here = k
Reach-IsKeyed k (next r st) = Step-IsKeyed st (Reach-IsKeyed k r)
