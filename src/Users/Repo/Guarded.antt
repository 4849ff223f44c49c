-- ===== src/Users/Repo/Guarded.antt =====
-- Proofs about the columns of the second factor in internal/repository/user.go.
use realm_api.Common.{
  ℕ, ◌+◌, ◌≡◌, ◌∙◌, inl, inr, refl, Bool, true, false, ◌&&◌, Option, none, some, List, [], ◌∷◌,
  ◌++◌, Text, any, all, all-append, length, leb, arith, Bool-cases, Option-cases, ◌==◌, Distinct,
  if◌then◌else◌,
}
use realm_api.Errors.{Result, ok, err, Result-cases}
use realm_api.Env.{Env}
use realm_api.Users.{User, OAuthAccount}
use realm_api.Users.Repo.{
  Db, find, has_id, clashes, is_at, find_account, upsert_account, link_oauth_account, or_same,
  new_row, with_user, first_account, external_id, create, get_by_id,
}
use realm_api.Users.Repo.Update.{
  set_row, update, update_password, unlink_oauth_account, update_2fa_secret, enable_2fa,
  disable_2fa, remove_code, consume_recovery_code, get_oauth_accounts, write_columns,
}
use realm_api.Users.Repo.Rows.{get_by_id-eq-ok}
use realm_api.Users.Repo.Keys.{IsKeyed}
use realm_api.Users.Repo.History.{
  Step, Reach, here, next, created, linked, unlinked, updated, password_set, secret_set, enabled,
  disabled, consumed, Reach-IsKeyed,
}

abbrev is_set : Option Text → Bool
is_set none = false
is_set (some t) = true

-- With the second factor on there is a secret, and eight recovery codes at most; with it off there are
-- no codes.
unfoldable pub guarded : User → Bool
guarded u =
    if u.two_factor_enabled
    then is_set u.two_factor_secret && leb (length u.two_factor_recovery_codes) 8
    else length u.two_factor_recovery_codes == 0

abbrev pub IsGuarded : Db → Type 0
IsGuarded db = all guarded db.users ≡ true

-- No other row has the identifier of a row that clashes with none.
only :
    (id : ℕ) (v : User) (users : List User)
    → any (clashes v) users ≡ false
    → has_id id v ≡ true
    → any (has_id id) users ≡ false
unfolding clashes
only id v [] h own = refl
only id v (w ∷ users) h own = ground (arith, only id v users)

module _ (id : ℕ) (change : User → User) where
  set_row-guarded :
      ((v : User) → guarded v ≡ true → guarded (change v) ≡ true)
      → (users : List User) → all guarded users ≡ true
      → all guarded (set_row id change users) ≡ true
  unfolding set_row
  set_row-guarded keeps [] h = refl
  set_row-guarded keeps (v ∷ users) h = ground (arith, keeps v, set_row-guarded keeps users)

  set_row-absent :
      (users : List User) → any (has_id id) users ≡ false → set_row id change users ≡ users
  unfolding set_row
  set_row-absent [] h = refl
  set_row-absent (v ∷ users) h = ground (arith, set_row-absent users)

  -- the one row that is found
  set_row-found :
      (users : List User) (u : User)
      → Distinct clashes users
      → find (has_id id) users ≡ some u
      → guarded (change u) ≡ true
      → all guarded users ≡ true
      → all guarded (set_row id change users) ≡ true
  unfolding set_row find
  set_row-found [] u d f g h = refl
  set_row-found (v ∷ users) u d f g h = elim (Bool-cases (has_id id v)) [
    | inr other ↦ ground (arith, set_row-found users u d.1)
    | inl own ↦
        let same : v ≡ u = ground arith in
        let mine : guarded (change v) ≡ true = rw same g in
        let rest = set_row-absent users (only id v users d.0 own) in ground arith
  ]

upsert_account-users :
    (a : OAuthAccount) (db db' : Db) → upsert_account a db ≡ ok db' → db'.users ≡ db.users
unfolding upsert_account
upsert_account-users a db db' h =
    elim (Option-cases (find_account (is_at a.provider a.provider_id) db.accounts)) [
      | inr (b, found) ↦ ground arith
      | inl missing ↦ ground arith
    ]

link_oauth_account-users :
    (fails later_fails : Bool) (a : OAuthAccount) (db db' : Db)
    → link_oauth_account fails later_fails a db ≡ ok db'
    → db'.users ≡ db.users
unfolding link_oauth_account
link_oauth_account-users fails later_fails a db db' h = upsert_account-users a db db' (ground arith)

or_same-users :
    (db : Db) (r : Result Db)
    → ((db' : Db) → r ≡ ok db' → db'.users ≡ db.users)
    → (or_same db r).users ≡ db.users
or_same-users db (ok db') h = h db' refl
or_same-users db (err x) h = refl

create-users :
    (table : ℕ → ℕ) (e : Env) (first account : ℕ) (user : User) (db db' : Db)
    → create table e first account user db ≡ ok db'
    → db'.users ≡ db.users ++ new_row table user ∷ []
unfolding create
create-users table e first account user db db' h =
    let row = new_row table user in
    elim (Option-cases (external_id user)) [
      | inl local ↦ let same : with_user row db ≡ db' = ground arith in rw (← same) refl
      | inr (provider_id, external) ↦
          let link : Result Db =
            link_oauth_account (e.fails (first + 1)) (e.fails (first + 2))
              (first_account account user provider_id) (with_user row db) in
          let same : or_same (with_user row db) link ≡ db' = ground arith in
          rw (← same) (
            or_same-users (with_user row db) link (λ after. link_oauth_account-users _ _ _ _ after))
    ]

remove_code-length :
    (upper : ℕ → ℕ) (code : Text) (codes left : List Text)
    → remove_code upper code codes ≡ some left
    → length codes ≡ length left + 1
unfolding remove_code
remove_code-length upper code [] left h = cc
remove_code-length upper code (c ∷ codes) left h =
    elim (Option-cases (remove_code upper code codes)) [
      | inl missing ↦ ground arith
      | inr (rest, there) ↦ ground (arith, remove_code-length upper code codes rest there)
    ]

-- A code is found only where there are codes.
fewer-guarded :
    (upper : ℕ → ℕ) (code : Text) (u : User) (left : List Text) (now : ℕ)
    → remove_code upper code u.two_factor_recovery_codes ≡ some left
    → guarded u ≡ true
    → guarded (record u { two_factor_recovery_codes = left; updated_at = now }) ≡ true
unfolding guarded
fewer-guarded upper code u left now h g =
    let fewer = remove_code-length upper code u.two_factor_recovery_codes left h in ground arith

all-found :
    (hit : User → Bool) (users : List User) (u : User)
    → find hit users ≡ some u
    → all guarded users ≡ true
    → guarded u ≡ true
unfolding find
all-found hit [] u f h = cc
all-found hit (v ∷ users) u f h = ground (arith, all-found hit users u)

consume_recovery_code-IsGuarded :
    (upper : ℕ → ℕ) (e : Env) (first id : ℕ) (code : Text) (db : Db)
    → IsKeyed db
    → IsGuarded db
    → IsGuarded (consume_recovery_code upper e first id code db).1
unfolding consume_recovery_code
consume_recovery_code-IsGuarded upper e first id code db k g =
    elim (Result-cases (get_by_id (e.fails first) id db)) [
      | inr (x, bad) ↦ rw (bad, consume_recovery_code) g
      | inl (u, good) ↦ elim (Option-cases (remove_code upper code u.two_factor_recovery_codes)) [
        | inl missing ↦ rw (good, consume_recovery_code) (rw missing g)
        | inr (left, there) ↦ elim (Bool-cases (e.fails (first + 1))) [
          | inl failed ↦ rw (good, consume_recovery_code) (rw there (rw failed g))
          | inr done ↦
              let found = get_by_id-eq-ok (e.fails first) id db u good in
              let mine = all-found (has_id id) db.users u found g in
              rw (good, consume_recovery_code)
                (rw there (
                  rw done (
                    set_row-found id _ db.users u k.users_distinct found
                      (fewer-guarded upper code u left (e.clock first) there mine) g)))
        ]
      ]
    ]

-- A change of one row that guards it, behind an answer of the driver.
changed-IsGuarded :
    (id : ℕ) (change : User → User) (db db' : Db)
    → ((v : User) → guarded v ≡ true → guarded (change v) ≡ true)
    → IsGuarded db
    → record db { users = set_row id change db.users } ≡ db'
    → IsGuarded db'
changed-IsGuarded id change db db' keeps g e = rw (← e) (set_row-guarded id change keeps db.users g)

unlink_oauth_account-users :
    (e : Env) (id : ℕ) (provider : Text) (db db' : Db)
    → unlink_oauth_account e id provider db ≡ ok db'
    → db'.users ≡ db.users
unfolding unlink_oauth_account
unlink_oauth_account-users e id provider db db' h =
    elim (Result-cases (get_by_id (e.fails 0) id db)) [
      | inr (x, bad) ↦ absurd (ground arith)
      | inl (u, good) ↦ elim (Result-cases (get_oauth_accounts (e.fails 1) id db)) [
        | inr (x, bad) ↦ absurd (ground arith)
        | inl (accounts, read) ↦ ground arith
      ]
    ]

Step-IsGuarded : {db db' : Db} → Step db db' → IsKeyed db → IsGuarded db → IsGuarded db'
unfolding update update_password update_2fa_secret enable_2fa disable_2fa guarded new_row
Step-IsGuarded {db} {db'} (created table e first account user h) k g =
    rw (create-users table e first account user db db' h)
      (all-append guarded db.users (new_row table user ∷ []) ∙ rw g refl)
Step-IsGuarded {db} {db'} (linked fails later_fails a h) k g =
    rw (link_oauth_account-users fails later_fails a db db' h) g
Step-IsGuarded {db} {db'} (unlinked e id provider h) k g =
    rw (unlink_oauth_account-users e id provider db db' h) g
Step-IsGuarded {db} {db'} (updated fails user h) k g =
    changed-IsGuarded user.id (write_columns user) db db' (λ v w. w) g (ground arith)
Step-IsGuarded {db} {db'} (password_set fails now id hash h) k g =
    changed-IsGuarded id (λ u. record u { password_hash = some hash; updated_at = now }) db db'
      (λ v w. w) g (ground arith)
Step-IsGuarded {db} {db'} (secret_set fails now id secret h) k g =
    changed-IsGuarded id (λ u. record u { two_factor_secret = some secret; updated_at = now }) db
      db' (λ v w. ground arith) g (ground arith)
Step-IsGuarded {db} {db'} (enabled fails now id secret codes few h) k g =
    changed-IsGuarded id
      (λ u. record u {
        two_factor_enabled = true;
        two_factor_secret = some secret;
        two_factor_recovery_codes = codes;
        updated_at = now;
      })
      db db' (λ v w. few) g (ground arith)
Step-IsGuarded {db} {db'} (disabled fails now id h) k g =
    changed-IsGuarded id
      (λ u. record u {
        two_factor_enabled = false;
        two_factor_secret = none;
        two_factor_recovery_codes = [];
        updated_at = now;
      })
      db db' (λ v w. refl) g (ground arith)
Step-IsGuarded (consumed upper e first id code db) k g =
    consume_recovery_code-IsGuarded upper e first id code db k g

pub Reach-IsGuarded : {s t : Db} → IsKeyed s → IsGuarded s → Reach s t → IsGuarded t
Reach-IsGuarded k g here = g
Reach-IsGuarded k g (next r st) = Step-IsGuarded st (Reach-IsKeyed k r) (Reach-IsGuarded k g r)
