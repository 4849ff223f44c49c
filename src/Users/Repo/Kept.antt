-- ===== src/Users/Repo/Kept.antt =====
-- Proofs about the keys of the tables after insertions in internal/repository/user.go.
use realm_api.Common.{
  ℕ, ◌+◌, ◌≡◌, ◌∙◌, inl, inr, refl, sym, Bool, true, false, List, [], ◌∷◌, ◌++◌, any, all, arith,
  Bool-cases, Option-cases, ◌==◌, Distinct, Distinct-append, all-append,
}
use realm_api.Errors.{Result, ok, err}
use realm_api.Env.{Env}
use realm_api.Users.{User, OAuthAccount}
use realm_api.Users.Repo.{
  with_user, first_account, external_id, Db, has_id, clashes, has_account_id, is_at, is_of,
  find_account, set_accounts, upsert_account, link_oauth_account, or_same, new_row, create,
}
use realm_api.Users.Repo.Update.{set_row}
use realm_api.Users.Repo.Keys.{
  IsKeyed, conflicts, has_owner, any-clashes_sym, any-conflicts_sym, owned-append,
  find_account-none, any-conflicts, set_accounts-Distinct, set_accounts-owned,
}

insert-IsKeyed :
    (a : OAuthAccount) (db : Db)
    → IsKeyed db
    → any (has_account_id a.id) db.accounts ≡ false
    → any (is_at a.provider a.provider_id) db.accounts ≡ false
    → any (is_of a.user_id a.provider) db.accounts ≡ false
    → any (has_id a.user_id) db.users ≡ true
    → IsKeyed (record db { accounts = db.accounts ++ a ∷ [] })
insert-IsKeyed a db k h i j o = record {
  users_distinct = k.users_distinct;
  accounts_distinct =
      Distinct-append conflicts db.accounts a k.accounts_distinct
        (sym (any-conflicts_sym a db.accounts) ∙ any-conflicts a db.accounts h i j);
  have_owners = all-append (has_owner db.users) db.accounts (a ∷ []) ∙ rw (k.have_owners, o);
}

upsert_account-IsKeyed :
    (a : OAuthAccount) (db db' : Db) → IsKeyed db → upsert_account a db ≡ ok db' → IsKeyed db'
unfolding upsert_account
upsert_account-IsKeyed a db db' k h =
    elim (Option-cases (find_account (is_at a.provider a.provider_id) db.accounts)) [
      | inr (b, found) ↦ elim (Bool-cases (b.user_id == a.user_id)) [
        | inl mine ↦
            let e : record db {
              accounts = set_accounts (is_at a.provider a.provider_id) a db.accounts;
            }
                ≡ db' =
              ground arith in
            rw (← e) (record {
              users_distinct = k.users_distinct;
              accounts_distinct =
                  set_accounts-Distinct (is_at a.provider a.provider_id) a db.accounts
                    k.accounts_distinct;
              have_owners =
                  set_accounts-owned db.users (is_at a.provider a.provider_id) a db.accounts
                  ∙ k.have_owners;
            })
        | inr other ↦ let e : db ≡ db' = ground arith in rw (← e) k
      ]
      | inl missing ↦
          let e : record db { accounts = db.accounts ++ a ∷ [] } ≡ db' = ground arith in
          rw (← e) (
            insert-IsKeyed a db k (ground arith) (find_account-none _ db.accounts missing)
              (ground arith) (ground arith))
    ]

pub link_oauth_account-IsKeyed :
    (fails later_fails : Bool) (a : OAuthAccount) (db db' : Db)
    → IsKeyed db
    → link_oauth_account fails later_fails a db ≡ ok db'
    → IsKeyed db'
unfolding link_oauth_account
link_oauth_account-IsKeyed fails later_fails a db db' k h =
    upsert_account-IsKeyed a db db' k (ground arith)

or_same-IsKeyed :
    (db : Db) (r : Result Db)
    → IsKeyed db
    → ((db' : Db) → r ≡ ok db' → IsKeyed db')
    → IsKeyed (or_same db r)
or_same-IsKeyed db (ok db') k h = h db' refl
or_same-IsKeyed db (err x) k h = k

with_user-IsKeyed :
    (row : User) (db : Db)
    → IsKeyed db
    → any (clashes row) db.users ≡ false
    → IsKeyed (with_user row db)
with_user-IsKeyed row db k new = record {
  users_distinct =
      Distinct-append clashes db.users row k.users_distinct
        (sym (any-clashes_sym row db.users) ∙ new);
  accounts_distinct = k.accounts_distinct;
  have_owners = owned-append db.users row db.accounts k.have_owners;
}

pub create-IsKeyed :
    (table : ℕ → ℕ) (e : Env) (first account : ℕ) (user : User) (db db' : Db)
    → IsKeyed db
    → create table e first account user db ≡ ok db'
    → IsKeyed db'
unfolding create
create-IsKeyed table e first account user db db' k h =
    let row = new_row table user in
    let added = with_user-IsKeyed row db k (ground arith) in
    elim (Option-cases (external_id user)) [
      | inl local ↦ let same : with_user row db ≡ db' = ground arith in rw (← same) added
      | inr (provider_id, external) ↦
          let link : Result Db =
            link_oauth_account (e.fails (first + 1)) (e.fails (first + 2))
              (first_account account user provider_id) (with_user row db) in
          let same : or_same (with_user row db) link ≡ db' = ground arith in
          rw (← same) (
            or_same-IsKeyed (with_user row db) link added
              (λ after done. link_oauth_account-IsKeyed _ _ _ (with_user row db) after added done))
    ]

-- An update of a row that leaves its keys alone.
set_row-any :
    (id : ℕ) (change : User → User)
    → ((u : User)
        → ((change u).id ≡ u.id)
          × ((change u).email ≡ u.email)
          × ((change u).username ≡ u.username))
    → (v : User) (users : List User)
    → any (clashes v) (set_row id change users) ≡ any (clashes v) users
unfolding set_row clashes
set_row-any id change keeps v [] = refl
set_row-any id change keeps v (u ∷ users) =
    ground (arith, keeps u, set_row-any id change keeps v users)

changed-any :
    (v w : User) (users : List User)
    → w.id ≡ v.id
    → w.email ≡ v.email
    → w.username ≡ v.username
    → any (clashes w) users ≡ any (clashes v) users
unfolding clashes
changed-any v w [] h i j = refl
changed-any v w (u ∷ users) h i j = ground (arith, changed-any v w users)

set_row-Distinct :
    (id : ℕ) (change : User → User)
    → ((u : User)
        → ((change u).id ≡ u.id)
          × ((change u).email ≡ u.email)
          × ((change u).username ≡ u.username))
    → (users : List User) → Distinct clashes users
    → Distinct clashes (set_row id change users)
unfolding set_row
set_row-Distinct id change keeps [] d = tt
set_row-Distinct id change keeps (u ∷ users) d =
    let same = set_row-any id change keeps u users in
    let (i, e, n) = keeps u in
    let same' = changed-any u (change u) (set_row id change users) i e n in
    let rest = set_row-Distinct id change keeps users d.1 in
    elim (Bool-cases (has_id id u)) [
      | inl changed ↦ rw changed (same' ∙ same ∙ d.0, rest)
      | inr kept ↦ rw kept (same ∙ d.0, rest)
    ]

pub set_row-has_id :
    (id : ℕ) (change : User → User)
    → ((u : User) → (change u).id ≡ u.id)
    → (j : ℕ) (users : List User) → any (has_id j) (set_row id change users) ≡ any (has_id j) users
unfolding set_row
set_row-has_id id change keeps j [] = refl
set_row-has_id id change keeps j (u ∷ users) =
    ground (arith, keeps u, set_row-has_id id change keeps j users)

pub set_row-owned :
    (id : ℕ) (change : User → User)
    → ((u : User) → (change u).id ≡ u.id)
    → (users : List User) (accounts : List OAuthAccount)
    → all (has_owner (set_row id change users)) accounts ≡ all (has_owner users) accounts
set_row-owned id change keeps users [] = refl
set_row-owned id change keeps users (a ∷ accounts) = ground (
  arith,
  set_row-has_id id change keeps a.user_id users,
  set_row-owned id change keeps users accounts,
)

pub set_row-IsKeyed :
    (id : ℕ) (change : User → User)
    → ((u : User)
        → ((change u).id ≡ u.id)
          × ((change u).email ≡ u.email)
          × ((change u).username ≡ u.username))
    → (db : Db) → IsKeyed db
    → IsKeyed (record db { users = set_row id change db.users })
set_row-IsKeyed id change keeps db k = record {
  users_distinct = set_row-Distinct id change keeps db.users k.users_distinct;
  accounts_distinct = k.accounts_distinct;
  have_owners = set_row-owned id change (λ u. (keeps u).0) db.users db.accounts ∙ k.have_owners;
}
