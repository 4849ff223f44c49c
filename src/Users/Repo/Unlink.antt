-- ===== src/Users/Repo/Unlink.antt =====
-- Proofs about `UnlinkOAuthAccount` of internal/repository/user.go.
use realm_api.Common.{
  ℕ, ◌+◌, ◌≤◌, ◌≡◌, ◌⊎◌, inl, inr, refl, Bool, true, false, not, some, List, [], ◌∷◌, Text, any,
  keep, length, eqb_iff, arith, Bool-cases, Distinct,
}
use realm_api.Errors.{ok, Result-cases}
use realm_api.Env.{Env}
use realm_api.Users.{User, OAuthAccount, is_given}
use realm_api.Users.Repo.{Db, find, has_id, is_of, get_by_id}
use realm_api.Users.Repo.Update.{
  belongs_to, insert_by_age, sort_by_age, get_oauth_accounts, unlink_oauth_account,
}
use realm_api.Users.Repo.Keys.{IsKeyed, conflicts}
use realm_api.Users.Repo.Rows.{get_by_id-eq-ok}

length-insert_by_age :
    (a : OAuthAccount) (accounts : List OAuthAccount)
    → length (insert_by_age a accounts) ≡ length accounts + 1
unfolding insert_by_age
length-insert_by_age a [] = omega arith
length-insert_by_age a (b ∷ accounts) = ground (arith, length-insert_by_age a accounts)

length-sort_by_age :
    (accounts : List OAuthAccount) → length (sort_by_age accounts) ≡ length accounts
unfolding sort_by_age
length-sort_by_age [] = omega arith
length-sort_by_age (a ∷ accounts) =
    omega (arith, length-insert_by_age a (sort_by_age accounts), length-sort_by_age accounts)

any-keep_of_length :
    (p : OAuthAccount → Bool) (accounts : List OAuthAccount)
    → 1 ≤ length (keep p accounts)
    → any p accounts ≡ true
any-keep_of_length p [] h = absurd (omega arith)
any-keep_of_length p (a ∷ accounts) h = ground (arith, any-keep_of_length p accounts)

module _ (id : ℕ) (provider : Text) where
  abbrev other : OAuthAccount → Bool
  other a = not (is_of id provider a)

  keep-other :
      (accounts : List OAuthAccount)
      → any (is_of id provider) accounts ≡ false
      → keep other accounts ≡ accounts
  keep-other [] h = refl
  keep-other (a ∷ accounts) h = ground (arith, keep-other accounts)

  any-keep-other :
      (accounts : List OAuthAccount) → any (is_of id provider) (keep other accounts) ≡ false
  any-keep-other [] = refl
  any-keep-other (a ∷ accounts) = ground (arith, any-keep-other accounts)

  conflicts-of :
      (a : OAuthAccount) (accounts : List OAuthAccount)
      → is_of id provider a ≡ true
      → any (conflicts a) accounts ≡ false
      → any (is_of id provider) accounts ≡ false
  unfolding conflicts
  conflicts-of a [] h d = refl
  conflicts-of a (b ∷ accounts) h d = ground (
    arith,
    conflicts-of a accounts,
    eqb_iff a.provider provider,
    eqb_iff b.provider a.provider,
    eqb_iff b.provider provider,
  )

  -- At most one account of the user is at the provider.
  length-keep-other :
      (accounts : List OAuthAccount)
      → Distinct conflicts accounts
      → length (keep (belongs_to id) accounts)
        ≤ length (keep (belongs_to id) (keep other accounts)) + 1
  length-keep-other [] d = omega arith
  length-keep-other (a ∷ accounts) d = elim (Bool-cases (is_of id provider a)) [
    | inl own ↦
        let same = keep-other accounts (conflicts-of a accounts own d.0) in
        rw own (rw same (ground arith))
    | inr kept ↦ rw kept (ground (arith, length-keep-other accounts d.1))
  ]

length_read :
    (fails : Bool) (id : ℕ) (db : Db) (accounts : List OAuthAccount)
    → get_oauth_accounts fails id db ≡ ok accounts
    → length accounts ≡ length (keep (belongs_to id) db.accounts)
unfolding get_oauth_accounts
length_read fails id db accounts h =
    let same : sort_by_age (keep (belongs_to id) db.accounts) ≡ accounts = ground arith in
    rw (← same) (length-sort_by_age (keep (belongs_to id) db.accounts))

-- A successful disconnection, from tables whose keys are unique, removes every account of the user at
-- the provider, and leaves the user with a password or with an account at another provider.
pub unlink_oauth_account_safe :
    (e : Env) (id : ℕ) (provider : Text) (db db' : Db)
    → IsKeyed db
    → unlink_oauth_account e id provider db ≡ ok db'
    → (u : User) × (find (has_id id) db'.users ≡ some u)
      × (any (is_of id provider) db'.accounts ≡ false)
      × ((is_given u.password_hash ≡ true) ⊎ (any (belongs_to id) db'.accounts ≡ true))
unfolding unlink_oauth_account
unlink_oauth_account_safe e id provider db db' k h =
    elim (Result-cases (get_by_id (e.fails 0) id db)) [
      | inr (x, bad) ↦ absurd (ground arith)
      | inl (u, good) ↦ elim (Result-cases (get_oauth_accounts (e.fails 1) id db)) [
        | inr (x, bad) ↦ absurd (ground arith)
        | inl (accounts, read) ↦
            let found = get_by_id-eq-ok (e.fails 0) id db u good in
            let same : record db { accounts = keep (other id provider) db.accounts } ≡ db' =
              ground arith in
            let many = length_read (e.fails 1) id db accounts read in
            rw (← same) (
              u,
              found,
              any-keep-other id provider db.accounts,
              elim (Bool-cases (is_given u.password_hash)) [
                | inl given ↦ inl given
                | inr without ↦ inr (
                    any-keep_of_length (belongs_to id) (keep (other id provider) db.accounts) (
                      ground
                        (arith, length-keep-other id provider db.accounts k.accounts_distinct)))
              ],
            )
      ]
    ]
