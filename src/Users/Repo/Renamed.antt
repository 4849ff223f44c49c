-- ===== src/Users/Repo/Renamed.antt =====
-- Proofs about the keys after `Update` of internal/repository/user.go.
use realm_api.Common.{
  ◌≡◌, ◌∙◌, inl, inr, refl, Bool, false, List, [], ◌∷◌, any, eqb_iff, arith, Bool-cases, Distinct,
}
use realm_api.Errors.{ok}
use realm_api.Users.{User}
use realm_api.Users.Repo.{Db, has_id, clashes}
use realm_api.Users.Repo.Update.{set_row, takes, update, write_columns}
use realm_api.Users.Repo.Keys.{IsKeyed}
use realm_api.Users.Repo.Kept.{set_row-owned}

module _ (user : User) where
  -- the row itself against the others
  own-any :
      (v w : User) (users : List User)
      → any (clashes v) users ≡ false
      → any (takes user) users ≡ false
      → v.id ≡ user.id
      → w.id ≡ user.id
      → w.email ≡ user.email
      → w.username ≡ user.username
      → any (clashes w) (set_row user.id (write_columns user) users) ≡ false
  unfolding set_row clashes
  own-any v w [] d t h i e n = refl
  own-any v w (u ∷ users) d t h i e n =
      let rest = own-any v w users (ground arith) (ground arith) h i e n in
      let other : has_id user.id u ≡ false = ground arith in
      rw other (
        ground (
          arith,
          eqb_iff w.email u.email,
          eqb_iff u.email user.email,
          eqb_iff w.username u.username,
          eqb_iff u.username user.username,
        ))

  -- another row against the rest
  other-any :
      (v : User) (users : List User)
      → any (clashes v) users ≡ false
      → takes user v ≡ false
      → has_id user.id v ≡ false
      → any (clashes v) (set_row user.id (write_columns user) users) ≡ false
  unfolding set_row clashes
  other-any v [] d t h = refl
  other-any v (u ∷ users) d t h =
      let rest = other-any v users (ground arith) t h in
      elim (Bool-cases (has_id user.id u)) [
        | inl own ↦ rw own (
            ground (
              arith,
              eqb_iff v.email user.email,
              eqb_iff user.email v.email,
              eqb_iff v.username user.username,
              eqb_iff user.username v.username,
            ))
        | inr other ↦ rw other (ground arith)
      ]

  updated-Distinct :
      (users : List User)
      → Distinct clashes users
      → any (takes user) users ≡ false
      → Distinct clashes (set_row user.id (write_columns user) users)
  unfolding set_row
  updated-Distinct [] d t = tt
  updated-Distinct (u ∷ users) d t =
      let rest = updated-Distinct users d.1 (ground arith) in
      elim (Bool-cases (has_id user.id u)) [
        | inl own ↦ rw own (
          own-any u (write_columns user u) users d.0 (ground arith) (ground arith) (ground arith)
              refl refl,
          rest,
        )
        | inr other ↦ rw other (other-any u users d.0 (ground arith) other, rest)
      ]

  absent-set_row :
      (users : List User)
      → any (has_id user.id) users ≡ false
      → set_row user.id (write_columns user) users ≡ users
  unfolding set_row
  absent-set_row [] h = refl
  absent-set_row (u ∷ users) h = ground (arith, absent-set_row users)

  pub update-IsKeyed :
      (fails : Bool) (db db' : Db) → IsKeyed db → update fails user db ≡ ok db' → IsKeyed db'
  unfolding update
  update-IsKeyed fails db db' k h =
      let same : record db { users = set_row user.id (write_columns user) db.users } ≡ db' =
        ground arith in
      elim (Bool-cases (any (has_id user.id) db.users)) [
        | inr absent ↦ rw (← same) (rw (absent-set_row db.users absent) k)
        | inl there ↦ rw (← same) (record {
          users_distinct = updated-Distinct db.users k.users_distinct (ground arith);
          accounts_distinct = k.accounts_distinct;
          have_owners =
              set_row-owned user.id (write_columns user) (λ u. refl) db.users db.accounts
              ∙ k.have_owners;
        })
      ]
