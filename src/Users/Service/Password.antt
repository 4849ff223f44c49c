-- ===== src/Users/Service/Password.antt =====
-- Proofs about `SetPassword` of internal/service/auth.go.
use realm_api.Common.{
  ℕ, ◌≤◌, ◌≡◌, inl, inr, refl, true, false, Option, some, Text, arith, Option-cases, Bool-cases,
  is_empty, byte_len,
}
use realm_api.Errors.{ok, Result-cases}
use realm_api.Env.{Env}
use realm_api.Users.{User, is_given}
use realm_api.Users.Names.{check_password}
use realm_api.Users.Names.Laws.{check_password_bounds}
use realm_api.Users.Repo.{Db, find, has_id, get_by_id}
use realm_api.Users.Repo.Rows.{get_by_id-eq-ok, find-set_row}
use realm_api.Users.Repo.Update.{update_password, set_row}
use realm_api.Users.Service.{Libraries}
use realm_api.Users.Service.Profile.{SetPasswordInput, set_password}

module _ (l : Libraries) (e : Env) (salt id : ℕ) (input : SetPasswordInput) where
  -- The user has no password yet, or the current one is given.
  pub data Permitted (u : User) : Type 0 where
    first_one : is_given u.password_hash ≡ false → Permitted u
    replaced :
        (old current : Text)
        → u.password_hash ≡ some old
        → input.current_password ≡ some current
        → l.compare old current ≡ true
        → Permitted u

  abbrev pub with_password : Text → User → User
  with_password hash u = record u { password_hash = some hash; updated_at = e.clock 0 }

  written_row :
      (db : Db) (db' : Db) (hash : Text)
      → update_password (e.fails 1) (e.clock 0) id hash db ≡ ok db'
      → record db { users = set_row id (with_password hash) db.users } ≡ db'
  unfolding update_password
  written_row db db' hash h = ground arith

  permitted :
      (db : Db) (repo : Option Db) (u : User)
      → get_by_id (e.fails 0) id db ≡ ok u
      → set_password l e salt id input (some db) ≡ (ok tt, repo)
      → Permitted u
  unfolding set_password
  permitted db repo u read h = elim (Option-cases u.password_hash) [
    | inl without ↦ first_one (rw without refl)
    | inr (old, set) ↦ elim (Bool-cases (is_empty old)) [
      | inl blank ↦ first_one (rw set (rw blank refl))
      | inr full ↦ elim (Option-cases input.current_password) [
        | inl missing ↦ absurd (ground arith)
        | inr (current, given) ↦ replaced old current set given (ground arith)
      ]
    ]
  ]

  -- A password is set only if it has 8 to 72 bytes, and the user has none yet or gives the current one.
  -- The user's row then holds the hash of the new password, and is otherwise as before up to the time
  -- of the update.
  pub set_password_sound :
      (db db' : Db)
      → set_password l e salt id input (some db) ≡ (ok tt, some db')
      → (u : User) × (hash : Text) × (find (has_id id) db.users ≡ some u)
        × (8 ≤ byte_len input.new_password)
        × (byte_len input.new_password ≤ 72)
        × Permitted u
        × (l.hash salt input.new_password ≡ some hash)
        × (find (has_id id) db'.users ≡ some (with_password hash u))
  unfolding set_password
  set_password_sound db db' h = elim (Result-cases (check_password input.new_password)) [
    | inr (x, bad) ↦ absurd (ground arith)
    | inl (done, good) ↦ elim (Result-cases (get_by_id (e.fails 0) id db)) [
      | inr (x, bad) ↦ absurd (ground arith)
      | inl (u, read) ↦
          let found = get_by_id-eq-ok (e.fails 0) id db u read in
          let (low, high) = check_password_bounds input.new_password good in
          elim (Option-cases (l.hash salt input.new_password)) [
            | inl unhashed ↦ absurd (ground arith)
            | inr (hash, hashed) ↦
                elim (Result-cases (update_password (e.fails 1) (e.clock 0) id hash db)) [
                  | inr (x, bad) ↦ absurd (ground arith)
                  | inl (after, written) ↦
                      let same : after ≡ db' = ground arith in
                      (
                        u,
                        hash,
                        found,
                        low,
                        high,
                        permitted db (some db') u read h,
                        hashed,
                        rw (← same) (
                            rw (← written_row db after hash written)
                              (find-set_row id (with_password hash) (λ v. refl) db.users u found)),
                      )
                ]
          ]
    ]
  ]
