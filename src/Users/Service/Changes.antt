-- ===== src/Users/Service/Changes.antt =====
-- Proofs that relate the changes of a profile, a password and the accounts to internal/repository/user.go.
use realm_api.Common.{ℕ, ◌≡◌, inl, inr, some, Text, arith, Option-cases}
use realm_api.Errors.{Result-cases}
use realm_api.Env.{Env}
use realm_api.Users.{User}
use realm_api.Users.Repo
use realm_api.Users.Repo.{Db, create, or_same, get_by_id, get_by_email, get_by_oauth_account}
use realm_api.Users.Repo.Update
use realm_api.Users.Repo.Update.{update, update_password, update_2fa_secret, consume_recovery_code}
use realm_api.Users.Repo.History.{here, next, linked, unlinked, updated, password_set}
use realm_api.Users.Service.{Libraries}
use realm_api.Users.Service.Profile
use realm_api.Users.Service.Profile.{
  UpdateProfileInput, SetPasswordInput, OAuthUserInfo, account_of, change_full_name,
  change_username, change_avatar, update_profile, set_password,
}
use realm_api.Users.Service.Moves.{Moves, stays, moves}

module _ (l : Libraries) (e : Env) where
  pub update_profile-Moves :
      (id : ℕ) (input : UpdateProfileInput) (db : Db)
      → Moves db (update_profile l e id input (some db)).1
  unfolding update_profile
  update_profile-Moves id input db =
      let after = (update_profile l e id input (some db)).1 in
      elim (Result-cases (get_by_id (e.fails 0) id db)) [
        | inr (x, bad) ↦ let same : after ≡ some db = ground arith in rw same (stays db)
        | inl (u, read) ↦ elim (Result-cases (change_full_name input.full_name u)) [
          | inr (x, bad) ↦ let same : after ≡ some db = ground arith in rw same (stays db)
          | inl (named, fine) ↦
              elim (Result-cases (change_username l (e.fails 1) db input.username named)) [
                | inr (x, bad) ↦ let same : after ≡ some db = ground arith in rw same (stays db)
                | inl (renamed, good) ↦
                    let u' : User = record (change_avatar input.avatar_url renamed) {
                      updated_at = e.clock 0;
                    } in
                    elim (Result-cases (update (e.fails 2) u' db)) [
                      | inr (x, bad) ↦
                          let same : after ≡ some db = ground arith in rw same (stays db)
                      | inl (db', done) ↦
                          let same : after ≡ some db' = ground arith in
                          rw same (moves (next here (updated (e.fails 2) u' done)))
                    ]
              ]
        ]
      ]

  pub set_password-Moves :
      (salt id : ℕ) (input : SetPasswordInput) (db : Db)
      → Moves db (set_password l e salt id input (some db)).1
  unfolding set_password
  set_password-Moves salt id input db =
      let after = (set_password l e salt id input (some db)).1 in
      elim (Result-cases (set_password l e salt id input (some db)).0) [
        | inr (x, bad) ↦ let same : after ≡ some db = ground arith in rw same (stays db)
        | inl (done, good) ↦ elim (Option-cases (l.hash salt input.new_password)) [
          | inl unhashed ↦ absurd (ground arith)
          | inr (hash, hashed) ↦
              elim (Result-cases (update_password (e.fails 1) (e.clock 0) id hash db)) [
                | inr (x, bad) ↦ absurd (ground arith)
                | inl (db', written) ↦
                    let same : after ≡ some db' = ground arith in
                    rw same
                      (moves (next here (password_set (e.fails 1) (e.clock 0) id hash written)))
              ]
        ]
      ]

module _ (e : Env) where
  pub link_oauth_account-Moves :
      (account id : ℕ) (i : OAuthUserInfo) (db : Db)
      → Moves db (Profile.link_oauth_account e account id i (some db)).1
  unfolding Profile.link_oauth_account
  link_oauth_account-Moves account id i db =
      let after = (Profile.link_oauth_account e account id i (some db)).1 in
      let a = account_of account (e.clock 0) id i in
      elim (Result-cases (Repo.link_oauth_account (e.fails 0) (e.fails 1) a db)) [
        | inr (x, bad) ↦ let same : after ≡ some db = ground arith in rw same (stays db)
        | inl (db', done) ↦
            let same : after ≡ some db' = ground arith in
            rw same (moves (next here (linked (e.fails 0) (e.fails 1) a done)))
      ]

  pub unlink_oauth_account-Moves :
      (id : ℕ) (provider : Text) (db : Db)
      → Moves db (Profile.unlink_oauth_account e id provider (some db)).1
  unfolding Profile.unlink_oauth_account
  unlink_oauth_account-Moves id provider db =
      let after = (Profile.unlink_oauth_account e id provider (some db)).1 in
      elim (Result-cases (Update.unlink_oauth_account e id provider db)) [
        | inr (x, bad) ↦ let same : after ≡ some db = ground arith in rw same (stays db)
        | inl (db', done) ↦
            let same : after ≡ some db' = ground arith in
            rw same (moves (next here (unlinked e id provider done)))
      ]
