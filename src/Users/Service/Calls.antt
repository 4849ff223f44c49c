-- ===== src/Users/Service/Calls.antt =====
-- The whole of internal/service/auth.go as calls one after another, over the tables of
-- internal/repository/user.go.
use realm_api.Common.{ℕ, ◌≡◌, refl, Option, some, List, [], ◌∷◌, Text}
use realm_api.Env.{Env}
use realm_api.Users.Repo.{Db}
use realm_api.Users.Repo.Keys.{IsKeyed}
use realm_api.Users.Repo.History.{Reach, here, next}
use realm_api.Users.Repo.Guarded.{IsGuarded, Reach-IsGuarded}
use realm_api.Users.Service.{Libraries, RegisterInput}
use realm_api.Users.Service
use realm_api.Users.Service.Profile.{UpdateProfileInput, SetPasswordInput, OAuthUserInfo}
use realm_api.Users.Service.Profile
use realm_api.Users.Service.OAuth
use realm_api.Users.Service.OAuth.{Drawn}
use realm_api.Users.Service.TwoFactor
use realm_api.Users.Service.TwoFactor.{Painter}
use realm_api.Users.Service.Moves.{Moves, register-Moves, handle_oauth_login-Moves}
use realm_api.Users.Service.Changes.{
  update_profile-Moves, set_password-Moves, link_oauth_account-Moves, unlink_oauth_account-Moves,
}
use realm_api.Users.Service.Factors.{
  setup_2fa-Moves, enable_2fa-Moves, disable_2fa-Moves, verify_2fa-Moves,
}

Reach-trans : {s t u : Db} → Reach s t → Reach t u → Reach s u
Reach-trans r here = r
Reach-trans r (next q st) = next (Reach-trans r q) st

-- `AuthService`: the methods that can change the tables, with what they read and draw.
pub data Call : Type 0 where
  register_call : (salt nonce id : ℕ) → RegisterInput → Call
  handle_oauth_login_call : Drawn → OAuthUserInfo → Call
  update_profile_call : ℕ → UpdateProfileInput → Call
  set_password_call : (salt id : ℕ) → SetPasswordInput → Call
  link_oauth_account_call : (account id : ℕ) → OAuthUserInfo → Call
  unlink_oauth_account_call : ℕ → Text → Call
  setup_2fa_call : Painter → (draw id : ℕ) → Call
  enable_2fa_call : (ℕ → List ℕ) → ℕ → (code secret : Text) → Call
  disable_2fa_call : ℕ → (code password : Text) → Call
  verify_2fa_call : (nonce : ℕ) → (temp_token code : Text) → Call

module _ (l : Libraries) where
  unfoldable pub run : Env → Call → Option Db → Option Db
  run e (register_call salt nonce id input) repo = (Service.register l e salt nonce id input repo).1
  run e (handle_oauth_login_call d i) repo = (OAuth.handle_oauth_login l e d i repo).1
  run e (update_profile_call id input) repo = (Profile.update_profile l e id input repo).1
  run e (set_password_call salt id input) repo = (Profile.set_password l e salt id input repo).1
  run e (link_oauth_account_call account id i) repo =
      (Profile.link_oauth_account e account id i repo).1
  run e (unlink_oauth_account_call id provider) repo =
      (Profile.unlink_oauth_account e id provider repo).1
  run e (setup_2fa_call p draw id) repo = (TwoFactor.setup_2fa p e draw id repo).1
  run e (enable_2fa_call random id code secret) repo =
      (TwoFactor.enable_2fa l e random id code secret repo).1
  run e (disable_2fa_call id code password) repo =
      (TwoFactor.disable_2fa l e id code password repo).1
  run e (verify_2fa_call nonce temp_token code) repo =
      (TwoFactor.verify_2fa l e nonce temp_token code repo).1

  run-Moves : (e : Env) (c : Call) (db : Db) → Moves db (run e c (some db))
  unfolding run
  run-Moves e (register_call salt nonce id input) db = register-Moves l e salt nonce id input db
  run-Moves e (handle_oauth_login_call d i) db = handle_oauth_login-Moves l e d i db
  run-Moves e (update_profile_call id input) db = update_profile-Moves l e id input db
  run-Moves e (set_password_call salt id input) db = set_password-Moves l e salt id input db
  run-Moves e (link_oauth_account_call account id i) db = link_oauth_account-Moves e account id i db
  run-Moves e (unlink_oauth_account_call id provider) db =
      unlink_oauth_account-Moves e id provider db
  run-Moves e (setup_2fa_call p draw id) db = setup_2fa-Moves e p draw id db
  run-Moves e (enable_2fa_call random id code secret) db =
      enable_2fa-Moves l e random id code secret db
  run-Moves e (disable_2fa_call id code password) db = disable_2fa-Moves l e id code password db
  run-Moves e (verify_2fa_call nonce temp_token code) db =
      verify_2fa-Moves l e nonce temp_token code db

  unfoldable pub run_all : List (Env × Call) → Option Db → Option Db
  unfolding run
  run_all [] repo = repo
  run_all ((e, c) ∷ calls) repo = run_all calls (run e c repo)

  run_all-Moves : (calls : List (Env × Call)) (db : Db) → Moves db (run_all calls (some db))
  unfolding run_all
  run_all-Moves [] db = (db, refl, here)
  run_all-Moves ((e, c) ∷ calls) db =
      let (db', moved, steps) = run-Moves e c db in
      let (end, ran, more) = run_all-Moves calls db' in (end, rw moved ran, Reach-trans steps more)

  -- Start from tables in which a user who has the second factor on has a secret and at most eight
  -- recovery codes, and a user who has it off has no codes. Every sequence of calls of the service,
  -- whether they succeed or fail and whichever queries fail, leads to such tables again. The keys of the
  -- tables must hold at the start.
  pub run_all-IsGuarded :
      (calls : List (Env × Call)) (db : Db)
      → IsKeyed db
      → IsGuarded db
      → (db' : Db) × (run_all calls (some db) ≡ some db') × IsGuarded db'
  run_all-IsGuarded calls db k g =
      let (db', ran, steps) = run_all-Moves calls db in (db', ran, Reach-IsGuarded k g steps)
