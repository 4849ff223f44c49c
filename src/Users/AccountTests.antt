-- ===== src/Users/AccountTests.antt =====
-- Registrations, passwords, recovery codes and accounts at providers.
use realm_api.Common.{
  ℕ, suc, zero, ◌<◌, ◌≤◌, ◌≡◌, ◌≢◌, ◌⊎◌, inl, inr, refl, true, false, Option, none, some, List, [],
  ◌∷◌, ◌++◌, Text, txt, arith, byte_len, trim_space, eqb, Distinct, any, length,
}
use realm_api.Errors.{ok, err, Err}
use realm_api.Env.{Env}
use realm_api.Auth.Paseto.{UserClaims, claims_for, verify_token}
use realm_api.Auth.Samples.{encode, fields, paseto, paseto-IsSealed}
use realm_api.Users.{User, OAuthAccount, AuthResponse, to_dto, to_dto_with_accounts, is_given}
use realm_api.Users.Repo.{Db, find, has_id, is_of, is_named, get_by_username, with_user}
use realm_api.Users.Repo.Guarded.{IsGuarded, guarded}
use realm_api.Users.Repo.Update.{remove_code, belongs_to}
use realm_api.Users.Repo.Update
use realm_api.Users.Repo.Unlink.{unlink_oauth_account_safe}
use realm_api.Users.Service.{
  LoginInput, RegisterInput, login, register, granted, subject_of, token_ttl, challenge_ttl,
  new_user,
}
use realm_api.Users.Service.Profile.{OAuthUserInfo, SetPasswordInput, set_password}
use realm_api.Users.Service.OAuth.{Drawn, not_found, first_name, choose_name, handle_oauth_login}
use realm_api.Users.Service.Naming.{Picked, IsShort, choose_name_total}
use realm_api.Users.Service.External.{Admission, handle_oauth_login_sound}
use realm_api.Users.Service.Registration.{row_of, login-register}
use realm_api.Users.Service.Password.{Permitted, with_password, set_password_sound}
use realm_api.Users.Service.TwoFactor.{
  Enable2faResponse, enable_2fa, verify_2fa, pass_challenge, generate_recovery_codes,
}
use realm_api.Users.Service.Challenge.{store_codes}
use realm_api.Users.Service.Recovery.{protected, verify_2fa-enable_2fa}
use realm_api.Users.Service.Calls.{Call, run_all, run_all-IsGuarded}
use realm_api.Users.Samples.{env, libraries, libraries-IsHashing, ann, bob, account, db, db-IsKeyed}

abbrev carol : RegisterInput
carol = record {
  avatar_url = none;
  email = txt "Carol@c.example";
  username = txt " Carol";
  password = txt "longenough";
  full_name = txt "Carol C";
}

abbrev carol_row : User
carol_row = row_of libraries env env 0 0 1 9 carol (txt "#longenough")

abbrev db_carol : Db
db_carol = with_user carol_row db

abbrev carol_user : User
carol_user = new_user libraries 9 1000 (txt "#longenough") carol

abbrev carol_answer : AuthResponse
carol_answer =
    granted "Registration successful"
      (encode (fields (claims_for (txt "auth") 1000 token_ttl (subject_of libraries carol_user))))
      (to_dto carol_user)

carol-registers : register libraries env 0 0 9 carol (some db) ≡ (ok carol_answer, some db_carol)
unfolding register realm_api.Users.Names.check_registration realm_api.Users.Names.is_address
    trim_space realm_api.Users.Names.matches_username realm_api.Users.Names.is_word byte_len
    realm_api.Users.Names.is_full_name realm_api.Users.Repo.create eqb
    realm_api.Common.Text-discrete realm_api.Common.to_lower realm_api.Auth.Paseto.generate_token
carol-registers = refl

carol-new : any (is_named (txt "carol")) db.users ≡ false
unfolding eqb realm_api.Common.Text-discrete
carol-new = refl

login-register_example :
    (r : AuthResponse) × (login libraries env 1
        (record { identifier = txt " Carol"; password = txt "longenough" })
        (some db_carol)
      ≡ ok r)
    × (r.two_factor_required ≡ false)
    × (r.user.id ≡ 9)
    × (claims : UserClaims) × (verify_token paseto [] 1000 r.token ≡ ok claims)
    × (claims.id ≡ libraries.uuid.text 9)
    × (claims.purpose ≡ txt "auth")
    × (claims.username ≡ txt "carol")
unfolding realm_api.Common.to_lower trim_space
login-register_example =
    login-register libraries env env 0 0 1 9 carol libraries-IsHashing paseto-IsSealed
      (λ key n c. (encode (fields c), refl)) db db_carol carol_answer 1000 carol-registers carol-new
      refl (omega arith)

abbrev info : OAuthUserInfo
info = record {
  provider = txt "google";
  provider_id = txt "77";
  email = txt "dan@d.example";
  username = txt "ann";
  full_name = [];
  avatar_url = [];
  email_verified = true;
}

abbrev drawn : Drawn
drawn = record {
  nonce = 2;
  user = 10;
  account = 20;
  account' = 21;
  short = txt "0a1b2c3d";
  short' = txt "9e8f7a6b";
}

short-IsShort : IsShort drawn.short × IsShort drawn.short'
unfolding realm_api.Users.Names.is_word
short-IsShort = ((refl, refl), (refl, refl))

dan-name : choose_name libraries env drawn info db ≡ some (txt "ann_1")
unfolding choose_name get_by_username find eqb realm_api.Common.Text-discrete trim_space
    realm_api.Users.Names.matches_username realm_api.Common.to_lower realm_api.Users.Names.is_word
    realm_api.Users.Service.OAuth.decimal realm_api.Errors.is
dan-name = refl

choose_name_total_example :
    (n : Text) × (choose_name libraries env drawn info db ≡ some n)
    × Picked
        (λ counter name. not_found (get_by_username (λ t. t) false name db))
        (txt "user_9e8f7a6b")
        (first_name libraries drawn info)
        n
choose_name_total_example =
    choose_name_total libraries env drawn info db short-IsShort.0 short-IsShort.1

abbrev bob_info : OAuthUserInfo
bob_info = record info { provider = txt "github"; provider_id = txt "12"; email = txt "x" }

abbrev bob_answer : AuthResponse
bob_answer =
    granted "OAuth login successful"
      (encode (fields (claims_for (txt "auth") 1000 token_ttl (subject_of libraries bob))))
      (to_dto_with_accounts bob (record account { email = some (txt "x") } ∷ []))

bob-enters : (handle_oauth_login libraries env drawn bob_info (some db)).0 ≡ ok bob_answer
unfolding handle_oauth_login realm_api.Users.Repo.get_by_oauth_account find eqb
    realm_api.Common.Text-discrete realm_api.Auth.Paseto.generate_token
    realm_api.Users.Service.OAuth.refresh_avatar realm_api.Users.Service.get_connected_accounts
    Update.get_oauth_accounts realm_api.Users.Repo.link_oauth_account
    realm_api.Users.Repo.find_account realm_api.Users.Repo.upsert_account
    realm_api.Users.Repo.set_accounts
bob-enters = refl

handle_oauth_login_sound_example :
    (d : Db) × (some db ≡ some d)
    × (bob_info.email_verified ≡ true)
    × Admission libraries env drawn bob_info d bob_answer.user.id
handle_oauth_login_sound_example =
    handle_oauth_login_sound libraries env drawn bob_info (some db) bob_answer bob-enters

abbrev new_password : SetPasswordInput
new_password = record { current_password = some (txt "password"); new_password = txt "different" }

abbrev db_password : Db
db_password = record db {
  users = with_password libraries env 0 7 new_password (txt "#different") ann ∷ bob ∷ [];
}

ann-changes : set_password libraries env 0 7 new_password (some db) ≡ (ok tt, some db_password)
unfolding set_password realm_api.Users.Names.check_password byte_len realm_api.Users.Repo.get_by_id
    find eqb realm_api.Common.Text-discrete Update.update_password Update.set_row
ann-changes = refl

set_password_sound_example :
    (u : User) × (hash : Text) × (find (has_id 7) db.users ≡ some u)
    × (8 ≤ byte_len (txt "different"))
    × (byte_len (txt "different") ≤ 72)
    × Permitted libraries env 0 7 new_password u
    × (some (txt "#different") ≡ some hash)
    × (find (has_id 7) db_password.users
        ≡ some (with_password libraries env 0 7 new_password hash u))
set_password_sound_example =
    set_password_sound libraries env 0 7 new_password db db_password ann-changes

unlinked : Update.unlink_oauth_account env 8 (txt "github") db ≡ ok (record db { accounts = [] })
unfolding Update.unlink_oauth_account realm_api.Users.Repo.get_by_id find Update.get_oauth_accounts
    eqb realm_api.Common.Text-discrete
unlinked = refl

unlink_oauth_account_safe_example :
    (u : User) × (find (has_id 8) db.users ≡ some u)
    × (any (is_of 8 (txt "github")) [] ≡ false)
    × ((is_given u.password_hash ≡ true) ⊎ (any (belongs_to 8) [] ≡ true))
unlink_oauth_account_safe_example =
    unlink_oauth_account_safe env 8 (txt "github") db (record db { accounts = [] }) db-IsKeyed
      unlinked

abbrev bytes : ℕ → List ℕ
bytes i = i ∷ 1 ∷ 2 ∷ 3 ∷ 4 ∷ 5 ∷ 6 ∷ 7 ∷ []

abbrev db_protected : Db
db_protected = record db {
  users =
      protected libraries env env bytes 3 7 (txt "000000") (txt "000000") (txt "000000") ann
      ∷ bob
      ∷ [];
}

abbrev ann_codes : Enable2faResponse
ann_codes = record {
  status = "success";
  message = "Two-factor authentication has been enabled successfully";
  recovery_codes = generate_recovery_codes bytes 8;
}

ann-enables :
    enable_2fa libraries env bytes 7 (txt "000000") (txt "000000") (some db)
    ≡ (ok ann_codes, some db_protected)
unfolding enable_2fa realm_api.Users.Repo.get_by_id find eqb realm_api.Common.Text-discrete
    trim_space Update.enable_2fa Update.set_row
ann-enables = refl

abbrev ann_claims : UserClaims
ann_claims = claims_for (txt "2fa_challenge") 1000 challenge_ttl (subject_of libraries ann)

abbrev ann_challenge : Text
ann_challenge = encode (fields ann_claims)

ann-claims : verify_token paseto [] 1000 ann_challenge ≡ ok ann_claims
unfolding verify_token claims_for
ann-claims = refl

code-there : any (eqb (txt "4345-6789")) ann_codes.recovery_codes ≡ true
unfolding generate_recovery_codes eqb realm_api.Common.Text-discrete
code-there = refl

verify_2fa-enable_2fa_example :
    (u : User) × (left : List Text) × (find (has_id 7) db_protected.users ≡ some u)
    × (remove_code libraries.upper (txt "4345-6789") u.two_factor_recovery_codes ≡ some left)
    × (verify_2fa libraries env 3 ann_challenge (txt "4345-6789") (some db_protected)
        ≡ pass_challenge libraries env 3 u (store_codes 7 1000 left db_protected))
unfolding claims_for
verify_2fa-enable_2fa_example =
    verify_2fa-enable_2fa libraries env env bytes 3 7 (txt "000000") (txt "000000") db db_protected
      ann_codes ann_challenge (txt "4345-6789") ann_claims (λ i. refl) ann-enables code-there
      ann-claims refl refl (λ n. refl)

abbrev calls : List (Env × Call)
calls =
    (env, Call.register_call 0 0 9 carol)
    ∷ (env, Call.handle_oauth_login_call drawn info)
    ∷ (env, Call.unlink_oauth_account_call 8 (txt "github"))
    ∷ (env, Call.enable_2fa_call bytes 7 (txt "000000") (txt "000000"))
    ∷ (env, Call.disable_2fa_call 8 (txt "000000") (txt "password"))
    ∷ []

db-IsGuarded : IsGuarded db
unfolding guarded
db-IsGuarded = refl

run_all-IsGuarded_example : (d : Db) × (run_all libraries calls (some db) ≡ some d) × IsGuarded d
run_all-IsGuarded_example = run_all-IsGuarded libraries calls db db-IsKeyed db-IsGuarded
