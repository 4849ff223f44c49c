-- ===== src/Users/Tests.antt =====
-- Logins with one factor and with two.
use realm_api.Common.{
  ℕ, ◌≡◌, ◌≢◌, ◌⊎◌, inl, inr, refl, true, false, Option, none, some, List, [], ◌∷◌, ◌++◌, Text, txt,
  arith, byte_len, trim_space, eqb, Distinct, any,
}
use Prim.Native.String.{String}
use realm_api.Errors.{ok, err, Err}
use realm_api.Auth.Paseto.{UserClaims, claims_for, verify_token}
use realm_api.Auth.Samples.{encode, fields, paseto-IsSealed}
use realm_api.Middleware.{Request, reject, proceed, extract_user_raw_token}
use realm_api.Middleware.Token.{session_locals}
use realm_api.Middleware.Session.{require_user_auth}
use realm_api.Users.{User, AuthResponse, to_dto_with_accounts}
use realm_api.Users.Repo.{Db, find, has_id}
use realm_api.Users.Repo.Update.{remove_code}
use realm_api.Users.Service.{
  LoginInput, get_connected_accounts, login, granted, challenged, subject_of, token_ttl,
  challenge_ttl,
}
use realm_api.Users.Service.Login.{Found, Answer, login_sound, login-challenge, login-session}
use realm_api.Users.Service.Challenge.{Verified, verify_2fa_sound, same_code, store_codes}
use realm_api.Users.Service.Once.{verify_2fa_once}
use realm_api.Users.Service.TwoSteps.{second_step, verify_2fa-login}
use realm_api.Users.Service.TwoFactor.{verify_2fa}
use realm_api.Users.Samples.{env, uuid, libraries, ann, bob, account, db, db-IsKeyed}

abbrev ann_login : LoginInput
ann_login = record { identifier = txt " Ann"; password = txt "password" }

abbrev bob_login : LoginInput
bob_login = record { identifier = txt "bob@b.example"; password = txt "password" }

abbrev ann_session : Text
ann_session = encode (fields (claims_for (txt "auth") 1000 token_ttl (subject_of libraries ann)))

abbrev bob_claims : UserClaims
bob_claims = claims_for (txt "2fa_challenge") 1000 challenge_ttl (subject_of libraries bob)

abbrev bob_challenge : Text
bob_challenge = encode (fields bob_claims)

abbrev ann_answer : AuthResponse
ann_answer = granted "Login successful" ann_session (to_dto_with_accounts ann [])

abbrev bob_answer : AuthResponse
bob_answer = challenged bob_challenge (to_dto_with_accounts bob (account ∷ []))

ann-logs_in : login libraries env 0 ann_login (some db) ≡ ok ann_answer
unfolding login trim_space realm_api.Users.Repo.get_by_identifier find eqb
    realm_api.Common.Text-discrete realm_api.Common.to_lower realm_api.Auth.Paseto.generate_token
    get_connected_accounts realm_api.Users.Repo.Update.get_oauth_accounts
ann-logs_in = refl

bob-logs_in : login libraries env 0 bob_login (some db) ≡ ok bob_answer
unfolding login trim_space realm_api.Users.Repo.get_by_identifier find eqb
    realm_api.Common.Text-discrete realm_api.Common.to_lower
    realm_api.Auth.Paseto.generate_2fa_temp_token get_connected_accounts
    realm_api.Users.Repo.Update.get_oauth_accounts
bob-logs_in = refl

abbrev with_header : Text → Request
with_header token = record {
  method = txt "GET";
  authorization = txt "Bearer " ++ token;
  x_api_token = [];
  x_api_key = [];
  x_auth_token = [];
  realm_auth_token = [];
  sec_fetch_site = [];
  origin = [];
  referer = [];
  x_realm_request = [];
  x_requested_with = [];
}

ann-header : extract_user_raw_token (with_header ann_session) ≡ ann_session
unfolding extract_user_raw_token realm_api.Common.has_prefix trim_space realm_api.Common.trim_prefix
    claims_for
ann-header = refl

bob-header : extract_user_raw_token (with_header bob_challenge) ≡ bob_challenge
unfolding extract_user_raw_token realm_api.Common.has_prefix trim_space realm_api.Common.trim_prefix
    claims_for
bob-header = refl

login_sound_example :
    (d : Db) × (u : User) × (some db ≡ some d)
    × Found libraries env 0 bob_login d u
    × Answer libraries env 0 bob_login u (get_connected_accounts false u.id d) bob_answer
login_sound_example = login_sound libraries env 0 bob_login (some db) bob_answer bob-logs_in

login-challenge_example :
    (m : String) × (require_user_auth uuid 2000
        (some libraries.paseto)
        []
        (with_header bob_challenge)
      ≡ reject 401 m)
login-challenge_example =
    login-challenge libraries env 0 bob_login paseto-IsSealed 2000 (with_header bob_challenge)
      (some db) bob_answer bob-logs_in refl bob-header

login-session_example :
    (d : Db) × (u : User) × (some db ≡ some d)
    × Found libraries env 0 ann_login d u
    × (require_user_auth uuid 2000 (some libraries.paseto) [] (with_header ann_session)
        ≡ proceed (
            session_locals
              (claims_for (txt "auth") 1000 token_ttl (subject_of libraries u))
              u.id
              none))
login-session_example =
    login-session libraries env 0 ann_login paseto-IsSealed 2000 (with_header ann_session) (some db)
      ann_answer ann-logs_in refl ann-header refl (λ id. refl) (omega arith)

verify_2fa-login_example :
    (u : User) × Found libraries env 0 bob_login db u
    × (verify_2fa libraries env 1 bob_challenge (txt "123456") (some db)
        ≡ second_step libraries env 1 (txt "123456") u db)
verify_2fa-login_example =
    verify_2fa-login libraries env env 0 1 bob_login (txt "123456") db paseto-IsSealed (λ id. refl)
      db-IsKeyed refl (omega arith) bob_answer bob-logs_in refl

abbrev bob_entered : AuthResponse
bob_entered =
    granted "Authentication successful"
      (encode (fields (claims_for (txt "auth") 1000 token_ttl (subject_of libraries bob))))
      (to_dto_with_accounts bob (account ∷ []))

bob-verified :
    (verify_2fa libraries env 1 bob_challenge (txt "123456") (some db)).0 ≡ ok bob_entered
unfolding verify_2fa verify_token claims_for eqb realm_api.Common.Text-discrete
    realm_api.Users.Repo.get_by_id find byte_len trim_space realm_api.Auth.Paseto.generate_token
    get_connected_accounts realm_api.Users.Repo.Update.get_oauth_accounts
bob-verified = refl

verify_2fa_sound_example :
    (d : Db) × (some db ≡ some d)
    × Verified libraries env 1 bob_challenge
        (txt "123456")
        d
        (verify_2fa libraries env 1 bob_challenge (txt "123456") (some db)).1
verify_2fa_sound_example =
    verify_2fa_sound libraries env 1 bob_challenge (txt "123456") (some db) bob_entered bob-verified

abbrev db_used : Db
db_used = store_codes 8 1000 (txt "JKLM-NPQR" ∷ []) db

bob-recovered :
    verify_2fa libraries env 1 bob_challenge (txt "abcd-efgh ") (some db)
    ≡ (ok bob_entered, some db_used)
unfolding verify_2fa verify_token claims_for eqb realm_api.Common.Text-discrete
    realm_api.Users.Repo.get_by_id find byte_len trim_space
    realm_api.Users.Repo.Update.consume_recovery_code remove_code realm_api.Common.to_upper
    realm_api.Auth.Paseto.generate_token get_connected_accounts
    realm_api.Users.Repo.Update.get_oauth_accounts
bob-recovered = refl

bob-claims : verify_token libraries.paseto [] 1000 bob_challenge ≡ ok bob_claims
unfolding verify_token claims_for
bob-claims = refl

bob-found : find (has_id 8) db.users ≡ some bob
unfolding find
bob-found = refl

bob-codes : Distinct (same_code libraries.upper) bob.two_factor_recovery_codes
unfolding eqb realm_api.Common.Text-discrete realm_api.Common.to_upper trim_space
bob-codes = (refl, (refl, tt))

bob-long : byte_len (trim_space (txt "abcd-efgh ")) ≢ 6
unfolding byte_len trim_space
bob-long = λ six. absurd (omega arith)

abbrev bob_used : User
bob_used = record bob { two_factor_recovery_codes = txt "JKLM-NPQR" ∷ []; updated_at = 1000 }

bob_used-found : find (has_id 8) db_used.users ≡ some bob_used
unfolding find realm_api.Users.Repo.Update.set_row
bob_used-found = refl

-- the tables after the other code has served too
abbrev db_empty : Db
db_empty = store_codes 8 2000 [] db_used

bob_empty-found :
    find (has_id 8) db_empty.users
    ≡ some (record bob { two_factor_recovery_codes = []; updated_at = 2000 })
unfolding find realm_api.Users.Repo.Update.set_row
bob_empty-found = refl

verify_2fa_once_example :
    (x : Err) × ((verify_2fa libraries env 2 bob_challenge (txt "abcd-efgh ") (some db_empty)).0
      ≡ err x)
unfolding claims_for
verify_2fa_once_example =
    verify_2fa_once libraries env env 1 2 8 bob_challenge bob_challenge (txt "abcd-efgh ") db
      db_used db_empty bob bob_used
      (record bob { two_factor_recovery_codes = []; updated_at = 2000 }) bob_entered bob_claims
      bob_claims bob-found bob-codes bob-long bob-claims refl bob-recovered bob_used-found
      bob_empty-found refl bob-claims refl
