-- ===== src/Users/Service.antt =====
-- internal/service/auth.go: registration and login. Each operation reads the repository, which may be
-- nil; one that changes the tables gives them back.
pub mod Profile
pub mod Availability
pub mod OAuth
pub mod Login
pub mod Challenge
pub mod Once
pub mod Naming
pub mod External
pub mod Registration
pub mod Password
pub mod Recovery
pub mod Moves
pub mod Changes
pub mod Factors
pub mod Calls
pub mod TwoSteps
pub mod TwoFactor
use Prim.Native.String.{String}
use realm_api.Common.{
  ℕ, ◌+◌, ◌*◌, Bool, true, false, ◌||◌, not, Option, none, some, List, [], Text, txt, eqb, is_empty,
  trim_space, to_lower, if◌then◌else◌,
}
use realm_api.Errors.{
  Result, ok, err, sentinel, wrap, driver, is, err_user_not_found, err_database_unavailable,
  err_invalid_credentials, err_account_deactivated,
}
use realm_api.Env.{Env, minute}
use realm_api.Auth.Paseto.{Paseto, Subject, generate_token, generate_2fa_temp_token}
use realm_api.Middleware.Token.{Uuid}
use realm_api.Users.{User, OAuthAccount, AuthResponse, UserDto, to_dto, to_dto_with_accounts}
use realm_api.Users.Names.{check_registration}
use realm_api.Users.Repo.{Db, create, get_by_identifier, get_by_id}
use realm_api.Users.Repo.Update.{get_oauth_accounts}

-- What the service calls: package unicode, the database's LOWER, net/mail, golang.org/x/crypto/bcrypt
-- (`hash` with what it draws), the session tokens with their key, google/uuid, and pquerna/otp
-- (`validate` at a time).
pub record Libraries : Type 0 where
  pub lower : ℕ → ℕ
  pub upper : ℕ → ℕ
  pub sql_lower : Text → Text
  pub parse_address : Text → Bool
  pub hash : ℕ → Text → Option Text
  pub compare : Text → Text → Bool
  pub paseto : Paseto
  pub key : Text
  pub uuid : Uuid
  pub validate : ℕ → Text → Text → Bool

pub record RegisterInput : Type 0 where
  pub avatar_url : Option Text
  pub email : Text
  pub username : Text
  pub password : Text
  pub full_name : Text

pub record LoginInput : Type 0 where
  pub identifier : Text
  pub password : Text

-- 7 days, and 5 minutes
abbrev pub token_ttl : ℕ
token_ttl = 7 * 24 * 60 * minute

abbrev pub challenge_ttl : ℕ
challenge_ttl = 5 * minute

-- `getConnectedAccounts`: an error gives no accounts.
unfoldable pub get_connected_accounts : Bool → ℕ → Db → List OAuthAccount
get_connected_accounts fails id db = elim (get_oauth_accounts fails id db) [
  | err x ↦ []
  | ok accounts ↦ accounts
]

abbrev pub granted : String → Text → UserDto → AuthResponse
granted message token user = record {
  status = "success";
  message = message;
  token = token;
  temp_token = [];
  two_factor_required = false;
  user = user;
}

abbrev pub challenged : Text → UserDto → AuthResponse
challenged token user = record {
  status = "2fa_required";
  message = "Two-factor authentication verification required";
  token = [];
  temp_token = token;
  two_factor_required = true;
  user = user;
}

module _ (l : Libraries) where
  -- what the token generators read of a user
  abbrev pub subject_of : User → Subject
  subject_of u = record {
    id = l.uuid.text u.id;
    email = u.email;
    username = u.username;
    full_name = u.full_name;
    avatar_url = u.avatar_url;
    provider = u.provider;
  }

  -- `GenerateToken` at the time to live of the service, with its error wrapped
  unfoldable pub session : ℕ → ℕ → User → Result Text
  session nonce now u = elim (generate_token l.paseto l.key nonce now token_ttl (subject_of u)) [
    | err x ↦ err (wrap "failed to generate token" x)
    | ok token ↦ ok token
  ]

  -- The user that `Register` makes; its `IsActive` is false.
  unfoldable pub new_user : ℕ → ℕ → Text → RegisterInput → User
  new_user id now hash input = record {
    updated_at = now;
    created_at = now;
    provider_id = none;
    two_factor_secret = none;
    password_hash = some hash;
    avatar_url = input.avatar_url;
    full_name = trim_space input.full_name;
    provider = txt "local";
    username = to_lower l.lower (trim_space input.username);
    email = to_lower l.lower (trim_space input.email);
    two_factor_recovery_codes = [];
    id = id;
    two_factor_enabled = false;
    is_active = false;
  }

  -- `salt` is what bcrypt draws, `nonce` what the token draws, `id` what `uuid.New` gives; the
  -- second identifier is not drawn for a local user.
  unfoldable pub register :
      Env → ℕ → ℕ → ℕ → RegisterInput → Option Db → Result AuthResponse × Option Db
  unfolding new_user session
  register e salt nonce id input none = (err (sentinel err_database_unavailable), none)
  register e salt nonce id input (some db) =
      elim (check_registration l.parse_address (trim_space input.email) (trim_space input.username)
        input.password (trim_space input.full_name)) [
          | err x ↦ (err x, some db)
          | ok done ↦ elim (l.hash salt input.password) [
            | none ↦ (err (wrap "failed to hash password" driver), some db)
            | some hash ↦
                let user : User = new_user id (e.clock 0) hash input in
                elim (create l.lower e 0 id user db) [
                  | err x ↦ (err x, some db)
                  | ok db' ↦ elim (session nonce (e.clock 1) user) [
                    | err x ↦ (err x, some db')
                    | ok token ↦
                        (ok (granted "Registration successful" token (to_dto user)), some db')
                  ]
                ]
          ]
        ]

  -- The password is set, and the one given matches it.
  unfoldable pub matches_password : Option Text → Text → Bool
  matches_password none password = false
  matches_password (some hash) password = if is_empty hash then false else l.compare hash password

  -- the end of `Login`, for a user whose password matches
  unfoldable pub finish_login : ℕ → ℕ → User → List OAuthAccount → Result AuthResponse
  unfolding session
  finish_login nonce now u accounts =
      if u.two_factor_enabled
      then elim (generate_2fa_temp_token l.paseto l.key nonce now challenge_ttl (subject_of u)) [
        | err x ↦ err (wrap "failed to generate 2fa challenge token" x)
        | ok token ↦ ok (challenged token (to_dto_with_accounts u accounts))
      ]
      else elim (session nonce now u) [
        | err x ↦ err x
        | ok token ↦ ok (granted "Login successful" token (to_dto_with_accounts u accounts))
      ]

  unfoldable pub login : Env → ℕ → LoginInput → Option Db → Result AuthResponse
  unfolding matches_password finish_login
  login e nonce input none = err (sentinel err_database_unavailable)
  login e nonce input (some db) =
      if is_empty (trim_space input.identifier) || is_empty input.password
      then err (sentinel err_invalid_credentials)
      else elim (get_by_identifier l.lower (e.fails 0) (trim_space input.identifier) db) [
        | err x ↦ if is x err_user_not_found then err (sentinel err_invalid_credentials) else err x
        | ok u ↦
            if not u.is_active
            then err (sentinel err_account_deactivated)
            else if matches_password u.password_hash input.password
            then finish_login nonce (e.clock 0) u (get_connected_accounts (e.fails 1) u.id db)
            else err (sentinel err_invalid_credentials)
      ]
