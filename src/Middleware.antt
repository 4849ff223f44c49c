-- ===== src/Middleware.antt =====
-- internal/middleware: what of an HTTP request the middleware reads, and how it finds a token there.
pub mod Token
pub mod Session
pub mod Csrf
mod Tests
use realm_api.Common.{
  ℕ, Bool, Option, none, List, [], Text, txt, is_empty, trim_space, has_prefix, trim_prefix,
  if◌then◌else◌,
}
use Prim.Native.String.{String}
use realm_api.Tokens.{ApiToken}
use realm_api.Auth.Paseto.{UserClaims}

-- Headers and the cookie; a missing one is empty.
pub record Request : Type 0 where
  pub method : Text
  pub authorization : Text
  pub x_api_token : Text
  pub x_api_key : Text
  pub x_auth_token : Text
  pub realm_auth_token : Text
  pub sec_fetch_site : Text
  pub origin : Text
  pub referer : Text
  pub x_realm_request : Text
  pub x_requested_with : Text

-- internal/model/admin.go
pub record AdminUser : Type 0 where
  pub created_by : Option ℕ
  pub id : ℕ
  pub user_id : ℕ
  pub permissions : List Text
  pub is_superadmin : Bool

-- what `c.Locals` holds for the handler
pub record Locals : Type 0 where
  pub token : Option ApiToken
  pub admin : Option AdminUser
  pub user_claims : Option UserClaims
  pub user_id : Option ℕ

-- `handler.ErrorResponse(c, message, status)`, or `c.Next()`
pub data Outcome : Type 0 where
  reject : ℕ → String → Outcome
  proceed : Locals → Outcome

abbrev pub no_locals : Locals
no_locals = record { token = none; admin = none; user_claims = none; user_id = none }

abbrev pub bearer : Text
bearer = txt "Bearer "

-- the first of two alternatives that is not empty, trimmed
unfoldable pub first_of_two : Text → Text → Text
first_of_two a b = if is_empty a then (if is_empty b then [] else trim_space b) else trim_space a

unfoldable pub extract_raw_token : Request → Text
unfolding first_of_two
extract_raw_token c =
    if has_prefix c.authorization bearer
    then trim_space (trim_prefix c.authorization bearer)
    else first_of_two c.x_api_token c.x_api_key

unfoldable pub extract_user_raw_token : Request → Text
unfolding first_of_two
extract_user_raw_token c =
    if has_prefix c.authorization bearer
    then trim_space (trim_prefix c.authorization bearer)
    else first_of_two c.x_auth_token c.realm_auth_token
