-- ===== src/Middleware/Token.antt =====
-- internal/middleware/token.go: API tokens with their rate limit and scopes, or a session of an
-- administrator.
pub mod Laws
use Prim.Native.String.{String}
use realm_api.Common.{
  ℕ, Bool, true, false, ◌&&◌, ◌||◌, not, Option, none, some, List, [], ◌∷◌, Text, txt, any, all,
  eqb, is_empty, has_prefix, if◌then◌else◌, ◌==◌,
}
use realm_api.Errors.{Err, Result, ok, err, is, err_token_expired, err_token_revoked}
use realm_api.Env.{Env}
use realm_api.Auth.Limiter
use realm_api.Auth.Limiter.{Rate, TokenRateLimiter, Verdict}
use realm_api.Auth.Paseto.{Paseto, UserClaims, verify_token}
use realm_api.Tokens.{ApiToken}
use realm_api.Tokens.Scopes.{has_scope, wildcard_matches}
use realm_api.Tokens.Service
use realm_api.Tokens.Service.{TokenService, token_mark}
use realm_api.Middleware.{
  Request, AdminUser, Locals, no_locals, Outcome, reject, proceed, extract_raw_token,
  extract_user_raw_token,
}

-- google/uuid: `id.String()` and `uuid.Parse`.
pub record Uuid : Type 0 where
  pub text : ℕ → Text
  pub parse : Text → Option ℕ

-- what the middleware does with an error of `Verify`
unfoldable pub verify_message : Err → String
unfolding is
verify_message x =
    if is x err_token_expired
    then "Unauthorized: API token has expired"
    else if is x err_token_revoked
    then "Unauthorized: API token has been revoked"
    else "Unauthorized: invalid API token"

-- the loop over `requiredScopes`
unfoldable pub check_scopes : ApiToken → List Text → Outcome
check_scopes t scopes =
    if all (has_scope t.scopes) scopes
    then proceed (record no_locals { token = some t })
    else reject 403 "Forbidden: token lacks required scope"

-- `admin.Permissions` against `requiredScopes`: one match is enough
abbrev pub permits : Text → Text → Bool
permits required perm = eqb perm (txt "*") || eqb perm required || wildcard_matches perm required

unfoldable pub has_permission : List Text → List Text → Bool
has_permission permissions scopes = any (λ required. any (permits required) permissions) scopes

-- `adminRepo.GetByUserID`
unfoldable pub find_admin : ℕ → List AdminUser → Option AdminUser
find_admin id [] = none
find_admin id (a ∷ admins) = if a.user_id == id then some a else find_admin id admins

abbrev pub session_locals : UserClaims → ℕ → Option AdminUser → Locals
session_locals claims id admin = record {
  token = none;
  admin = admin;
  user_claims = some claims;
  user_id = some id;
}

abbrev pub either_token : Request → Text
either_token c =
    if is_empty (extract_raw_token c) then extract_user_raw_token c else extract_raw_token c

module _ (sha256 : Text → List ℕ) (r : Rate) (uuid : Uuid) where
  -- The services that the middleware holds; each may be nil. `admins` is the table `admin_users`.
  pub record Gate : Type 0 where
    pub service : Option TokenService
    pub limiter : Option (TokenRateLimiter r)
    pub paseto : Option Paseto
    pub key : Text
    pub admins : Option (List AdminUser)

  -- the outcome, the answer of the limiter that goes into the headers `X-RateLimit-*`, and the gate
  pub record Reply : Type 0 where
    pub outcome : Outcome
    pub rate : Option Verdict
    pub gate : Gate

  abbrev pub refuse : ℕ → String → Gate → Reply
  refuse status message g = record { outcome = reject status message; rate = none; gate = g }

  -- The limiter, then the scopes; `f` is what the limiter reads.
  unfoldable pub meter : Env → ApiToken → List Text → Gate → Reply
  meter f t scopes g = elim g.limiter [
    | none ↦ record { outcome = check_scopes t scopes; rate = none; gate = g }
    | some l ↦
        let (v, l') = Limiter.allow r f (uuid.text t.id) t.rate_limit_rpm l in
        record {
          outcome =
              if v.allowed
              then check_scopes t scopes
              else reject 429 "Too many requests. Rate limit quota exceeded.";
          rate = some v;
          gate = record g { limiter = some l' };
        }
  ]

  -- the part that `RequireToken` and `RequireTokenOrUserAuth` have in common
  unfoldable pub admit_token : Env → Env → Text → List Text → Gate → Reply
  unfolding meter verify_message
  admit_token e f raw_token scopes g = elim g.service [
    | none ↦ refuse 503 "Authentication service unavailable" g
    | some s ↦
        let (res, s') = Service.verify sha256 e raw_token s in
        let g' = record g { service = some s' } in
        elim res [ err x ↦ refuse 401 (verify_message x) g' | ok t ↦ meter f t scopes g' ]
  ]

  unfoldable pub require_token : Env → Env → List Text → Request → Gate → Reply
  require_token e f scopes c g =
      if is_empty (extract_raw_token c)
      then refuse 401 "Unauthorized: missing API token" g
      else admit_token e f (extract_raw_token c) scopes g

  -- the administrator check of a session
  unfoldable pub admit_admin : Env → UserClaims → ℕ → List Text → Gate → Outcome
  unfolding find_admin has_permission
  admit_admin e claims id scopes g = elim g.admins [
    | none ↦ reject 403 "Forbidden: administrator verification unavailable"
    | some admins ↦ elim (if e.fails 0 then none else find_admin id admins) [
      | none ↦ reject 403 "Forbidden: administrator privileges required"
      | some a ↦
          if a.is_superadmin || has_permission a.permissions scopes
          then proceed (session_locals claims id (some a))
          else reject 403 "Forbidden: account lacks required permission"
    ]
  ]

  unfoldable pub no_session : Outcome
  no_session = reject 401 "Unauthorized: invalid or expired authentication token"

  unfoldable pub admit_claims : Env → UserClaims → List Text → Gate → Outcome
  unfolding no_session admit_admin
  admit_claims e claims scopes g =
      if eqb claims.purpose (txt "2fa_challenge")
      then reject 401 "Unauthorized: two-factor authentication verification required"
      else if not (eqb claims.purpose (txt "auth"))
      then reject 401 "Unauthorized: invalid authentication session"
      else elim (uuid.parse claims.id) [
        | none ↦ no_session
        | some id ↦ elim scopes [
          | [] ↦ proceed (session_locals claims id none)
          | s ∷ ss ↦ admit_admin e claims id (s ∷ ss) g
        ]
      ]

  unfoldable pub admit_session : Env → Text → List Text → Gate → Outcome
  unfolding no_session
  admit_session e raw_token scopes g = elim g.paseto [
    | none ↦ no_session
    | some p ↦ elim (verify_token p g.key (e.clock 0) raw_token) [
      | err x ↦ no_session
      | ok claims ↦ admit_claims e claims scopes g
    ]
  ]

  unfoldable pub require_token_or_user_auth : Env → Env → List Text → Request → Gate → Reply
  require_token_or_user_auth e f scopes c g =
      let raw_token : Text = either_token c in
      if is_empty raw_token
      then refuse 401 "Unauthorized: missing authentication token" g
      else if has_prefix raw_token token_mark
      then admit_token e f raw_token scopes g
      else record { outcome = admit_session e raw_token scopes g; rate = none; gate = g }

  -- `OptionalToken`: only an exhausted quota stops the request.
  unfoldable pub optional_token : Env → Env → Request → Gate → Reply
  unfolding meter
  optional_token e f c g =
      let pass : Reply = record { outcome = proceed no_locals; rate = none; gate = g } in
      if is_empty (extract_raw_token c) then pass else elim g.service [
        | none ↦ pass
        | some s ↦
            let (res, s') = Service.verify sha256 e (extract_raw_token c) s in
            let g' = record g { service = some s' } in
            elim res [
              | err x ↦ record { outcome = proceed no_locals; rate = none; gate = g' }
              | ok t ↦ meter f t [] g'
            ]
      ]
