-- ===== src/Middleware/Tests.antt =====
-- Requests with an API token, with a session, and of a browser.
use realm_api.Common.{
  ◌/◌, ◌*◌, ℕ, ◌≡◌, ◌≢◌, ◌⊎◌, ◌↔◌, refl, inl, inr, true, false, Option, none, some, List, [], ◌∷◌,
  ◌++◌, Text, txt, drop, arith, has_prefix,
}
use realm_api.Env.{Env}
use realm_api.Errors.{ok}
use realm_api.Tokens.{ApiToken}
use realm_api.Tokens.Secret.{hash_token, hex_encode}
use realm_api.Tokens.Service.{TokenService, token_mark}
use realm_api.Auth.Paseto.{Paseto, UserClaims, verify_token}
use realm_api.Auth.Samples.{rate, paseto, encode, fields}
use realm_api.Middleware.{
  Request, AdminUser, Locals, no_locals, Outcome, proceed, extract_raw_token,
  extract_user_raw_token,
}
use realm_api.Middleware.Token.{
  Uuid, Gate, require_token, require_token_or_user_auth, either_token, session_locals,
}
use realm_api.Middleware.Token.Laws.{
  Admitted, InSession, require_token_sound, require_token_or_user_auth_sound,
}
use realm_api.Middleware.Session.{require_user_auth, require_user_auth_sound}
use realm_api.Middleware.Csrf.{csrf_protection, csrf_protection_iff, is_allowed, referer_allowed}

-- The text after `realm_tok_` stands for the hash.
abbrev sha : Text → List ℕ
sha s = drop 10 s

abbrev env : Env
env = record {
  clock = λ n. 1000;
  fails = λ n. false;
  choice = λ n. 0;
  column = λ t. t / 1000 * 1000;
}

-- An identifier is a text of one code point.
abbrev uuid : Uuid
uuid = record {
  text = λ id. id ∷ [];
  parse = λ s. elim s [ [] ↦ none | c ∷ r ↦ elim r [ [] ↦ some c | _ ∷ _ ↦ none ] ];
}

abbrev raw : Text
raw = txt "realm_tok_B"

abbrev token : ApiToken
token = record {
  created_at = 5;
  last_used_at = some 900;
  expires_at = none;
  name = txt "ci";
  token_prefix = txt "realm_tok_...";
  token_hash = hash_token sha raw;
  scopes = txt "pastes:*" ∷ [];
  rate_limit_rpm = 60;
  id = 8;
  is_revoked = false;
}

abbrev request : Text → Request
request authorization = record {
  method = txt "POST";
  authorization = authorization;
  x_api_token = [];
  x_api_key = [];
  x_auth_token = [];
  realm_auth_token = [];
  sec_fetch_site = [];
  origin = txt "https://a.example";
  referer = [];
  x_realm_request = txt "1";
  x_requested_with = [];
}

abbrev claims : UserClaims
claims = record {
  issued_at = 900;
  expires_at = 5000;
  id = txt "*";
  email = txt "a@b";
  username = txt "ann";
  full_name = txt "Ann";
  avatar_url = [];
  provider = txt "local";
  purpose = txt "auth";
  issuer = txt "realm-api";
  subject = txt "*";
  audience = txt "realm-frontend";
}

abbrev moderator : AdminUser
moderator = record {
  created_by = none;
  id = 2;
  user_id = 42;
  permissions = txt "pastes:*" ∷ [];
  is_superadmin = false;
}

abbrev gate : Gate sha rate uuid
gate = record {
  service = some (record { repo = some (token ∷ []); cache = none; pending = [] });
  limiter = some (record { shards = λ i. []; closed = false });
  paseto = some paseto;
  key = [];
  admins = some (moderator ∷ []);
}

abbrev scopes : List Text
scopes = txt "pastes:write" ∷ []

abbrev with_token : Request
with_token = request (txt "Bearer realm_tok_B")

abbrev token_locals : Locals
token_locals = record no_locals { token = some token }

with_token-passes :
    (require_token sha rate uuid env env scopes with_token gate).outcome ≡ proceed token_locals
unfolding require_token extract_raw_token has_prefix realm_api.Common.trim_space
    realm_api.Common.trim_prefix realm_api.Middleware.Token.admit_token
    realm_api.Tokens.Service.verify realm_api.Tokens.Service.verify_hash
    realm_api.Tokens.Service.verify_stored realm_api.Tokens.Repo.get_by_hash
    realm_api.Tokens.Repo.find_hash realm_api.Common.eqb realm_api.Common.Text-discrete hash_token
    hex_encode realm_api.Tokens.Service.check realm_api.Tokens.Service.remember
    realm_api.Tokens.Service.is_due realm_api.Middleware.Token.meter
    realm_api.Middleware.Token.check_scopes realm_api.Tokens.Scopes.has_scope
    realm_api.Tokens.Scopes.scope_grants realm_api.Tokens.Scopes.wildcard_matches
    realm_api.Common.has_suffix realm_api.Common.trim_suffix realm_api.Auth.Limiter.allow
    realm_api.Auth.Limiter.allow_shard realm_api.Auth.Limiter.allow_locked
    realm_api.Auth.Limiter.current realm_api.Auth.Limiter.stamp realm_api.Auth.Limiter.take_token
    realm_api.Auth.Limiter.verdict realm_api.GoMap.get
with_token-passes = refl

require_token_sound_example :
    Admitted sha rate uuid env env (extract_raw_token with_token) scopes gate token_locals
require_token_sound_example =
    require_token_sound sha rate uuid env env scopes with_token gate token_locals with_token-passes

abbrev with_session : Request
with_session = request (txt "Bearer " ++ encode (fields claims))

with_session-passes :
    (require_token_or_user_auth sha rate uuid env env scopes with_session gate).outcome
    ≡ proceed (session_locals claims 42 (some moderator))
unfolding require_token_or_user_auth extract_raw_token has_prefix realm_api.Common.trim_space
    realm_api.Common.trim_prefix realm_api.Middleware.Token.admit_session verify_token
    realm_api.Middleware.Token.admit_claims realm_api.Common.eqb realm_api.Common.Text-discrete
    realm_api.Tokens.Scopes.wildcard_matches realm_api.Common.has_suffix
    realm_api.Common.trim_suffix
with_session-passes = refl

require_token_or_user_auth_sound_example :
    ((has_prefix (either_token with_session) token_mark ≡ true)
      × Admitted sha rate uuid env env
          (either_token with_session)
          scopes
          gate
          (session_locals claims 42 (some moderator)))
    ⊎ ((has_prefix (either_token with_session) token_mark ≡ false)
        × InSession sha rate uuid env
            (either_token with_session)
            scopes
            gate
            (session_locals claims 42 (some moderator)))
require_token_or_user_auth_sound_example =
    require_token_or_user_auth_sound sha rate uuid env env scopes with_session gate
      (session_locals claims 42 (some moderator)) with_session-passes

user-passes :
    require_user_auth uuid 1000 (some paseto) [] with_session
    ≡ proceed (session_locals claims 42 none)
unfolding require_user_auth extract_user_raw_token has_prefix realm_api.Common.trim_space
    realm_api.Common.trim_prefix verify_token realm_api.Common.eqb realm_api.Common.Text-discrete
user-passes = refl

require_user_auth_sound_example :
    (p : Paseto) × (c : UserClaims) × (id : ℕ) × (some paseto ≡ some p)
    × (verify_token p [] 1000 (extract_user_raw_token with_session) ≡ ok c)
    × (c.purpose ≢ txt "2fa_challenge")
    × (uuid.parse c.id ≡ some id)
    × (session_locals claims 42 none ≡ session_locals c id none)
require_user_auth_sound_example =
    require_user_auth_sound uuid 1000 (some paseto) [] with_session (session_locals claims 42 none)
      user-passes

abbrev origins : List Text
origins = txt "https://a.example" ∷ []

csrf_protection_iff_example :
    (csrf_protection (λ c. c) (λ u. none) origins with_token ≡ proceed no_locals) ↔ (
      ((with_token.x_realm_request ≢ []) ⊎ (with_token.x_requested_with ≢ []))
      × ((origins ≡ [])
          ⊎ (with_token.origin ≡ [])
          ⊎ (is_allowed (λ c. c) with_token.origin origins ≡ true))
      × ((origins ≡ [])
          ⊎ (with_token.sec_fetch_site ≢ txt "cross-site")
          ⊎ (is_allowed (λ c. c) with_token.origin origins ≡ true))
      × ((origins ≡ [])
          ⊎ (with_token.origin ≢ [])
          ⊎ (with_token.referer ≡ [])
          ⊎ (referer_allowed (λ c. c) (λ u. none) with_token.referer origins ≡ true)))
unfolding realm_api.Common.eqb realm_api.Common.Text-discrete
csrf_protection_iff_example = csrf_protection_iff (λ c. c) (λ u. none) origins with_token refl
