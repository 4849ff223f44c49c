-- ===== src/Grpc/Tests.antt =====
-- A wrapped error, and a call with a session.
use realm_api.Common.{
  ◌/◌, ◌*◌, ℕ, ◌≡◌, ◌⊎◌, refl, true, false, Option, none, some, List, [], ◌∷◌, ◌++◌, Text, txt,
  drop, has_prefix,
}
use realm_api.Env.{Env}
use realm_api.Errors.{Err, wrap, sentinel, err_user_not_found}
use realm_api.Tokens.Service.{token_mark}
use realm_api.Auth.Paseto.{UserClaims}
use realm_api.Auth.Samples.{rate, paseto, encode, fields}
use realm_api.Middleware.Token.{Uuid}
use realm_api.Grpc.Status.{
  map_error, domain, status, expected, text_of, cause, internal, map_error_lem,
}
use realm_api.Grpc.Auth.{
  Metadata, Context, background, Guard, run, raw_token, auth_unary, ByToken, BySession,
  auth_unary_sound,
}

abbrev missing : Err
missing = wrap "failed to load profile" (sentinel err_user_not_found)

map_error_lem_example :
    (map_error (some (domain missing)) ≡ some (expected (text_of missing) (cause missing)))
    × (map_error (some (status internal (text_of missing)))
        ≡ some (status internal (text_of missing)))
    × (map_error none ≡ none)
map_error_lem_example = map_error_lem missing internal (text_of missing)

abbrev sha : Text → List ℕ
sha s = drop 10 s

abbrev env : Env
env = record {
  clock = λ n. 1000;
  fails = λ n. false;
  choice = λ n. 0;
  column = λ t. t / 1000 * 1000;
}

-- An identifier is a text of one code point.
abbrev uuid : Uuid
uuid = record {
  text = λ id. id ∷ [];
  parse = λ s. elim s [ [] ↦ none | c ∷ r ↦ elim r [ [] ↦ some c | _ ∷ _ ↦ none ] ];
}

abbrev claims : UserClaims
claims = record {
  issued_at = 900;
  expires_at = 5000;
  id = txt "*";
  email = txt "a@b";
  username = txt "ann";
  full_name = txt "Ann";
  avatar_url = [];
  provider = txt "local";
  purpose = txt "auth";
  issuer = txt "realm-api";
  subject = txt "*";
  audience = txt "realm-frontend";
}

abbrev guard : Guard sha rate uuid
guard = record { paseto = some paseto; key = []; service = none; limiter = none }

abbrev metadata : Metadata
metadata = record {
  authorization = (txt "Bearer " ++ encode (fields claims)) ∷ [];
  x_api_token = [];
}

abbrev context : Context
context = record {
  user_id = some 42;
  user_email = some (txt "a@b");
  username = some (txt "ann");
  api_token = none;
}

runs : (auth_unary sha rate uuid env env (some metadata) guard).0 ≡ run context
unfolding auth_unary raw_token realm_api.Common.trim_space has_prefix realm_api.Common.trim_prefix
    realm_api.Grpc.Auth.with_session realm_api.Auth.Paseto.verify_token realm_api.Common.eqb
    realm_api.Common.Text-discrete
runs = refl

auth_unary_sound_example :
    (context ≡ background)
    ⊎ ((has_prefix (raw_token metadata) token_mark ≡ true)
        × ByToken sha rate uuid env env (raw_token metadata) guard context)
    ⊎ ((has_prefix (raw_token metadata) token_mark ≡ false)
        × BySession sha rate uuid 1000 (raw_token metadata) guard context)
auth_unary_sound_example = auth_unary_sound sha rate uuid env env metadata guard context runs
