-- ===== src/Auth/Tests.antt =====
-- Runs of internal/auth: a cache with one token, a limiter with one key, a session token.
use realm_api.Common.{◌/◌, ◌*◌, ◌≡◌, refl, false, none, [], ◌∷◌, Text, txt, arith, pos}
use realm_api.Env.{Env}
use realm_api.Errors.{ok}
use realm_api.Tokens.{ApiToken}
use realm_api.Auth.Cache
use realm_api.Auth.Cache.{TokenCache, new_token_cache}
use realm_api.Auth.Cache.Laws.{IsValid, new_token_cache-IsValid, set-IsValid}
use realm_api.Auth.Limiter
use realm_api.Auth.Limiter.{TokenRateLimiter}
use realm_api.Auth.Limiter.Laws
use realm_api.Auth.Paseto.{Subject, claims_for, generate_token, generate_2fa_temp_token}
use realm_api.Auth.Samples.{rate, paseto, encode, fields}

abbrev env : Env
env = record {
  clock = λ n. 1000;
  fails = λ n. false;
  choice = λ n. 0;
  column = λ t. t / 1000 * 1000;
}

abbrev token : ApiToken
token = record {
  created_at = 5;
  last_used_at = none;
  expires_at = none;
  name = txt "ci";
  token_prefix = txt "realm_tok_...";
  token_hash = txt "aa";
  scopes = txt "*" ∷ [];
  rate_limit_rpm = 60;
  id = 7;
  is_revoked = false;
}

abbrev empty : TokenCache
empty = new_token_cache (pos 300)

abbrev one : TokenCache
one = Cache.set 1000 1000 0 (txt "aa") token empty

set-IsValid_example : IsValid one
set-IsValid_example = set-IsValid 1000 1000 0 (txt "aa") token (new_token_cache-IsValid (pos 300))

abbrev fresh : TokenRateLimiter rate
fresh = record { shards = λ i. []; closed = false }

fresh-IsValid : Laws.IsValid rate fresh
fresh-IsValid i = record { bounded = omega arith; distinct = tt }

abbrev used : TokenRateLimiter rate
used = (Limiter.allow rate env (txt "a") 60 fresh).1

allow-bucket_example :
    (((Limiter.allow rate env (txt "a") 60 used).0).allowed
      ≡ (rate.allow 1000 (Laws.bucket_of rate (txt "a") 60 used)).0)
    × (Laws.bucket_of rate (txt "a") 60 (Limiter.allow rate env (txt "a") 60 used).1
        ≡ (rate.allow 1000 (Laws.bucket_of rate (txt "a") 60 used)).1)
allow-bucket_example = Laws.allow-bucket rate env (txt "a") 60 used (omega arith)

abbrev user : Subject
user = record {
  id = txt "42";
  email = txt "a@b";
  username = txt "ann";
  full_name = txt "Ann";
  avatar_url = none;
  provider = txt "local";
}

abbrev session : Text
session = encode (fields (claims_for (txt "auth") 1000 500 user))

session-made : generate_token paseto [] 0 1000 500 user ≡ ok session
unfolding generate_token claims_for
session-made = refl

abbrev challenge : Text
challenge = encode (fields (claims_for (txt "2fa_challenge") 1000 500 user))

challenge-made : generate_2fa_temp_token paseto [] 0 1000 500 user ≡ ok challenge
unfolding generate_2fa_temp_token claims_for
challenge-made = refl
