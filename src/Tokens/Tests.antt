-- ===== src/Tokens/Tests.antt =====
-- Runs of internal/service/token.go at a table with two tokens and an empty cache.
use realm_api.Common.{
  ◌/◌, ◌*◌, ℕ, ◌≡◌, ◌≢◌, ◌↔◌, refl, true, false, some, none, List, [], ◌∷◌, Text, txt, drop,
  Text-discrete, pos, arith, eqb, has_prefix, trim_space, Any,
}
use realm_api.Env.{Env}
use realm_api.Errors.{ok, map}
use realm_api.GoMap
use realm_api.Auth.Cache
use realm_api.Auth.Cache.{TokenCache}
use realm_api.Tokens.{ApiToken}
use realm_api.Tokens.Repo
use realm_api.Tokens.Repo.{Table, find_hash}
use realm_api.Tokens.Scopes.{has_scope, has_scope_iff, Grants}
use realm_api.Tokens.Secret.{hash_token, hex_encode}
use realm_api.Tokens.Service.{
  TokenService, TokenCreateInput, TokenCreateResult, check, verify, revoke, verify_hash,
  verify_stored, remember,
}
use realm_api.Tokens.Service.Coherence.{
  IsCoherent, forget, here, next, verified, revoked, Reach-IsCoherent,
}
use realm_api.Tokens.Service.Cached.{verdict, verify-verdict, verify_sound, is_unexpired}
use realm_api.Tokens.Service.Revocation.{verify-revoke}
use realm_api.Tokens.Service.Race.{verify-remember-revoke}

-- The text after `realm_tok_` stands for the hash.
abbrev sha : Text → List ℕ
sha s = drop 10 s

abbrev env : Env
env = record {
  clock = λ n. 1000;
  fails = λ n. false;
  choice = λ n. 0;
  column = λ t. t / 1000 * 1000;
}

abbrev token : ℕ → Text → ApiToken
token id raw = record {
  created_at = 5;
  last_used_at = some 900;
  expires_at = some 5000;
  name = txt "ci";
  token_prefix = txt "realm_tok_...";
  token_hash = hash_token sha raw;
  scopes = txt "pastes:*" ∷ [];
  rate_limit_rpm = 60;
  id = id;
  is_revoked = false;
}

abbrev raw_a : Text
raw_a = txt "realm_tok_A"

abbrev raw_b : Text
raw_b = txt "realm_tok_B"

abbrev rows : Table
rows = token 7 raw_a ∷ token 8 raw_b ∷ []

abbrev service : TokenService
service = record {
  repo = some rows;
  cache = some (record { items = []; ttl = 300; closed = false });
  pending = [];
}

service-IsCoherent : IsCoherent service
unfolding GoMap.get
service-IsCoherent =
    (record { bounded = omega arith; distinct = tt }, λ h v f. absurd (ground arith))

verify-b : (verify sha env raw_b service).0 ≡ ok (token 8 raw_b)
unfolding verify verify_hash verify_stored remember check hash_token hex_encode eqb find_hash
    Repo.get_by_hash Cache.get Cache.set GoMap.get trim_space has_prefix Text-discrete
    realm_api.Tokens.Service.is_due
verify-b = refl

revoke-a : (revoke env 7 service).0 ≡ ok tt
unfolding revoke Repo.revoke
revoke-a = refl

verify-verdict_example : map forget (verify sha env raw_b service).0 ≡ verdict sha 1000 raw_b rows
verify-verdict_example = verify-verdict sha env raw_b service rows refl service-IsCoherent refl

verify_sound_example :
    (row : ApiToken) × (find_hash (hash_token sha raw_b) rows ≡ some row)
    × (forget row ≡ forget (token 8 raw_b))
    × (row.is_revoked ≡ false)
    × (is_unexpired 1000 row.expires_at ≡ true)
    × (has_prefix raw_b (txt "realm_tok_") ≡ true)
unfolding trim_space
verify_sound_example =
    verify_sound sha env raw_b service rows (token 8 raw_b) refl service-IsCoherent verify-b

-- after `Revoke` of token 7
abbrev revoked_a : TokenService
revoked_a = (revoke env 7 service).1

verify-b_later : (verify sha env raw_b revoked_a).0 ≡ ok (token 8 raw_b)
unfolding verify verify_hash verify_stored remember check hash_token hex_encode eqb find_hash
    Repo.get_by_hash Cache.get Cache.set GoMap.get trim_space has_prefix Text-discrete
    realm_api.Tokens.Service.is_due revoke Repo.revoke Cache.invalidate_by_id GoMap.delete_if
    Repo.revoke_rows
verify-b_later = refl

verify-revoke_example : (token 8 raw_b).id ≢ 7
verify-revoke_example =
    verify-revoke sha env env 7 raw_b service revoked_a (token 8 raw_b) service-IsCoherent revoke-a
      here verify-b_later

Reach-IsCoherent_example : IsCoherent (verify sha env raw_b revoked_a).1
Reach-IsCoherent_example =
    Reach-IsCoherent {sha256 = sha} service-IsCoherent
      (next (next here (revoked env 7 service)) (verified env raw_b revoked_a))

abbrev input : TokenCreateInput
input = record { name = txt " "; scopes = []; rate_limit_rpm = pos 0; expires_in = pos 0 }

abbrev result : TokenCreateResult
result = record {
  raw = txt "realm_tok_AQID";
  token = record {
    created_at = 1000;
    last_used_at = none;
    expires_at = none;
    name = txt "default-token";
    token_prefix = txt "realm_tok_AQID...";
    scopes = txt "*" ∷ [];
    rate_limit_rpm = 60;
    id = 9;
    is_revoked = false;
  };
}

verify-remember-revoke_example :
    (u : ApiToken) × ((verify sha env raw_a
        (remember env (hash_token sha (trim_space raw_a)) (token 7 raw_a) revoked_a).1).0
      ≡ ok u)
    × (u.id ≡ 7)
unfolding check trim_space has_prefix
verify-remember-revoke_example =
    verify-remember-revoke sha env env env raw_a (token 7 raw_a) service
      (record { items = []; ttl = 300; closed = false }) refl refl revoke-a refl (omega arith)
      (omega arith)

-- `pastes:*` grants `pastes:write`.
has_scope_iff_example :
    (has_scope (txt "pastes:*" ∷ []) (txt "pastes:write") ≡ true)
    ↔ Any (Grants (txt "pastes:write")) (txt "pastes:*" ∷ [])
has_scope_iff_example = has_scope_iff (txt "pastes:*" ∷ []) (txt "pastes:write")
