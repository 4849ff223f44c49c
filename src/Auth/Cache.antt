-- ===== src/Auth/Cache.antt =====
-- internal/auth/cache.go: verified tokens in memory, by the hash of the raw token. The mutex makes
-- each operation one step.
pub mod Laws
use realm_api.Common.{
  ℤ, is_pos, abs_pos, ℕ, ◌+◌, ◌*◌, Bool, true, false, Option, none, some, List, [], Text,
  Text-discrete, ℕ_discrete, length, ltb, leb, ◌==◌, if◌then◌else◌,
}
use realm_api.Env.{Env, minute}
use realm_api.GoMap
use realm_api.Tokens.{ApiToken}

abbrev pub max_token_cache_size : ℕ
max_token_cache_size = 10000

pub record CachedToken : Type 0 where
  pub token : ApiToken
  pub expires_at : ℕ

-- `closed` says that `stopCh` is closed.
pub record TokenCache : Type 0 where
  pub items : List (Text × CachedToken)
  pub ttl : ℕ
  pub closed : Bool

-- `NewTokenCache`
unfoldable pub new_token_cache : ℤ → TokenCache
new_token_cache ttl = record {
  items = [];
  ttl = if is_pos ttl then abs_pos ttl else 5 * minute;
  closed = false;
}

-- `now.After(v.expiresAt)`
abbrev pub is_stale : ℕ → CachedToken → Bool
is_stale now v = ltb v.expires_at now

abbrev fresh_token : ℕ → Option CachedToken → Option ApiToken
fresh_token now none = none
fresh_token now (some item) = if is_stale now item then none else some item.token

unfoldable pub get : ℕ → Text → TokenCache → Option ApiToken
get now token_hash tc = fresh_token now (GoMap.get Text-discrete token_hash tc.items)

-- `cleanup`
unfoldable pub cleanup : ℕ → TokenCache → TokenCache
cleanup now tc = record tc { items = GoMap.delete_if (is_stale now) tc.items }

-- the eviction at the head of `Set`; `choice` is the entry that the second loop yields
make_room : ℕ → ℕ → List (Text × CachedToken) → List (Text × CachedToken)
make_room now choice items =
    if leb max_token_cache_size (length items)
    then (let swept = GoMap.delete_if (is_stale now) items in
        if leb max_token_cache_size (length swept) then GoMap.delete_one choice swept else swept)
    else items

-- The clock is read for the eviction and again for the new entry.
unfoldable pub set : ℕ → ℕ → ℕ → Text → ApiToken → TokenCache → TokenCache
unfolding make_room
set now now' choice token_hash token tc = record tc {
  items =
      GoMap.put Text-discrete token_hash (record { token = token; expires_at = now' + tc.ttl })
        (make_room now choice tc.items);
}

unfoldable pub invalidate : Text → TokenCache → TokenCache
invalidate token_hash tc = record tc { items = GoMap.delete Text-discrete token_hash tc.items }

abbrev pub has_id : ℕ → CachedToken → Bool
has_id id v = v.token.id == id

unfoldable pub invalidate_by_id : ℕ → TokenCache → TokenCache
invalidate_by_id id tc = record tc { items = GoMap.delete_if (has_id id) tc.items }

-- `Close`: a second call changes nothing
unfoldable pub close : TokenCache → TokenCache
close tc = if tc.closed then tc else record tc { closed = true }
