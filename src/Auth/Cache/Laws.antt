-- ===== src/Auth/Cache/Laws.antt =====
-- internal/auth/cache.go: the bound and the distinct keys of the token cache, and what `Get` returns
-- after each operation.
use realm_api.Common.{
  ℕ, ◌+◌, ◌≤◌, ◌<◌, ◌≡◌, ◌≢◌, ◌⊎◌, ◌↔◌, Bool, none, some, List, Text, Text-discrete, ℤ, arith,
  length, ltb, if◌then◌else◌, holds,
}
use realm_api.GoMap
use realm_api.GoMap.{IsMap}
use realm_api.GoMap.Laws
use realm_api.Tokens.{ApiToken}
use realm_api.Auth.Cache.{
  max_token_cache_size, CachedToken, TokenCache, is_stale, has_id, new_token_cache, get, cleanup,
  make_room, set, invalidate, invalidate_by_id,
}

-- At most `maxTokenCacheSize` entries, at most one of them for a hash.
pub record IsValid (tc : TokenCache) : Type 0 where
  pub bounded : length tc.items ≤ max_token_cache_size
  pub distinct : IsMap Text-discrete tc.items

module _ (now choice : ℕ) (items : List (Text × CachedToken)) where
  length-make_room :
      length items ≤ max_token_cache_size
      → length (make_room now choice items) < max_token_cache_size
  unfolding make_room
  length-make_room h = ground (
    arith,
    Laws.length-delete_if-le (is_stale now) items,
    Laws.length-delete_one choice (GoMap.delete_if (is_stale now) items),
  )

  make_room-IsMap : IsMap Text-discrete items → IsMap Text-discrete (make_room now choice items)
  unfolding make_room
  make_room-IsMap h =
      let swept = Laws.delete_if-IsMap Text-discrete (is_stale now) items h in
      ground (
        arith,
        swept,
        Laws.delete_one-IsMap Text-discrete choice (GoMap.delete_if (is_stale now) items),
      )

  -- Room is made by deleting entries, never by changing one.
  get-make_room :
      (q : Text)
      → IsMap Text-discrete items
      → (GoMap.get Text-discrete q (make_room now choice items) ≡ none)
        ⊎ (GoMap.get Text-discrete q (make_room now choice items) ≡ GoMap.get Text-discrete q items)
  unfolding make_room
  get-make_room q h = ground (
    arith,
    Laws.delete_if-IsMap Text-discrete (is_stale now) items h,
    Laws.get-delete_if Text-discrete (is_stale now) q items h,
    Laws.get-delete_one Text-discrete choice q (GoMap.delete_if (is_stale now) items),
  )

module _ (now now' choice : ℕ) (token_hash : Text) (token : ApiToken) {tc : TokenCache} where
  -- `Set` on a cache within its bound and with distinct hashes gives such a cache, whichever entry
  -- the eviction takes.
  pub set-IsValid : IsValid tc → IsValid (set now now' choice token_hash token tc)
  unfolding set
  set-IsValid v = record {
    bounded = omega (
      arith,
      Laws.length-put-le Text-discrete token_hash
          (record { token = token; expires_at = now' + tc.ttl }) (make_room now choice tc.items),
      length-make_room now choice tc.items v.bounded,
    );
    distinct =
        Laws.put-IsMap Text-discrete token_hash _ _
          (make_room-IsMap now choice tc.items v.distinct);
  }

pub invalidate-IsValid : (h : Text) {tc : TokenCache} → IsValid tc → IsValid (invalidate h tc)
unfolding invalidate
invalidate-IsValid h {tc} v = record {
  bounded = omega (arith, Laws.length-delete-le Text-discrete h tc.items, v.bounded);
  distinct = Laws.delete-IsMap Text-discrete h tc.items v.distinct;
}

delete_if-IsValid :
    (p : CachedToken → Bool) {tc : TokenCache}
    → IsValid tc
    → IsValid (record tc { items = GoMap.delete_if p tc.items })
delete_if-IsValid p {tc} v = record {
  bounded = omega (arith, Laws.length-delete_if-le p tc.items, v.bounded);
  distinct = Laws.delete_if-IsMap Text-discrete p tc.items v.distinct;
}

pub invalidate_by_id-IsValid :
    (id : ℕ) {tc : TokenCache} → IsValid tc → IsValid (invalidate_by_id id tc)
unfolding invalidate_by_id
invalidate_by_id-IsValid id v = delete_if-IsValid (has_id id) v

pub cleanup-IsValid : (now : ℕ) {tc : TokenCache} → IsValid tc → IsValid (cleanup now tc)
unfolding cleanup
cleanup-IsValid now v = delete_if-IsValid (is_stale now) v

pub new_token_cache-IsValid : (ttl : ℤ) → IsValid (new_token_cache ttl)
unfolding new_token_cache
new_token_cache-IsValid ttl = record { bounded = omega arith; distinct = tt }

-- What stands in the cache afterwards stood there before, or is the new entry.
module _ (q : Text) {v : CachedToken} (tc : TokenCache) (valid : IsValid tc) where
  pub items-set :
      (now now' choice : ℕ) (h : Text) (token : ApiToken)
      → GoMap.get Text-discrete q (set now now' choice h token tc).items ≡ some v
      → ((h ≡ q) × (v.token ≡ token)) ⊎ (GoMap.get Text-discrete q tc.items ≡ some v)
  unfolding set
  items-set now now' choice h token e = ground (
    arith,
    Laws.get-put Text-discrete h q (record { token = token; expires_at = now' + tc.ttl })
        (make_room now choice tc.items),
    get-make_room now choice tc.items q valid.distinct,
  )

  pub items-invalidate_by_id :
      (id : ℕ)
      → GoMap.get Text-discrete q (invalidate_by_id id tc).items ≡ some v
      → (GoMap.get Text-discrete q tc.items ≡ some v) × (v.token.id ≢ id)
  unfolding invalidate_by_id
  items-invalidate_by_id id e =
      ground (arith, Laws.get-delete_if Text-discrete (has_id id) q tc.items valid.distinct)

  pub items-cleanup :
      (now : ℕ)
      → GoMap.get Text-discrete q (cleanup now tc).items ≡ some v
      → GoMap.get Text-discrete q tc.items ≡ some v
  unfolding cleanup
  items-cleanup now e =
      ground (arith, Laws.get-delete_if Text-discrete (is_stale now) q tc.items valid.distinct)

module _ (t : ℕ) (tc : TokenCache) where
  -- What `Set` stored is found until the time to live has passed, and not after it.
  pub get-set_self :
      (now now' choice : ℕ) (h : Text) (token : ApiToken)
      → get t h (set now now' choice h token tc)
        ≡ (if ltb (now' + tc.ttl) t then none else some token)
  unfolding get set
  get-set_self now now' choice h token = ground (
    arith,
    Laws.get-put Text-discrete h h (record { token = token; expires_at = now' + tc.ttl })
        (make_room now choice tc.items),
  )

  -- On a valid cache `Set` leaves the lookup of another hash as it was, or has evicted its entry.
  get-set_other :
      (now now' choice : ℕ) (h q : Text) (token : ApiToken)
      → IsValid tc
      → q ≢ h
      → (get t q (set now now' choice h token tc) ≡ none)
        ⊎ (get t q (set now now' choice h token tc) ≡ get t q tc)
  unfolding get set
  get-set_other now now' choice h q token v ne = ground (
    arith,
    Laws.get-put Text-discrete h q (record { token = token; expires_at = now' + tc.ttl })
        (make_room now choice tc.items),
    get-make_room now choice tc.items q v.distinct,
  )

  -- On a valid cache the periodic cleanup is invisible: from its time on every lookup answers as it
  -- would have without it.
  get-cleanup : (now : ℕ) (q : Text) → IsValid tc → now ≤ t → get t q (cleanup now tc) ≡ get t q tc
  unfolding get cleanup
  get-cleanup now q v le =
      ground (arith, Laws.get-delete_if Text-discrete (is_stale now) q tc.items v.distinct)

  -- Exactly the entry of that hash is gone.
  pub get-invalidate :
      (h q : Text)
      → get t q (invalidate h tc) ≡ (if holds (Text-discrete h q) then none else get t q tc)
  unfolding get invalidate
  get-invalidate h q = ground (arith, Laws.get-delete Text-discrete h q tc.items)

  -- On a valid cache `InvalidateByID` takes away exactly the tokens with that identifier, whatever
  -- their hashes.
  get-invalidate_by_id :
      (id : ℕ) (q : Text) {token : ApiToken}
      → IsValid tc
      → (get t q (invalidate_by_id id tc) ≡ some token)
        ↔ ((get t q tc ≡ some token) × (token.id ≢ id))
  unfolding get invalidate_by_id
  get-invalidate_by_id id q v =
      let e = Laws.get-delete_if Text-discrete (has_id id) q tc.items v.distinct in
      (ground (arith, e), ground (arith, e))
