-- ===== src/Tokens/Service/Race.antt =====
-- `Verify` is not one step: between its query of the table and its update of the cache another
-- request can run `Revoke`.
use realm_api.Common.{
  ℕ, ◌+◌, ◌≤◌, ◌≡◌, refl, true, some, List, Text, trim_space, arith, Bool-cases, Option-cases, inl,
  inr,
}
use realm_api.Errors.{ok, Result-cases}
use realm_api.Env.{Env}
use realm_api.Auth.Cache
use realm_api.Auth.Cache.{TokenCache}
use realm_api.Auth.Cache.Laws
use realm_api.Tokens.{ApiToken}
use realm_api.Tokens.Repo
use realm_api.Tokens.Repo.{Table, find_hash}
use realm_api.Tokens.Secret.{hash_token}
use realm_api.Tokens.Service.{
  TokenService, check, is_due, remember, verify_hash, verify, revoke, is_candidate,
}

invalidate-ttl : (id : ℕ) (tc : TokenCache) → (Cache.invalidate_by_id id tc).ttl ≡ tc.ttl
unfolding Cache.invalidate_by_id
invalidate-ttl id tc = refl

set-ttl :
    (now now' choice : ℕ) (h : Text) (t : ApiToken) (tc : TokenCache)
    → (Cache.set now now' choice h t tc).ttl ≡ tc.ttl
unfolding Cache.set
set-ttl now now' choice h t tc = refl

revoke-cache :
    (e : Env) (id : ℕ) (s : TokenService) (tc : TokenCache)
    → s.cache ≡ some tc
    → (revoke e id s).0 ≡ ok tt
    → (revoke e id s).1.cache ≡ some (Cache.invalidate_by_id id tc)
unfolding revoke
revoke-cache e id s tc c done = elim (Option-cases s.repo) [
  | inl off ↦ ground arith
  | inr (rows, on) ↦ elim (Result-cases (Repo.revoke (e.fails 0) id rows)) [
    | inr (x, refused) ↦ ground arith
    | inl (rows', changed) ↦ ground arith
  ]
]

check_used :
    (now x : ℕ) (t : ApiToken)
    → check now t ≡ ok t
    → check now (record t { last_used_at = some x }) ≡ ok (record t { last_used_at = some x })
unfolding check
check_used now x t h = ground arith

-- After the update the cache answers with the token until the new entry expires.
verify-remember :
    (e g : Env) (h : Text) (t : ApiToken) (s : TokenService) (tc : TokenCache)
    → s.cache ≡ some tc
    → check (g.clock 1) t ≡ ok t
    → g.clock 0 ≤ e.clock 3 + tc.ttl
    → g.clock 0 ≤ e.clock 6 + tc.ttl
    → (u : ApiToken) × ((verify_hash g h (remember e h t s).1).0 ≡ ok u) × (u.id ≡ t.id)
unfolding remember verify_hash
verify-remember e g h t s tc c k a b =
    let used : ApiToken = record t { last_used_at = some (e.clock 4) } in
    let first = Cache.set (e.clock 2) (e.clock 3) (e.choice 0) h t tc in
    elim (Bool-cases (is_due (e.clock 4) t.last_used_at)) [
      | inl due ↦ (
        used,
        ground (
          arith,
          check_used (g.clock 1) (e.clock 4) t,
          Laws.get-set_self (g.clock 0) first (e.clock 5) (e.clock 6) (e.choice 1) h used,
          set-ttl (e.clock 2) (e.clock 3) (e.choice 0) h t tc,
        ),
        refl,
      )
      | inr recent ↦ (
        t,
        ground (arith, Laws.get-set_self (g.clock 0) tc (e.clock 2) (e.clock 3) (e.choice 0) h t),
        refl,
      )
    ]

-- A `Verify` that has read its row, `t`, before a successful `Revoke` of `t`, and updates the cache
-- after it, leaves a cache from which `t` is accepted, with no query of the table, as long as the
-- new entry and `t` have not expired.
pub verify-remember-revoke :
    (sha256 : Text → List ℕ) (e f g : Env) (raw : Text) (t : ApiToken) (s : TokenService)
    (tc : TokenCache)
    → s.cache ≡ some tc
    → is_candidate (trim_space raw) ≡ true
    → (revoke f t.id s).0 ≡ ok tt
    → check (g.clock 1) t ≡ ok t
    → g.clock 0 ≤ e.clock 3 + tc.ttl
    → g.clock 0 ≤ e.clock 6 + tc.ttl
    → (u : ApiToken) × ((verify sha256 g raw
          (remember e (hash_token sha256 (trim_space raw)) t (revoke f t.id s).1).1).0
        ≡ ok u)
      × (u.id ≡ t.id)
unfolding verify
verify-remember-revoke sha256 e f g raw t s tc c good done k a b =
    let same = invalidate-ttl t.id tc in
    let (u, accepted, id) =
      verify-remember e g (hash_token sha256 (trim_space raw)) t (revoke f t.id s).1
        (Cache.invalidate_by_id t.id tc) (revoke-cache f t.id s tc c done) k (omega (arith, same))
        (omega (arith, same)) in
    (u, rw good accepted, id)
