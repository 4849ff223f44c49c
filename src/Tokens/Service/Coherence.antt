-- ===== src/Tokens/Service/Coherence.antt =====
-- The steps of internal/service/token.go, and what it is for the cache to agree with the table.
use mathlib.Core.Option
use realm_api.Common.{
  ℕ, ◌≡◌, ◌≢◌, inl, inr, refl, Option, none, some, List, [], ◌∷◌, ◌++◌, Text, Text-discrete, arith,
  Bool-cases, trim_space,
}
use realm_api.Errors.{ok, Result-cases}
use realm_api.Env.{Env}
use realm_api.GoMap
use realm_api.Auth.Cache
use realm_api.Auth.Cache.{TokenCache, CachedToken}
use realm_api.Auth.Cache.Laws
use realm_api.Auth.Cache.Laws.{IsValid}
use realm_api.Tokens.{ApiToken}
use realm_api.Tokens.Repo
use realm_api.Tokens.Repo.{Table, find_hash, revoke_rows, touch_rows}
use realm_api.Tokens.Secret.{hash_token, base64_raw_url}
use realm_api.Tokens.Service.{
  TokenService, TokenCreateInput, check, is_due, remember, verify_stored, verify_hash, create,
  verify, revoke, run_pending, tick, token_mark, new_record,
}

-- A token but for the time of its last use, which the cache may hold later or earlier.
abbrev pub forget : ApiToken → ApiToken
forget t = record t { last_used_at = none }

unfoldable pub stored : Text → Table → Option ApiToken
stored h rows = Option.map forget (find_hash h rows)

-- Every cached token is the row of its hash.
abbrev pub Agrees : Table → TokenCache → Type 0
Agrees rows tc =
    (h : Text) (v : CachedToken)
    → GoMap.get Text-discrete h tc.items ≡ some v
    → stored h rows ≡ some (forget v.token)

abbrev pub Coherent : Option Table → Option TokenCache → Type 0
Coherent none c = Unit
Coherent (some rows) none = Unit
Coherent (some rows) (some tc) = IsValid tc × Agrees rows tc

abbrev pub IsCoherent : TokenService → Type 0
IsCoherent s = Coherent s.repo s.cache

stored-touch_rows :
    (h : Text) (id now : ℕ) (rows : Table) → stored h (touch_rows id now rows) ≡ stored h rows
unfolding stored find_hash touch_rows
stored-touch_rows h id now [] = refl
stored-touch_rows h id now (t ∷ rows) = ground (arith, stored-touch_rows h id now rows)

stored-append :
    (h : Text) (rows more : Table) (x : ApiToken)
    → stored h rows ≡ some x
    → stored h (rows ++ more) ≡ some x
unfolding stored find_hash
stored-append h [] more x e = cc
stored-append h (t ∷ rows) more x e = ground (arith, stored-append h rows more x)

stored-revoke_rows :
    (h : Text) (id : ℕ) (rows : Table) (x : ApiToken)
    → stored h rows ≡ some x
    → x.id ≢ id
    → stored h (revoke_rows id rows) ≡ some x
unfolding stored find_hash revoke_rows
stored-revoke_rows h id [] x e ne = cc
stored-revoke_rows h id (t ∷ rows) x e ne = ground (arith, stored-revoke_rows h id rows x)

module _ (rows : Table) (tc : TokenCache) (c : Coherent (some rows) (some tc)) where
  set-Coherent :
      (now now' choice : ℕ) (h : Text) (t : ApiToken)
      → stored h rows ≡ some (forget t)
      → Coherent (some rows) (some (Cache.set now now' choice h t tc))
  set-Coherent now now' choice h t e = (
    Laws.set-IsValid now now' choice h t c.0,
    λ q v f. elim (Laws.items-set q tc c.0 now now' choice h t f) [
      | inl (same, token) ↦ ground arith
      | inr old ↦ c.1 q v old
    ],
  )

  revoke-Coherent :
      (id : ℕ) → Coherent (some (revoke_rows id rows)) (some (Cache.invalidate_by_id id tc))
  revoke-Coherent id = (
    Laws.invalidate_by_id-IsValid id c.0,
    λ q v f.
        let (old, ne) = Laws.items-invalidate_by_id q tc c.0 id f in
        stored-revoke_rows q id rows (forget v.token) (c.1 q v old) ne,
  )

  cleanup-Coherent : (now : ℕ) → Coherent (some rows) (some (Cache.cleanup now tc))
  cleanup-Coherent now =
      (Laws.cleanup-IsValid now c.0, λ q v f. c.1 q v (Laws.items-cleanup q tc c.0 now f))

  touch-Coherent : (id now : ℕ) → Coherent (some (touch_rows id now rows)) (some tc)
  touch-Coherent id now = (c.0, λ q v f. rw (stored-touch_rows q id now rows) (c.1 q v f))

  append-Coherent : (more : Table) → Coherent (some (rows ++ more)) (some tc)
  append-Coherent more = (c.0, λ q v f. stored-append q rows more (forget v.token) (c.1 q v f))

pub stored-found :
    (h : Text) (rows : Table) (t : ApiToken)
    → find_hash h rows ≡ some t
    → stored h rows ≡ some (forget t)
unfolding stored
stored-found h rows t e = rw e

remember-Coherent :
    (e : Env) (h : Text) (t : ApiToken) (rows : Table) (cache : Option TokenCache)
    (pending : List ℕ)
    → stored h rows ≡ some (forget t)
    → Coherent (some rows) cache
    → IsCoherent (remember e h t (record { repo = some rows; cache = cache; pending = pending })).1
unfolding remember
remember-Coherent e h t rows none pending f c = ground arith
remember-Coherent e h t rows (some tc) pending f c =
    let first = set-Coherent rows tc c (e.clock 2) (e.clock 3) (e.choice 0) h t f in
    let used : ApiToken = record t { last_used_at = some (e.clock 4) } in
    elim (Bool-cases (is_due (e.clock 4) t.last_used_at)) [
      | inl due ↦ rw due (
          set-Coherent rows (Cache.set (e.clock 2) (e.clock 3) (e.choice 0) h t tc) first
            (e.clock 5) (e.clock 6) (e.choice 1) h used f)
      | inr recent ↦ rw recent first
    ]

pub check_ok : (now : ℕ) (t t' : ApiToken) → check now t ≡ ok t' → t' ≡ t
unfolding check
check_ok now t t' h = ground arith

verify_stored-Coherent :
    (e : Env) (h : Text) (repo : Option Table) (cache : Option TokenCache) (pending : List ℕ)
    → Coherent repo cache
    → IsCoherent (verify_stored e h (record { repo = repo; cache = cache; pending = pending })).1
unfolding verify_stored
verify_stored-Coherent e h none cache pending c = tt
verify_stored-Coherent e h (some rows) cache pending c =
    elim (Result-cases (Repo.get_by_hash (e.fails 0) h rows)) [
      | inr (x, missing) ↦ rw (missing, verify_stored) c
      | inl (t, found) ↦
          rw (found, verify_stored)
            (elim (Result-cases (check (e.clock 1) t)) [
              | inr (x, refused) ↦ rw (refused, verify_stored) c
              | inl (t', passed) ↦
                  let row = Repo.get_by_hash-eq-ok (e.fails 0) h rows t found in
                  let same = check_ok (e.clock 1) t t' passed in
                  rw (passed, verify_stored)
                    (remember-Coherent e h t' rows cache pending
                      (rw same (stored-found h rows t row)) c)
            ])
    ]

verify-IsCoherent :
    (sha256 : Text → List ℕ) (e : Env) (raw : Text) (s : TokenService)
    → IsCoherent s
    → IsCoherent (verify sha256 e raw s).1
unfolding verify verify_hash
verify-IsCoherent sha256 e raw s c = ground (
  arith,
  verify_stored-Coherent e (hash_token sha256 (trim_space raw)) s.repo s.cache s.pending c,
)

create-Coherent :
    (sha256 : Text → List ℕ) (e : Env) (random : Option (List ℕ)) (id : ℕ)
    (input : TokenCreateInput) (repo : Option Table) (cache : Option TokenCache) (pending : List ℕ)
    → Coherent repo cache
    → IsCoherent
        (create sha256 e random id input
          (record { repo = repo; cache = cache; pending = pending })).1
unfolding create
create-Coherent sha256 e random id input none cache pending c = tt
create-Coherent sha256 e random id input (some rows) none pending c = ground arith
create-Coherent sha256 e none id input (some rows) (some tc) pending c = c
create-Coherent sha256 e (some bytes) id input (some rows) (some tc) pending c =
    let raw : Text = token_mark ++ base64_raw_url bytes in
    let row = new_record sha256 e id raw input in
    elim (Result-cases (Repo.create e.column (e.fails 0) row rows)) [
      | inr (x, refused) ↦ rw (refused, create) c
      | inl (rows', done) ↦
          rw (done, create, (Repo.create-eq-ok e.column (e.fails 0) row rows rows' done).0)
            (append-Coherent rows tc c (Repo.as_row e.column row ∷ []))
    ]

revoke-IsCoherent :
    (e : Env) (id : ℕ) (repo : Option Table) (cache : Option TokenCache) (pending : List ℕ)
    → Coherent repo cache
    → IsCoherent (revoke e id (record { repo = repo; cache = cache; pending = pending })).1
unfolding revoke Repo.revoke revoke_rows
revoke-IsCoherent e id none cache pending c = tt
revoke-IsCoherent e id (some rows) none pending c = ground arith
revoke-IsCoherent e id (some rows) (some tc) pending c =
    let done = revoke-Coherent rows tc c id in ground arith

-- One operation, or one background job.
pub data Step (sha256 : Text → List ℕ) : TokenService → TokenService → Type 0 where
  verified : (e : Env) (raw : Text) (s : TokenService) → Step sha256 s (verify sha256 e raw s).1
  created :
      (e : Env) (random : Option (List ℕ)) (id : ℕ) (input : TokenCreateInput) (s : TokenService)
      → Step sha256 s (create sha256 e random id input s).1
  revoked : (e : Env) (id : ℕ) (s : TokenService) → Step sha256 s (revoke e id s).1
  touched : (e : Env) (id : ℕ) (s : TokenService) → Step sha256 s (run_pending e id s)
  ticked : (e : Env) (s : TokenService) → Step sha256 s (tick e s)

pub data Reach (sha256 : Text → List ℕ) (s : TokenService) : TokenService → Type 0 where
  here : Reach sha256 s s
  next : {t u : TokenService} → Reach sha256 s t → Step sha256 t u → Reach sha256 s u

run_pending-Coherent :
    (e : Env) (id : ℕ) (repo : Option Table) (cache : Option TokenCache) (pending : List ℕ)
    → Coherent repo cache
    → IsCoherent (run_pending e id (record { repo = repo; cache = cache; pending = pending }))
unfolding run_pending Repo.update_last_used
run_pending-Coherent e id none cache pending c = tt
run_pending-Coherent e id (some rows) none pending c = tt
run_pending-Coherent e id (some rows) (some tc) pending c =
    let done = touch-Coherent rows tc c id (e.column (e.clock 0)) in ground arith

tick-Coherent :
    (e : Env) (repo : Option Table) (cache : Option TokenCache) (pending : List ℕ)
    → Coherent repo cache
    → IsCoherent (tick e (record { repo = repo; cache = cache; pending = pending }))
unfolding tick
tick-Coherent e none cache pending c = tt
tick-Coherent e (some rows) none pending c = tt
tick-Coherent e (some rows) (some tc) pending c = cleanup-Coherent rows tc c (e.clock 0)

pub Step-IsCoherent :
    {sha256 : Text → List ℕ} {s t : TokenService} → Step sha256 s t → IsCoherent s → IsCoherent t
Step-IsCoherent {sha256} (verified e raw s) c = verify-IsCoherent sha256 e raw s c
Step-IsCoherent {sha256} (created e random id input s) c =
    create-Coherent sha256 e random id input s.repo s.cache s.pending c
Step-IsCoherent (revoked e id s) c = revoke-IsCoherent e id s.repo s.cache s.pending c
Step-IsCoherent (touched e id s) c = run_pending-Coherent e id s.repo s.cache s.pending c
Step-IsCoherent (ticked e s) c = tick-Coherent e s.repo s.cache s.pending c

-- Any sequence of whole operations and background jobs, on any failures of the database, leads from a
-- service whose cache agrees with its table to another one: the cache is within its bound, and every
-- cached token is, up to the time of the last use, the row that the table has for its hash.
pub Reach-IsCoherent :
    {sha256 : Text → List ℕ} {s t : TokenService} → IsCoherent s → Reach sha256 s t → IsCoherent t
Reach-IsCoherent c here = c
Reach-IsCoherent c (next r st) = Step-IsCoherent st (Reach-IsCoherent c r)
