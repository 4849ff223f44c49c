-- ===== src/Tokens/Service/Revocation.antt =====
-- Proofs about `Revoke` of internal/service/token.go.
use realm_api.Common.{
  ℕ, ◌≡◌, ◌≢◌, refl, Bool, true, false, ◌||◌, not, Option, none, some, List, [], ◌∷◌, ◌++◌, Text,
  trim_space, arith, Option-cases, inl, inr, any, any-append, all-append, all,
}
use realm_api.Errors.{ok, Result-cases}
use realm_api.Env.{Env}
use realm_api.Tokens.{ApiToken}
use realm_api.Tokens.Repo
use realm_api.Tokens.Repo.{Table, has_id, find_hash, revoke_rows, touch_rows}
use realm_api.Tokens.Secret.{hash_token, base64_raw_url}
use realm_api.Tokens.Service.{
  TokenService, TokenCreateInput, check, remember, verify_stored, verify_hash, verify, create,
  new_record, token_mark, revoke, run_pending, tick,
}
use realm_api.Tokens.Service.Coherence.{
  forget, stored, IsCoherent, Step, Reach, verified, created, revoked, touched, ticked, here, next,
  Reach-IsCoherent, Step-IsCoherent,
}
use realm_api.Tokens.Service.Cached.{hash_verdict, verdict, verdict_sound}

abbrev pub revoked_row : ℕ → ApiToken → Bool
revoked_row id t = not (has_id id t) || t.is_revoked

-- The identifier is in the table, and every row with it is revoked.
abbrev pub HasRevoked : ℕ → Option Table → Type 0
HasRevoked id none = ⊥
HasRevoked id (some rows) = (any (has_id id) rows ≡ true) × (all (revoked_row id) rows ≡ true)

revoke_rows-any :
    (id j : ℕ) (rows : Table) → any (has_id id) (revoke_rows j rows) ≡ any (has_id id) rows
unfolding revoke_rows
revoke_rows-any id j [] = refl
revoke_rows-any id j (t ∷ rows) = ground (arith, revoke_rows-any id j rows)

revoke_rows-all : (id : ℕ) (rows : Table) → all (revoked_row id) (revoke_rows id rows) ≡ true
unfolding revoke_rows
revoke_rows-all id [] = refl
revoke_rows-all id (t ∷ rows) = ground (arith, revoke_rows-all id rows)

revoke_rows-all_other :
    (id j : ℕ) (rows : Table)
    → all (revoked_row id) rows ≡ true
    → all (revoked_row id) (revoke_rows j rows) ≡ true
unfolding revoke_rows
revoke_rows-all_other id j [] h = refl
revoke_rows-all_other id j (t ∷ rows) h = ground (arith, revoke_rows-all_other id j rows)

touch_rows-HasRevoked :
    (id j now : ℕ) (rows : Table)
    → (any (has_id id) (touch_rows j now rows) ≡ any (has_id id) rows)
      × (all (revoked_row id) (touch_rows j now rows) ≡ all (revoked_row id) rows)
unfolding touch_rows
touch_rows-HasRevoked id j now [] = (refl, refl)
touch_rows-HasRevoked id j now (t ∷ rows) = ground (arith, touch_rows-HasRevoked id j now rows)

append-HasRevoked :
    (id : ℕ) (rows : Table) (t : ApiToken)
    → HasRevoked id (some rows)
    → any (has_id t.id) rows ≡ false
    → HasRevoked id (some (rows ++ t ∷ []))
append-HasRevoked id rows t (h, k) new =
    let ne : t.id ≢ id = λ same. cc (rw same at new) in
    ground (arith, any-append (has_id id) rows (t ∷ []), all-append (revoked_row id) rows (t ∷ []))

stored-unrevoked :
    (id : ℕ) (h : Text) (rows : Table) (t : ApiToken)
    → all (revoked_row id) rows ≡ true
    → stored h rows ≡ some t
    → t.id ≡ id
    → t.is_revoked ≡ true
unfolding stored find_hash
stored-unrevoked id h [] t k e same = cc
stored-unrevoked id h (u ∷ rows) t k e same = ground (arith, stored-unrevoked id h rows t)

-- The table refuses the tokens of a revoked identifier.
pub verdict-revoked :
    (sha256 : Text → List ℕ) (now id : ℕ) (raw : Text) (rows : Table) (t : ApiToken)
    → HasRevoked id (some rows)
    → verdict sha256 now raw rows ≡ ok t
    → t.id ≢ id
unfolding verdict hash_verdict check
verdict-revoked sha256 now id raw rows t k e = λ same.
    elim (Option-cases (stored (hash_token sha256 (trim_space raw)) rows)) [
      | inl missing ↦ ground arith
      | inr (u, found) ↦
          ground (arith, stored-unrevoked id (hash_token sha256 (trim_space raw)) rows u k.1 found)
    ]

remember-repo :
    (e : Env) (h : Text) (t : ApiToken) (s : TokenService) → (remember e h t s).1.repo ≡ s.repo
unfolding remember
remember-repo e h t s = ground arith

verify_stored-repo : (e : Env) (h : Text) (s : TokenService) → (verify_stored e h s).1.repo ≡ s.repo
unfolding verify_stored
verify_stored-repo e h s = grind (arith, remember-repo e h)

verify-repo :
    (sha256 : Text → List ℕ) (e : Env) (raw : Text) (s : TokenService)
    → (verify sha256 e raw s).1.repo ≡ s.repo
unfolding verify verify_hash
verify-repo sha256 e raw s =
    ground (arith, verify_stored-repo e (hash_token sha256 (trim_space raw)) s)

create-HasRevoked :
    (sha256 : Text → List ℕ) (e : Env) (random : Option (List ℕ)) (id j : ℕ)
    (input : TokenCreateInput) (rows : Table) (s : TokenService)
    → s.repo ≡ some rows
    → HasRevoked id (some rows)
    → HasRevoked id (create sha256 e random j input s).1.repo
unfolding create Repo.as_row
create-HasRevoked sha256 e none id j input rows s r h = ground arith
create-HasRevoked sha256 e (some bytes) id j input rows s r h =
    let raw : Text = token_mark ++ base64_raw_url bytes in
    let row = new_record sha256 e j raw input in
    elim (Result-cases (Repo.create e.column (e.fails 0) row rows)) [
      | inr (x, refused) ↦ ground arith
      | inl (rows', done) ↦
          let (added, fresh_hash, fresh_id) =
            Repo.create-eq-ok e.column (e.fails 0) row rows rows' done in
          let kept = append-HasRevoked id rows (Repo.as_row e.column row) h fresh_id in ground arith
    ]

revoke-HasRevoked :
    (e : Env) (id j : ℕ) (rows : Table) (s : TokenService)
    → s.repo ≡ some rows
    → HasRevoked id (some rows)
    → HasRevoked id (revoke e j s).1.repo
unfolding revoke
revoke-HasRevoked e id j rows s r h = elim (Result-cases (Repo.revoke (e.fails 0) j rows)) [
  | inr (x, refused) ↦ ground arith
  | inl (rows', done) ↦
      let changed = (Repo.revoke-eq-ok (e.fails 0) j rows rows' done).0 in
      ground (arith, revoke_rows-any id j rows, revoke_rows-all_other id j rows)
]

run_pending-HasRevoked :
    (e : Env) (id j : ℕ) (rows : Table) (s : TokenService)
    → s.repo ≡ some rows
    → HasRevoked id (some rows)
    → HasRevoked id (run_pending e j s).repo
unfolding run_pending Repo.update_last_used
run_pending-HasRevoked e id j rows s r h =
    ground (arith, touch_rows-HasRevoked id j (e.column (e.clock 0)) rows)

-- A revoked identifier stays revoked, whatever happens to the service.
Step-HasRevoked :
    {sha256 : Text → List ℕ} (id : ℕ) {s t : TokenService}
    → Step sha256 s t
    → (rows : Table) → s.repo ≡ some rows
    → HasRevoked id (some rows)
    → HasRevoked id t.repo
unfolding tick
Step-HasRevoked {sha256} id (verified e raw s) rows r h = rw (verify-repo sha256 e raw s, r) h
Step-HasRevoked {sha256} id (created e random j input s) rows r h =
    create-HasRevoked sha256 e random id j input rows s r h
Step-HasRevoked id (revoked e j s) rows r h = revoke-HasRevoked e id j rows s r h
Step-HasRevoked id (touched e j s) rows r h = run_pending-HasRevoked e id j rows s r h
Step-HasRevoked id (ticked e s) rows r h = rw r h

repo_of_HasRevoked :
    (id : ℕ) (repo : Option Table)
    → HasRevoked id repo
    → (rows : Table) × (repo ≡ some rows) × HasRevoked id (some rows)
repo_of_HasRevoked id none h = absurd h
repo_of_HasRevoked id (some rows) h = (rows, refl, h)

Reach-HasRevoked :
    {sha256 : Text → List ℕ} (id : ℕ) {s t : TokenService}
    → HasRevoked id s.repo
    → Reach sha256 s t
    → HasRevoked id t.repo
Reach-HasRevoked id h here = h
Reach-HasRevoked id h (next {t} r st) =
    let (rows, e, k) = repo_of_HasRevoked id t.repo (Reach-HasRevoked id h r) in
    Step-HasRevoked id st rows e k

revoke_starts :
    (e : Env) (id : ℕ) (s : TokenService)
    → (revoke e id s).0 ≡ ok tt
    → HasRevoked id (revoke e id s).1.repo
unfolding revoke
revoke_starts e id s h = elim (Option-cases s.repo) [
  | inl off ↦ ground arith
  | inr (rows, on) ↦ elim (Result-cases (Repo.revoke (e.fails 0) id rows)) [
    | inr (x, refused) ↦ ground arith
    | inl (rows', done) ↦
        let (changed, there) = Repo.revoke-eq-ok (e.fails 0) id rows rows' done in
        ground (arith, revoke_rows-any id id rows, revoke_rows-all id rows)
  ]
]

-- Once `Revoke` has succeeded on a service whose cache agrees with its table, no sequence of whole
-- operations and background jobs, with any failures of the database in between, leads to a state in
-- which `Verify` accepts a token with that identifier.
pub verify-revoke :
    (sha256 : Text → List ℕ) (e f : Env) (id : ℕ) (raw : Text) (s u : TokenService) (t : ApiToken)
    → IsCoherent s
    → (revoke e id s).0 ≡ ok tt
    → Reach sha256 (revoke e id s).1 u
    → (verify sha256 f raw u).0 ≡ ok t
    → t.id ≢ id
verify-revoke sha256 e f id raw s u t c done r accepted =
    let c' : IsCoherent (revoke e id s).1 = Step-IsCoherent {sha256 = sha256} (revoked e id s) c in
    let (rows, on, gone) =
      repo_of_HasRevoked id u.repo (Reach-HasRevoked id (revoke_starts e id s done) r) in
    verdict-revoked sha256 (f.clock 1) id raw rows (forget t) gone
      (verdict_sound sha256 f raw u rows t on (Reach-IsCoherent c' r) accepted)
