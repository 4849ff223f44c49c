-- ===== src/Tokens/Service/Cached.antt =====
-- Proofs about `Verify` of internal/service/token.go against the table.
use realm_api.Common.{
  ℕ, ◌≡◌, ap, refl, Bool, true, false, leb, txt, has_prefix, Option, none, some, List, Text,
  Text-discrete, trim_space, arith, Bool-cases, Option-cases, if◌then◌else◌, inl, inr, ◌∙◌, sym,
}
use realm_api.Errors.{Result, ok, err, map, sentinel, err_invalid_token, Result-cases, is}
use realm_api.Env.{Env}
use realm_api.GoMap
use realm_api.Auth.Cache
use realm_api.Auth.Cache.{TokenCache, is_stale}
use realm_api.Tokens.{ApiToken}
use realm_api.Tokens.Repo
use realm_api.Tokens.Repo.{Table, find_hash}
use realm_api.Tokens.Secret.{hash_token}
use realm_api.Tokens.Service.{
  TokenService, check, lookup_error, remember, verify_stored, verify_hash, verify, cached,
  is_candidate,
}
use realm_api.Tokens.Service.Coherence.{forget, stored, Coherent, IsCoherent, check_ok}

-- What the table alone says of a hash, the time of the last use left out.
unfoldable pub hash_verdict : ℕ → Text → Table → Result ApiToken
hash_verdict now h rows = elim (stored h rows) [
  | none ↦ err (sentinel err_invalid_token)
  | some t ↦ check now t
]

-- The abstract specification of `Verify`.
unfoldable pub verdict : (Text → List ℕ) → ℕ → Text → Table → Result ApiToken
verdict sha256 now raw rows =
    if is_candidate (trim_space raw)
    then hash_verdict now (hash_token sha256 (trim_space raw)) rows
    else err (sentinel err_invalid_token)

pub check-forget : (now : ℕ) (t : ApiToken) → check now (forget t) ≡ map forget (check now t)
unfolding check
check-forget now t = ground arith

remember-forget :
    (e : Env) (h : Text) (t : ApiToken) (s : TokenService) → forget (remember e h t s).0 ≡ forget t
unfolding remember
remember-forget e h t s = ground arith

cached-stored :
    (e : Env) (h : Text) (rows : Table) (cache : Option TokenCache) (pending : List ℕ)
    (t : ApiToken)
    → Coherent (some rows) cache
    → cached e h (record { repo = some rows; cache = cache; pending = pending }) ≡ some t
    → stored h rows ≡ some (forget t)
unfolding Cache.get
cached-stored e h rows none pending t c f = cc
cached-stored e h rows (some tc) pending t c f =
    elim (Option-cases (GoMap.get Text-discrete h tc.items)) [
      | inl miss ↦ ground arith
      | inr (v, hit) ↦ let old = c.1 h v hit in ground arith
    ]

row-verdict :
    (e : Env) (h : Text) (rows : Table) (s : TokenService)
    → s.repo ≡ some rows
    → e.fails 0 ≡ false
    → map forget (verify_stored e h s).0 ≡ hash_verdict (e.clock 1) h rows
unfolding verify_stored hash_verdict stored Repo.get_by_hash lookup_error is
row-verdict e h rows s r up = elim (Option-cases (find_hash h rows)) [
  | inl missing ↦ ground arith
  | inr (t, found) ↦ elim (Result-cases (check (e.clock 1) t)) [
    | inr (x, refused) ↦ ground (arith, check-forget (e.clock 1) t)
    | inl (t', passed) ↦ ground (arith, check-forget (e.clock 1) t, remember-forget e h t' s)
  ]
]

-- If the answer is a token, the table has it, not revoked and not expired.
row_sound :
    (e : Env) (h : Text) (rows : Table) (s : TokenService) (t : ApiToken)
    → s.repo ≡ some rows
    → (verify_stored e h s).0 ≡ ok t
    → hash_verdict (e.clock 1) h rows ≡ ok (forget t)
unfolding verify_stored hash_verdict stored Repo.get_by_hash
row_sound e h rows s t r f = elim (Option-cases (find_hash h rows)) [
  | inl missing ↦ ground arith
  | inr (u, found) ↦ elim (Result-cases (check (e.clock 1) u)) [
    | inr (x, refused) ↦ ground arith
    | inl (u', passed) ↦ ground (
      arith,
      check-forget (e.clock 1) u,
      remember-forget e h u' s,
      check_ok (e.clock 1) u u' passed,
    )
  ]
]

module _ (e : Env) (h : Text) (s : TokenService) (rows : Table) (r : s.repo ≡ some rows)
    (c : IsCoherent s) where
  cached-row : (t : ApiToken) → cached e h s ≡ some t → stored h rows ≡ some (forget t)
  cached-row t f =
      let c' : Coherent (some rows) s.cache = rw r at c in
      cached-stored e h rows s.cache s.pending t c' f

  hash-verdict_of :
      e.fails 0 ≡ false → map forget (verify_hash e h s).0 ≡ hash_verdict (e.clock 1) h rows
  unfolding verify_hash hash_verdict
  hash-verdict_of up = elim (Option-cases (cached e h s)) [
    | inl miss ↦ rw (miss, verify_hash) (row-verdict e h rows s r up)
    | inr (t, hit) ↦
        rw (hit, verify_hash)
          (rw (cached-row t hit, hash_verdict) (sym (check-forget (e.clock 1) t)))
  ]

  hash_sound :
      (t : ApiToken)
      → (verify_hash e h s).0 ≡ ok t
      → hash_verdict (e.clock 1) h rows ≡ ok (forget t)
  unfolding verify_hash hash_verdict
  hash_sound t f = elim (Option-cases (cached e h s)) [
    | inl miss ↦ row_sound e h rows s t r (ground arith)
    | inr (u, hit) ↦
        let same : check (e.clock 1) u ≡ ok t = ground arith in
        rw (cached-row u hit, hash_verdict) (check-forget (e.clock 1) u ∙ rw same)
  ]

-- A cache that agrees with the table never shows. Provided the query of the table would not fail, `Verify` answers
-- as the table alone does at its reading of the clock (the time of the last use left out): the token
-- whose hash is that of the trimmed text, or that it is revoked, expired or invalid.
pub verify-verdict :
    (sha256 : Text → List ℕ) (e : Env) (raw : Text) (s : TokenService) (rows : Table)
    → s.repo ≡ some rows
    → IsCoherent s
    → e.fails 0 ≡ false
    → map forget (verify sha256 e raw s).0 ≡ verdict sha256 (e.clock 1) raw rows
unfolding verify verdict
verify-verdict sha256 e raw s rows r c up = elim (Bool-cases (is_candidate (trim_space raw))) [
  | inr bad ↦ ground arith
  | inl good ↦
      let f = hash-verdict_of e (hash_token sha256 (trim_space raw)) s rows r c up in ground arith
]

pub verdict_sound :
    (sha256 : Text → List ℕ) (e : Env) (raw : Text) (s : TokenService) (rows : Table) (t : ApiToken)
    → s.repo ≡ some rows
    → IsCoherent s
    → (verify sha256 e raw s).0 ≡ ok t
    → verdict sha256 (e.clock 1) raw rows ≡ ok (forget t)
unfolding verify verdict
verdict_sound sha256 e raw s rows t r c f = elim (Bool-cases (is_candidate (trim_space raw))) [
  | inr bad ↦ ground arith
  | inl good ↦
      let found = hash_sound e (hash_token sha256 (trim_space raw)) s rows r c t (ground arith) in
      ground arith
]

-- The expiry is not before this time.
abbrev pub is_unexpired : ℕ → Option ℕ → Bool
is_unexpired now none = true
is_unexpired now (some x) = leb now x

check-ok_sound :
    (now : ℕ) (t u : ApiToken)
    → check now t ≡ ok u
    → (t ≡ u) × (t.is_revoked ≡ false) × (is_unexpired now t.expires_at ≡ true)
unfolding check
check-ok_sound now t u h = elim (Option-cases t.expires_at) [
  | inl never ↦ (ground arith, ground arith, rw never refl)
  | inr (x, there) ↦ (ground arith, ground arith, rw there (ground arith))
]

stored-find_hash :
    (h : Text) (rows : Table) (t : ApiToken)
    → stored h rows ≡ some t
    → (row : ApiToken) × (find_hash h rows ≡ some row) × (forget row ≡ t)
unfolding stored
stored-find_hash h rows t f = elim (Option-cases (find_hash h rows)) [
  | inl missing ↦ absurd (ground arith)
  | inr (row, found) ↦ (row, found, ground arith)
]

hash_verdict-eq-ok :
    (now : ℕ) (h : Text) (rows : Table) (t : ApiToken)
    → hash_verdict now h rows ≡ ok t
    → (row : ApiToken) × (find_hash h rows ≡ some row)
      × (forget row ≡ t)
      × (row.is_revoked ≡ false)
      × (is_unexpired now row.expires_at ≡ true)
unfolding hash_verdict
hash_verdict-eq-ok now h rows t f = elim (Option-cases (stored h rows)) [
  | inl missing ↦ absurd (ground arith)
  | inr (u, there) ↦
      let (row, found, same) = stored-find_hash h rows u there in
      let (equal, live, early) = check-ok_sound now u t (ground arith) in
      (
        row,
        found,
        same ∙ equal,
        ap (λ (v : ApiToken). v.is_revoked) same ∙ live,
        ap (λ (v : ApiToken). is_unexpired now v.expires_at) same ∙ early,
      )
]

-- Whatever fails, and whatever the cache holds that agrees with the table: where `Verify` accepts a
-- text, the trimmed text starts with `realm_tok_`, and the table has a row with its hash that is not
-- revoked and whose expiry, if it has one, is not before the reading of the clock. The answer is this
-- row up to the time of the last use.
pub verify_sound :
    (sha256 : Text → List ℕ) (e : Env) (raw : Text) (s : TokenService) (rows : Table) (t : ApiToken)
    → s.repo ≡ some rows
    → IsCoherent s
    → (verify sha256 e raw s).0 ≡ ok t
    → (row : ApiToken) × (find_hash (hash_token sha256 (trim_space raw)) rows ≡ some row)
      × (forget row ≡ forget t)
      × (row.is_revoked ≡ false)
      × (is_unexpired (e.clock 1) row.expires_at ≡ true)
      × (has_prefix (trim_space raw) (txt "realm_tok_") ≡ true)
unfolding verify
verify_sound sha256 e raw s rows t r c f = elim (Bool-cases (is_candidate (trim_space raw))) [
  | inr bad ↦ absurd (ground arith)
  | inl good ↦
      let h = hash_token sha256 (trim_space raw) in
      let (row, found, same, live, early) =
        hash_verdict-eq-ok (e.clock 1) h rows (forget t)
          (hash_sound e h s rows r c t (ground arith)) in
      (row, found, same, live, early, ground arith)
]
