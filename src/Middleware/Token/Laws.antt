-- ===== src/Middleware/Token/Laws.antt =====
-- internal/middleware/token.go: what a request that reaches the handler has shown.
use realm_api.Common.{
  ℕ, true, false, ◌||◌, none, some, List, [], ◌∷◌, Text, txt, all, eqb_iff, has_prefix, ◌≡◌, refl,
  ◌⊎◌, inl, inr, arith, Option-cases, Bool-cases,
}
use realm_api.Errors.{ok, Result-cases}
use realm_api.Env.{Env}
use realm_api.Auth.Limiter
use realm_api.Auth.Limiter.{Rate}
use realm_api.Auth.Paseto.{Paseto, UserClaims, verify_token}
use realm_api.Tokens.{ApiToken}
use realm_api.Tokens.Scopes.{has_scope}
use realm_api.Tokens.Service
use realm_api.Tokens.Service.{TokenService, token_mark}
use realm_api.Middleware.{Request, AdminUser, Locals, no_locals, proceed, extract_raw_token}
use realm_api.Middleware.Token.{
  Uuid, Gate, check_scopes, meter, admit_token, require_token, has_permission, find_admin,
  session_locals, admit_admin, admit_claims, admit_session, either_token,
  require_token_or_user_auth, no_session,
}

check_scopes-eq-proceed :
    (t : ApiToken) (scopes : List Text) (l : Locals)
    → check_scopes t scopes ≡ proceed l
    → (all (has_scope t.scopes) scopes ≡ true) × (l ≡ record no_locals { token = some t })
unfolding check_scopes
check_scopes-eq-proceed t scopes l h = ground arith

module _ (sha256 : Text → List ℕ) (r : Rate) (uuid : Uuid) where
  -- The limiter, where there is one, let the token pass.
  abbrev pub Passed : Env → ApiToken → Gate sha256 r uuid → Type 0
  Passed f t g =
      (g.limiter ≡ none)
      ⊎ ((m : Limiter.TokenRateLimiter r) × (g.limiter ≡ some m)
          × (((Limiter.allow r f (uuid.text t.id) t.rate_limit_rpm m).0).allowed ≡ true))

  -- The service accepted the text `raw` as the token `t`, which has the scopes and quota left.
  abbrev pub Admitted : Env → Env → Text → List Text → Gate sha256 r uuid → Locals → Type 0
  Admitted e f raw scopes g l =
      (s : TokenService) × (t : ApiToken) × (g.service ≡ some s)
      × ((Service.verify sha256 e raw s).0 ≡ ok t)
      × (all (has_scope t.scopes) scopes ≡ true)
      × Passed f t g
      × (l ≡ record no_locals { token = some t })

  -- The text `raw` is a session of purpose `auth`; where scopes are asked for, its user is an
  -- administrator who is a superadmin or has a permission for one of them.
  abbrev pub InSession : Env → Text → List Text → Gate sha256 r uuid → Locals → Type 0
  InSession e raw scopes g l =
      (p : Paseto) × (claims : UserClaims) × (id : ℕ) × (g.paseto ≡ some p)
      × (verify_token p g.key (e.clock 0) raw ≡ ok claims)
      × (claims.purpose ≡ txt "auth")
      × (uuid.parse claims.id ≡ some id)
      × (((scopes ≡ []) × (l ≡ session_locals claims id none))
          ⊎ ((admins : List AdminUser) × (a : AdminUser) × (g.admins ≡ some admins)
              × (find_admin id admins ≡ some a)
              × (a.is_superadmin || has_permission a.permissions scopes ≡ true)
              × (l ≡ session_locals claims id (some a))))

  module _ (e f : Env) (raw : Text) (scopes : List Text) (g : Gate sha256 r uuid) (l : Locals) where
    meter-eq-proceed :
        (t : ApiToken) (g' : Gate sha256 r uuid)
        → (meter sha256 r uuid f t scopes g').outcome ≡ proceed l
        → (all (has_scope t.scopes) scopes ≡ true)
          × Passed f t g'
          × (l ≡ record no_locals { token = some t })
    unfolding meter
    meter-eq-proceed t g' h = elim (Option-cases g'.limiter) [
      | inl off ↦
          let (has, same) = check_scopes-eq-proceed t scopes l (ground arith) in
          (has, inl off, same)
      | inr (m, on) ↦
          let (has, same) = check_scopes-eq-proceed t scopes l (ground arith) in
          (has, inr (m, on, ground arith), same)
    ]

    admit_token-eq-proceed :
        (admit_token sha256 r uuid e f raw scopes g).outcome ≡ proceed l
        → Admitted e f raw scopes g l
    unfolding admit_token
    admit_token-eq-proceed h = elim (Option-cases g.service) [
      | inl off ↦ ground arith
      | inr (s, on) ↦ elim (Result-cases (Service.verify sha256 e raw s).0) [
        | inr (x, bad) ↦ ground arith
        | inl (t, good) ↦
            let (has, passed, same) =
              meter-eq-proceed t (record g { service = some (Service.verify sha256 e raw s).1 })
                (ground arith) in
            (s, t, on, good, has, passed, same)
      ]
    ]

    admit_admin-eq-proceed :
        (claims : UserClaims) (id : ℕ)
        → admit_admin sha256 r uuid e claims id scopes g ≡ proceed l
        → (admins : List AdminUser) × (a : AdminUser) × (g.admins ≡ some admins)
          × (find_admin id admins ≡ some a)
          × (a.is_superadmin || has_permission a.permissions scopes ≡ true)
          × (l ≡ session_locals claims id (some a))
    unfolding admit_admin
    admit_admin-eq-proceed claims id h = elim (Option-cases g.admins) [
      | inl off ↦ ground arith
      | inr (admins, on) ↦ elim (Option-cases (find_admin id admins)) [
        | inl unknown ↦ ground arith
        | inr (a, known) ↦ (admins, a, on, known, ground arith, ground arith)
      ]
    ]

  -- `scopes` is matched on, so it comes last.
  admit_claims-eq-proceed :
      (e : Env) (raw : Text) (g : Gate sha256 r uuid) (l : Locals) (p : Paseto)
      (claims : UserClaims)
      → g.paseto ≡ some p
      → verify_token p g.key (e.clock 0) raw ≡ ok claims
      → (scopes : List Text) → admit_claims sha256 r uuid e claims scopes g ≡ proceed l
      → InSession e raw scopes g l
  unfolding admit_claims no_session
  admit_claims-eq-proceed e raw g l p claims on good [] h =
      let auth = eqb_iff claims.purpose (txt "auth") in
      elim (Option-cases (uuid.parse claims.id)) [
        | inl unknown ↦ ground arith
        | inr (id, known) ↦ (p, claims, id, on, good, ground arith, known, inl (refl, ground arith))
      ]
  admit_claims-eq-proceed e raw g l p claims on good (s ∷ ss) h =
      let auth = eqb_iff claims.purpose (txt "auth") in
      elim (Option-cases (uuid.parse claims.id)) [
        | inl unknown ↦ ground arith
        | inr (id, known) ↦ (
          p,
          claims,
          id,
          on,
          good,
          ground arith,
          known,
          inr (admit_admin-eq-proceed e e raw (s ∷ ss) g l claims id (ground arith)),
        )
      ]

  admit_session-eq-proceed :
      (e : Env) (raw : Text) (scopes : List Text) (g : Gate sha256 r uuid) (l : Locals)
      → admit_session sha256 r uuid e raw scopes g ≡ proceed l
      → InSession e raw scopes g l
  unfolding admit_session no_session
  admit_session-eq-proceed e raw scopes g l h = elim (Option-cases g.paseto) [
    | inl off ↦ ground arith
    | inr (p, on) ↦ elim (Result-cases (verify_token p g.key (e.clock 0) raw)) [
      | inr (x, bad) ↦ ground arith
      | inl (claims, good) ↦
          admit_claims-eq-proceed e raw g l p claims on good scopes (ground arith)
    ]
  ]

  module _ (e f : Env) (scopes : List Text) (c : Request) (g : Gate sha256 r uuid)
      (l : Locals) where
    -- A request reaches a handler behind `RequireToken` only if the service accepts the token that
    -- the request carries, the token has every scope that the route asks for, and the limiter, where
    -- there is one, lets it pass; the handler is given that token and nothing else.
    pub require_token_sound :
        (require_token sha256 r uuid e f scopes c g).outcome ≡ proceed l
        → Admitted e f (extract_raw_token c) scopes g l
    unfolding require_token
    require_token_sound h =
        admit_token-eq-proceed e f (extract_raw_token c) scopes g l (ground arith)

    -- A request reaches a handler behind `RequireTokenOrUserAuth` only in two ways. Its text starts
    -- with `realm_tok_` and is admitted as by `RequireToken`; or the text is an unexpired session of
    -- the purpose `auth` with an identifier that parses, and if the route asks for scopes, its user
    -- is in the table of administrators, a superadmin or with a permission for one of the scopes.
    pub require_token_or_user_auth_sound :
        (require_token_or_user_auth sha256 r uuid e f scopes c g).outcome ≡ proceed l
        → ((has_prefix (either_token c) token_mark ≡ true)
            × Admitted e f (either_token c) scopes g l)
          ⊎ ((has_prefix (either_token c) token_mark ≡ false)
              × InSession e (either_token c) scopes g l)
    unfolding require_token_or_user_auth
    require_token_or_user_auth_sound h =
        elim (Bool-cases (has_prefix (either_token c) token_mark)) [
          | inl api ↦
              inl (api, admit_token-eq-proceed e f (either_token c) scopes g l (ground arith))
          | inr session ↦
              inr (session, admit_session-eq-proceed e (either_token c) scopes g l (ground arith))
        ]
