-- ===== src/Grpc/Auth.antt =====
-- internal/grpc/interceptors/auth.go: `AuthUnaryInterceptor` puts into the context of a call whom it
-- acts for. A call without credentials, or with bad ones, goes on with nothing in its context; the
-- servers ask `RequireUserID`.
use realm_api.Common.{
  ℕ, ◌≡◌, ◌⊎◌, refl, true, false, ◌&&◌, not, Option, none, some, List, [], ◌∷◌, Text, txt, eqb,
  eqb_iff, is_empty, trim_space, has_prefix, trim_prefix, ◌==◌, if◌then◌else◌, arith, Option-cases,
  Bool-cases, inl, inr,
}
use realm_api.Env.{Env}
use realm_api.Errors.{ok, err, Result-cases}
use realm_api.Auth.Limiter
use realm_api.Auth.Limiter.{Rate, TokenRateLimiter}
use realm_api.Auth.Paseto.{Paseto, UserClaims, verify_token}
use realm_api.Tokens.{ApiToken}
use realm_api.Tokens.Service
use realm_api.Tokens.Service.{TokenService, token_mark}
use realm_api.Middleware.{bearer}
use realm_api.Middleware.Token.{Uuid}

-- The values of the two keys; `none` is no metadata at all.
pub record Metadata : Type 0 where
  pub authorization : List Text
  pub x_api_token : List Text

-- the values under `user_id`, `user_email`, `username` and `api_token`
pub record Context : Type 0 where
  pub user_id : Option ℕ
  pub user_email : Option Text
  pub username : Option Text
  pub api_token : Option ApiToken

abbrev pub background : Context
background = record { user_id = none; user_email = none; username = none; api_token = none }

-- The handler runs in a context, or the call is refused as ResourceExhausted.
pub data Admission : Type 0 where
  run : Context → Admission
  exhausted : Admission

-- `GetUserID`, and `RequireUserID` without its error: the nil UUID is nobody.
unfoldable pub get_user_id : Context → Option ℕ
get_user_id c = elim c.user_id [ none ↦ none | some id ↦ if id == 0 then none else some id ]

unfoldable pub raw_token : Metadata → Text
raw_token md = elim md.authorization [
  | header ∷ _ ↦ trim_space (if has_prefix header bearer then trim_prefix header bearer else header)
  | [] ↦ elim md.x_api_token [ [] ↦ trim_space [] | token ∷ _ ↦ trim_space token ]
]

module _ (sha256 : Text → List ℕ) (r : Rate) (uuid : Uuid) where
  -- What the interceptor holds; each may be nil.
  pub record Guard : Type 0 where
    pub paseto : Option Paseto
    pub key : Text
    pub service : Option TokenService
    pub limiter : Option (TokenRateLimiter r)

  unfoldable pub with_token : Env → ApiToken → Guard → Admission × Guard
  with_token f t g =
      let there = run (record background { api_token = some t }) in
      elim g.limiter [
        | none ↦ (there, g)
        | some l ↦
            let (v, l') = Limiter.allow r f (uuid.text t.id) t.rate_limit_rpm l in
            (if v.allowed then there else exhausted, record g { limiter = some l' })
      ]

  unfoldable pub with_session : ℕ → Text → Guard → Context
  with_session now raw g = elim g.paseto [
    | none ↦ background
    | some p ↦ elim (verify_token p g.key now raw) [
      | err x ↦ background
      | ok claims ↦
          if not (is_empty claims.id) && eqb claims.purpose (txt "auth")
          then elim (uuid.parse claims.id) [
            | none ↦ background
            | some id ↦ record background {
              user_id = some id;
              user_email = some claims.email;
              username = some claims.username;
            }
          ]
          else background
    ]
  ]

  unfoldable pub auth_unary : Env → Env → Option Metadata → Guard → Admission × Guard
  auth_unary e f none g = (run background, g)
  auth_unary e f (some md) g =
      let raw : Text = raw_token md in
      if is_empty raw
      then (run background, g)
      else if has_prefix raw token_mark
      then elim g.service [
        | none ↦ (run background, g)
        | some s ↦
            let (res, s') = Service.verify sha256 e raw s in
            let g' : Guard = record g { service = some s' } in
            elim res [ err x ↦ (run background, g') | ok t ↦ with_token f t g' ]
      ]
      else (run (with_session (e.clock 0) raw g), g)

  -- The call acts for a token that the service accepts and the limiter, where there is one, lets pass.
  abbrev pub ByToken : Env → Env → Text → Guard → Context → Type 0
  ByToken e f raw g c =
      (s : TokenService) × (t : ApiToken) × (g.service ≡ some s)
      × ((Service.verify sha256 e raw s).0 ≡ ok t)
      × (c ≡ record background { api_token = some t })
      × ((g.limiter ≡ none)
          ⊎ ((l : TokenRateLimiter r) × (g.limiter ≡ some l)
              × (((Limiter.allow r f (uuid.text t.id) t.rate_limit_rpm l).0).allowed ≡ true)))

  -- The call acts for the user of a session of the purpose `auth` that has not expired.
  abbrev pub BySession : ℕ → Text → Guard → Context → Type 0
  BySession now raw g c =
      (p : Paseto) × (claims : UserClaims) × (id : ℕ) × (g.paseto ≡ some p)
      × (verify_token p g.key now raw ≡ ok claims)
      × (claims.purpose ≡ txt "auth")
      × (uuid.parse claims.id ≡ some id)
      × (c ≡ record background {
        user_id = some id;
        user_email = some claims.email;
        username = some claims.username;
      })

  with_token-eq-run :
      (e f : Env) (raw : Text) (s : TokenService) (t : ApiToken) (g g' : Guard) (c : Context)
      → g.service ≡ some s
      → (Service.verify sha256 e raw s).0 ≡ ok t
      → g'.limiter ≡ g.limiter
      → (with_token f t g').0 ≡ run c
      → ByToken e f raw g c
  unfolding with_token
  with_token-eq-run e f raw s t g g' c on good same h = elim (Option-cases g.limiter) [
    | inl off ↦ (s, t, on, good, ground arith, inl off)
    | inr (l, there) ↦ (s, t, on, good, ground arith, inr (l, there, ground arith))
  ]

  with_session-cases :
      (now : ℕ) (raw : Text) (g : Guard)
      → (with_session now raw g ≡ background) ⊎ BySession now raw g (with_session now raw g)
  unfolding with_session
  with_session-cases now raw g = elim (Option-cases g.paseto) [
    | inl off ↦ inl (ground arith)
    | inr (p, on) ↦ elim (Result-cases (verify_token p g.key now raw)) [
      | inr (x, bad) ↦ inl (ground arith)
      | inl (claims, good) ↦
          let auth = eqb_iff claims.purpose (txt "auth") in
          elim (Bool-cases (not (is_empty claims.id) && eqb claims.purpose (txt "auth"))) [
            | inr other ↦ inl (ground arith)
            | inl session ↦ elim (Option-cases (uuid.parse claims.id)) [
              | inl unknown ↦ inl (ground arith)
              | inr (id, known) ↦
                  inr (p, claims, id, on, good, auth.0 (ground arith), known, ground arith)
            ]
          ]
    ]
  ]

  -- The context in which a handler runs is empty, or the call's credentials start with `realm_tok_`
  -- and it names a token that the service accepts and the limiter lets pass, or they do not and it
  -- names the user of a session of the purpose `auth`: a challenge of the two-factor login gives
  -- nothing.
  pub auth_unary_sound :
      (e f : Env) (md : Metadata) (g : Guard) (c : Context)
      → (auth_unary e f (some md) g).0 ≡ run c
      → (c ≡ background)
        ⊎ ((has_prefix (raw_token md) token_mark ≡ true) × ByToken e f (raw_token md) g c)
        ⊎ ((has_prefix (raw_token md) token_mark ≡ false)
            × BySession (e.clock 0) (raw_token md) g c)
  unfolding auth_unary
  auth_unary_sound e f md g c h = elim (Bool-cases (is_empty (raw_token md))) [
    | inl bare ↦ inl (ground arith)
    | inr given ↦ elim (Bool-cases (has_prefix (raw_token md) token_mark)) [
      | inl api ↦ elim (Option-cases g.service) [
        | inl off ↦ inl (ground arith)
        | inr (s, on) ↦ elim (Result-cases (Service.verify sha256 e (raw_token md) s).0) [
          | inr (x, bad) ↦ inl (ground arith)
          | inl (t, good) ↦
              let g' : Guard = record g {
                service = some (Service.verify sha256 e (raw_token md) s).1;
              } in
              inr (
                inl (
                  api,
                  with_token-eq-run e f (raw_token md) s t g g' c on good refl (ground arith),
                ))
        ]
      ]
      | inr session ↦
          let same : with_session (e.clock 0) (raw_token md) g ≡ c = ground arith in
          elim (with_session-cases (e.clock 0) (raw_token md) g) [
            | inl empty ↦ inl (ground arith)
            | inr by ↦ inr (inr (session, rw same at by))
          ]
    ]
  ]
