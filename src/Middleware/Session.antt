-- ===== src/Middleware/Session.antt =====
-- internal/middleware/user_auth.go: sessions of users.
use realm_api.Common.{
  ℕ, Option, none, some, Text, txt, eqb, is_empty, if◌then◌else◌, ◌≡◌, ◌≢◌, arith, eqb_iff,
  Option-cases, inl, inr, refl,
}
use realm_api.Errors.{ok, err, Result-cases}
use realm_api.Auth.Paseto.{Paseto, UserClaims, verify_token}
use realm_api.Middleware.{
  Request, Locals, no_locals, Outcome, reject, proceed, extract_user_raw_token,
}
use realm_api.Middleware.Token.{Uuid, session_locals}

module _ (uuid : Uuid) where
  unfoldable pub admit_user : UserClaims → Outcome
  admit_user claims =
      if eqb claims.purpose (txt "2fa_challenge")
      then reject 401 "Unauthorized: two-factor authentication verification required"
      else elim (uuid.parse claims.id) [
        | none ↦ reject 401 "Unauthorized: invalid user identifier in token"
        | some id ↦ proceed (session_locals claims id none)
      ]

  unfoldable pub require_user_auth : ℕ → Option Paseto → Text → Request → Outcome
  unfolding admit_user
  require_user_auth now paseto key c =
      if is_empty (extract_user_raw_token c)
      then reject 401 "Unauthorized: missing authentication token"
      else elim paseto [
        | none ↦ reject 503 "Authentication service unavailable"
        | some p ↦ elim (verify_token p key now (extract_user_raw_token c)) [
          | err x ↦ reject 401 "Unauthorized: invalid or expired session"
          | ok claims ↦ admit_user claims
        ]
      ]

  -- what `OptionalUserAuth` hands on
  unfoldable pub user_locals : UserClaims → Locals
  user_locals claims =
      if eqb claims.purpose (txt "2fa_challenge") then no_locals else elim (uuid.parse claims.id) [
        | none ↦ no_locals
        | some id ↦ session_locals claims id none
      ]

  unfoldable pub optional_user_auth : ℕ → Option Paseto → Text → Request → Outcome
  unfolding user_locals
  optional_user_auth now paseto key c =
      if is_empty (extract_user_raw_token c) then proceed no_locals else elim paseto [
        | none ↦ proceed no_locals
        | some p ↦ elim (verify_token p key now (extract_user_raw_token c)) [
          | err x ↦ proceed no_locals
          | ok claims ↦ proceed (user_locals claims)
        ]
      ]

  -- A request that passes carries a verified, unexpired token of some other purpose than a
  -- challenge, and the handler is given its claims and the identifier that they name.
  pub require_user_auth_sound :
      (now : ℕ) (paseto : Option Paseto) (key : Text) (c : Request) (l : Locals)
      → require_user_auth now paseto key c ≡ proceed l
      → (p : Paseto) × (claims : UserClaims) × (id : ℕ) × (paseto ≡ some p)
        × (verify_token p key now (extract_user_raw_token c) ≡ ok claims)
        × (claims.purpose ≢ txt "2fa_challenge")
        × (uuid.parse claims.id ≡ some id)
        × (l ≡ session_locals claims id none)
  unfolding require_user_auth
  require_user_auth_sound now none key c l h = absurd (ground arith)
  require_user_auth_sound now (some p) key c l h =
      elim (Result-cases (verify_token p key now (extract_user_raw_token c))) [
        | inr (x, bad) ↦ absurd (ground arith)
        | inl (claims, good) ↦ elim (Option-cases (uuid.parse claims.id)) [
          | inl unknown ↦ absurd (ground arith)
          | inr (id, known) ↦ (
            p,
            claims,
            id,
            refl,
            good,
            ground (arith, eqb_iff claims.purpose (txt "2fa_challenge")),
            known,
            ground arith,
          )
        ]
      ]
