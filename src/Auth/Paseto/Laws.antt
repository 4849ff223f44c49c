-- ===== src/Auth/Paseto/Laws.antt =====
-- internal/auth/paseto.go: what is generated is verified, with its purpose, until it expires.
use realm_api.Common.{ℕ, ◌+◌, ◌≡◌, Text, txt, ltb, arith, if◌then◌else◌}
use realm_api.Errors.{ok, err, sentinel, paseto_expired_token}
use realm_api.Auth.Paseto.{
  Paseto, IsSealed, Subject, claims_for, generate_token, generate_2fa_temp_token, verify_token,
}

module _ (p : Paseto) (key : Text) (sealed : IsSealed p) (nonce now duration t : ℕ) (u : Subject)
    (token : Text) where
  -- Provided the library reads back what it sealed, a session token gives back the user's claims with the purpose `auth` until `duration` has
  -- passed, and the expiry error from then on.
  pub verify_token-generate_token :
      generate_token p key nonce now duration u ≡ ok token
      → verify_token p key t token ≡ (
          if ltb (now + duration) t
          then err (sentinel paseto_expired_token)
          else ok (claims_for (txt "auth") now duration u))
  unfolding generate_token verify_token claims_for
  verify_token-generate_token h =
      ground (arith, sealed key nonce (claims_for (txt "auth") now duration u) token)

  -- Provided the library reads back what it sealed, a challenge gives back the claims with the purpose
  -- `2fa_challenge` until `duration` has passed, and the expiry error from then on.
  pub verify_token-generate_2fa_temp_token :
      generate_2fa_temp_token p key nonce now duration u ≡ ok token
      → verify_token p key t token ≡ (
          if ltb (now + duration) t
          then err (sentinel paseto_expired_token)
          else ok (claims_for (txt "2fa_challenge") now duration u))
  unfolding generate_2fa_temp_token verify_token claims_for
  verify_token-generate_2fa_temp_token h =
      ground (arith, sealed key nonce (claims_for (txt "2fa_challenge") now duration u) token)
