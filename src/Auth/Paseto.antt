-- ===== src/Auth/Paseto.antt =====
-- internal/auth/paseto.go: session tokens and two-factor challenges. The library github.com/o1egl/paseto
-- is a parameter: `encrypt` and `decrypt` under the symmetric key.
pub mod Laws
use realm_api.Common.{
  ℕ, ◌+◌, ◌≡◌, Bool, Option, none, some, List, [], Text, txt, ltb, if◌then◌else◌,
}
use realm_api.Errors.{
  Err, sentinel, wrap, driver, Result, ok, err, paseto_invalid_token, paseto_expired_token,
}

-- `UserClaims` of internal/model/user.go.
pub record UserClaims : Type 0 where
  pub issued_at : ℕ
  pub expires_at : ℕ
  pub id : Text
  pub email : Text
  pub username : Text
  pub full_name : Text
  pub avatar_url : Text
  pub provider : Text
  pub purpose : Text
  pub issuer : Text
  pub subject : Text
  pub audience : Text

-- `paseto.V2`: a nonce is drawn for each token; `none` is an error.
pub record Paseto : Type 0 where
  pub encrypt : Text → ℕ → UserClaims → Option Text
  pub decrypt : Text → Text → Option UserClaims

-- What is sealed under a key is read back under it.
abbrev pub IsSealed : Paseto → Type 0
IsSealed p =
    (key : Text) (nonce : ℕ) (claims : UserClaims) (token : Text)
    → p.encrypt key nonce claims ≡ some token
    → p.decrypt token key ≡ some claims

-- What the two generators read of a user.
pub record Subject : Type 0 where
  pub id : Text
  pub email : Text
  pub username : Text
  pub full_name : Text
  pub avatar_url : Option Text
  pub provider : Text

abbrev or_empty : Option Text → Text
or_empty none = []
or_empty (some a) = a

-- The claims of `GenerateToken` and `Generate2FATempToken` differ in the purpose.
unfoldable pub claims_for : Text → ℕ → ℕ → Subject → UserClaims
claims_for purpose now duration u = record {
  issued_at = now;
  expires_at = now + duration;
  id = u.id;
  email = u.email;
  username = u.username;
  full_name = u.full_name;
  avatar_url = or_empty u.avatar_url;
  provider = u.provider;
  purpose = purpose;
  issuer = txt "realm-api";
  subject = u.id;
  audience = txt "realm-frontend";
}

module _ (p : Paseto) (key : Text) where
  unfoldable pub generate_token : ℕ → ℕ → ℕ → Subject → Result Text
  generate_token nonce now duration u =
      elim (p.encrypt key nonce (claims_for (txt "auth") now duration u)) [
        | none ↦ err (wrap "failed to encrypt paseto token" driver)
        | some token ↦ ok token
      ]

  unfoldable pub generate_2fa_temp_token : ℕ → ℕ → ℕ → Subject → Result Text
  generate_2fa_temp_token nonce now duration u =
      elim (p.encrypt key nonce (claims_for (txt "2fa_challenge") now duration u)) [
        | none ↦ err (wrap "failed to encrypt 2fa paseto token" driver)
        | some token ↦ ok token
      ]

  unfoldable pub verify_token : ℕ → Text → Result UserClaims
  verify_token now token = elim (p.decrypt token key) [
    | none ↦ err (sentinel paseto_invalid_token)
    | some claims ↦
        if ltb claims.expires_at now then err (sentinel paseto_expired_token) else ok claims
  ]
