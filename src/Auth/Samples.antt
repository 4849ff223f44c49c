-- ===== src/Auth/Samples.antt =====
-- Concrete libraries for runs: a bucket that is never refilled, and a readable form of session claims.
use realm_api.Common.{
  ℕ, zero, suc, ◌-◌, ◌≡◌, refl, Option, none, some, List, [], ◌∷◌, ◌++◌, Text, length, take, drop,
  drop-append, ltb, arith, ap,
}
use realm_api.Auth.Limiter.{Rate}
use realm_api.Auth.Paseto.{UserClaims, Paseto, IsSealed}

abbrev pub rate : Rate
rate = record {
  Limiter = ℕ;
  new_limiter = λ rpm. rpm;
  tokens = λ now l. l;
  allow = λ now l. (ltb 0 l, l - 1);
}

-- each text behind its length
abbrev pub encode : List Text → Text
encode [] = []
encode (t ∷ ts) = length t ∷ (t ++ encode ts)

abbrev pub decode : ℕ → Text → List Text
decode zero s = []
decode (suc n) [] = []
decode (suc n) (k ∷ s) = take k s ∷ decode n (drop k s)

pub take-append : (s t : Text) → take (length s) (s ++ t) ≡ s
take-append [] t = refl
take-append (c ∷ s) t = ap (λ r. c ∷ r) (take-append s t)

pub decode-encode : (ts : List Text) → decode (length ts) (encode ts) ≡ ts
decode-encode [] = refl
decode-encode (t ∷ ts) = rw (take-append t (encode ts), drop-append t (encode ts), decode-encode ts)

abbrev pub fields : UserClaims → List Text
fields c =
    (c.issued_at ∷ [])
    ∷ (c.expires_at ∷ [])
    ∷ c.id
    ∷ c.email
    ∷ c.username
    ∷ c.full_name
    ∷ c.avatar_url
    ∷ c.provider
    ∷ c.purpose
    ∷ c.issuer
    ∷ c.subject
    ∷ c.audience
    ∷ []

abbrev from_fields : List Text → Option UserClaims
from_fields ((i ∷ []) ∷ (e ∷ []) ∷ a ∷ b ∷ c ∷ d ∷ f ∷ g ∷ h ∷ k ∷ l ∷ m ∷ []) = some (record {
  issued_at = i;
  expires_at = e;
  id = a;
  email = b;
  username = c;
  full_name = d;
  avatar_url = f;
  provider = g;
  purpose = h;
  issuer = k;
  subject = l;
  audience = m;
})
from_fields _ = none

abbrev pub paseto : Paseto
paseto = record {
  encrypt = λ key nonce claims. some (encode (fields claims));
  decrypt = λ token key. from_fields (decode 12 token);
}

pub paseto-IsSealed : IsSealed paseto
paseto-IsSealed key nonce claims token h =
    let same : encode (fields claims) ≡ token = ground arith in
    rw (← same, decode-encode (fields claims))
