-- ===== src/Tokens/Secret.antt =====
-- Raw tokens and their hashes: `HashToken` of internal/service/token.go, and the encodings of
-- encoding/hex and encoding/base64 (RawURLEncoding) that it calls. SHA-256 is a parameter.
use realm_api.Common.{
  ℕ, ◌+◌, ◌-◌, ◌*◌, ◌/◌, ◌%◌, ◌≡◌, refl, false, List, [], ◌∷◌, Text, ltb, ◌==◌, if◌then◌else◌,
  is_space, IsSolid, arith,
}

hex_digit : ℕ → ℕ
hex_digit n = if ltb n 10 then n + b'0' else n - 10 + b'a'

-- `hex.Encode`
unfoldable pub hex_encode : List ℕ → Text
unfolding hex_digit
hex_encode [] = []
hex_encode (b ∷ bs) = hex_digit (b / 16) ∷ hex_digit (b % 16) ∷ hex_encode bs

unfoldable pub hash_token : (Text → List ℕ) → Text → Text
hash_token sha256 raw_token = hex_encode (sha256 raw_token)

unfoldable pub symbol : ℕ → ℕ
symbol n =
    if ltb n 26
    then n + b'A'
    else if ltb n 52
    then n - 26 + b'a'
    else if ltb n 62
    then n - 52 + b'0'
    else if n == 62
    then b'-'
    else b'_'

-- `base64.RawURLEncoding.EncodeToString`
unfoldable pub base64_raw_url : List ℕ → Text
base64_raw_url [] = []
base64_raw_url (a ∷ []) = symbol (a / 4) ∷ symbol (a % 4 * 16) ∷ []
base64_raw_url (a ∷ b ∷ []) =
    symbol (a / 4) ∷ symbol (a % 4 * 16 + b / 16) ∷ symbol (b % 16 * 4) ∷ []
base64_raw_url (a ∷ b ∷ c ∷ r) =
    symbol (a / 4)
    ∷ symbol (a % 4 * 16 + b / 16)
    ∷ symbol (b % 16 * 4 + c / 64)
    ∷ symbol (c % 64)
    ∷ base64_raw_url r

symbol-not-space : (n : ℕ) → is_space (symbol n) ≡ false
unfolding symbol is_space
symbol-not-space n = ground arith

pub base64_raw_url-IsSolid : (bs : List ℕ) → IsSolid (base64_raw_url bs)
unfolding base64_raw_url
base64_raw_url-IsSolid [] = tt
base64_raw_url-IsSolid (a ∷ []) = simp symbol-not-space (refl, (refl, tt))
base64_raw_url-IsSolid (a ∷ b ∷ []) = simp symbol-not-space (refl, (refl, (refl, tt)))
base64_raw_url-IsSolid (a ∷ b ∷ c ∷ r) =
    simp symbol-not-space (refl, (refl, (refl, (refl, base64_raw_url-IsSolid r))))
