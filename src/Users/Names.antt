-- ===== src/Users/Names.antt =====
-- internal/service/auth.go: what a name, an address and a password must look like.
pub mod Laws
use realm_api.Common.{
  ℕ, ◌≡◌, Bool, true, false, ◌&&◌, ◌||◌, not, List, [], ◌∷◌, Text, any, all, leb, ltb, ◌==◌, length,
  byte_len, if◌then◌else◌,
}
use realm_api.Errors.{
  Result, ok, err, sentinel, err_invalid_email, err_invalid_username, err_password_too_short,
  err_password_too_long, err_full_name_required,
}

-- `[a-zA-Z0-9_]`
unfoldable pub is_word : ℕ → Bool
is_word c =
    leb b'a' c && leb c b'z' || leb b'A' c && leb c b'Z' || leb b'0' c && leb c b'9' || c == b'_'

-- `usernameRegex.MatchString`
unfoldable pub matches_username : Text → Bool
matches_username t = leb 3 (length t) && leb (length t) 30 && all is_word t

-- `parse_address` tells whether `mail.ParseAddress` gives no error.
unfoldable pub is_address : (Text → Bool) → Text → Bool
is_address parse_address t = parse_address t && any (λ c. c == b'@') t

unfoldable pub check_password : Text → Result (Unit {0})
check_password password =
    if ltb (byte_len password) 8
    then err (sentinel err_password_too_short)
    else if ltb 72 (byte_len password)
    then err (sentinel err_password_too_long)
    else ok tt

unfoldable pub is_full_name : Text → Bool
is_full_name t = leb 2 (byte_len t) && leb (byte_len t) 100

-- the validation at the head of `Register`, of texts that are trimmed
unfoldable pub check_registration : (Text → Bool) → Text → Text → Text → Text → Result (Unit {0})
unfolding check_password
check_registration parse_address email username password full_name =
    if not (is_address parse_address email)
    then err (sentinel err_invalid_email)
    else if not (matches_username username)
    then err (sentinel err_invalid_username)
    else elim (check_password password) [
      | err x ↦ err x
      | ok done ↦ if is_full_name full_name then ok tt else err (sentinel err_full_name_required)
    ]
