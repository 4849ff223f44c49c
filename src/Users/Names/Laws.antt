-- ===== src/Users/Names/Laws.antt =====
-- Names that internal/service/auth.go accepts are left alone by trimming, and by lowering them twice.
use realm_api.Common.{
  ℕ, ◌≤◌, inl, inr, is_empty, byte_len, ◌≡◌, refl, Bool, true, false, [], ◌∷◌, Text, all, arith,
  IsSolid, trim_space_of_solid, trim_space, is_space, to_lower, lower_rune,
}
use realm_api.Errors.{ok, Result-cases}
use realm_api.Users.Names.{
  is_word, matches_username, check_password, check_registration, is_address, is_full_name,
}

word-IsSolid : (c : ℕ) → is_word c ≡ true → is_space c ≡ false
unfolding is_word is_space
word-IsSolid c h = ground arith

words-IsSolid : (t : Text) → all is_word t ≡ true → IsSolid t
words-IsSolid [] h = tt
words-IsSolid (c ∷ t) h = (word-IsSolid c (ground arith), words-IsSolid t (ground arith))

lower_word : (table : ℕ → ℕ) (c : ℕ) → is_word c ≡ true → is_word (lower_rune table c) ≡ true
unfolding is_word lower_rune
lower_word table c h = ground arith

lower_twice :
    (table : ℕ → ℕ) (c : ℕ)
    → is_word c ≡ true
    → lower_rune table (lower_rune table c) ≡ lower_rune table c
unfolding is_word lower_rune
lower_twice table c h = ground arith

pub to_lower-words :
    (table : ℕ → ℕ) (t : Text) → all is_word t ≡ true → all is_word (to_lower table t) ≡ true
unfolding to_lower
to_lower-words table [] h = refl
to_lower-words table (c ∷ t) h = ground (arith, lower_word table c, to_lower-words table t)

pub to_lower-to_lower :
    (table : ℕ → ℕ) (t : Text)
    → all is_word t ≡ true
    → to_lower table (to_lower table t) ≡ to_lower table t
unfolding to_lower
to_lower-to_lower table [] h = refl
to_lower-to_lower table (c ∷ t) h = ground (arith, lower_twice table c, to_lower-to_lower table t)

pub trim_space-words : (t : Text) → all is_word t ≡ true → trim_space t ≡ t
trim_space-words t h = trim_space_of_solid t (words-IsSolid t h)

pub words_of : (t : Text) → matches_username t ≡ true → all is_word t ≡ true
unfolding matches_username
words_of t h = ground arith

pub nonempty_name : (t : Text) → matches_username t ≡ true → is_empty t ≡ false
unfolding matches_username
nonempty_name [] h = cc
nonempty_name (c ∷ t) h = refl

pub nonempty_password : (t : Text) → check_password t ≡ ok tt → is_empty t ≡ false
unfolding check_password byte_len
nonempty_password [] h = cc
nonempty_password (c ∷ t) h = refl

pub check_password_bounds :
    (t : Text) → check_password t ≡ ok tt → (8 ≤ byte_len t) × (byte_len t ≤ 72)
unfolding check_password
check_password_bounds t h = ground arith

pub check_registration-eq-ok :
    (parse_address : Text → Bool) (email username password full_name : Text)
    → check_registration parse_address email username password full_name ≡ ok tt
    → (is_address parse_address email ≡ true)
      × (matches_username username ≡ true)
      × (check_password password ≡ ok tt)
      × (is_full_name full_name ≡ true)
unfolding check_registration
check_registration-eq-ok parse_address email username password full_name h =
    elim (Result-cases (check_password password)) [
      | inr (x, bad) ↦ absurd (ground arith)
      | inl (done, good) ↦ ground arith
    ]
