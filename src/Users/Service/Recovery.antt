-- ===== src/Users/Service/Recovery.antt =====
-- Proofs about `Enable2FA` and `Verify2FA` of internal/service/auth.go and the recovery codes.
use realm_api.Common.{
  ℕ, zero, suc, ◌+◌, ◌%◌, ◌<◌, ◌≡◌, inl, inr, refl, Bool, true, false, ◌&&◌, not, some, List, [],
  ◌∷◌, Text, txt, any, all, drop, length, byte_len, rune_len, is_space, IsSolid,
  trim_space_of_solid, All, arith, Bool-cases, eqb, eqb_iff, if◌then◌else◌, ◌==◌, ltb, leb,
}
use realm_api.Errors.{ok, Result-cases}
use realm_api.Env.{Env}
use realm_api.Auth.Paseto.{UserClaims, verify_token}
use realm_api.Users.{User}
use realm_api.Users.Repo.{Db, find, has_id, get_by_id}
use realm_api.Users.Repo.Rows.{get_by_id-eq-ok, get_by_id-found, find-set_row}
use realm_api.Users.Repo.Update
use realm_api.Users.Repo.Update.{set_row, remove_code, norm_code, consume_recovery_code}
use realm_api.Users.Service.{Libraries}
use realm_api.Users.Service.TwoFactor.{
  recovery_charset, symbol, spell, codes_from, generate_recovery_codes, confirmed_secret,
  enable_2fa, pass_challenge, check_second_factor, verify_2fa, Enable2faResponse,
}
use realm_api.Users.Service.Challenge.{store_codes}

-- ASCII, and no white space
is_plain : ℕ → Bool
is_plain c = ltb c 0x80 && not (is_space c)

head_of : Text → ℕ
head_of [] = 0
head_of (c ∷ t) = c

plain_at :
    (p : ℕ → Bool) (t : Text) (n : ℕ)
    → all p t ≡ true
    → n < length t
    → p (head_of (drop n t)) ≡ true
unfolding head_of
plain_at p [] n h lt = absurd (omega arith)
plain_at p (c ∷ t) zero h lt = ground arith
plain_at p (c ∷ t) (suc n) h lt = plain_at p t n (ground arith) (omega arith)

charset_plain : all is_plain recovery_charset ≡ true
unfolding is_plain is_space
charset_plain = refl

symbol_head : (b : ℕ) → symbol b ≡ head_of (drop (b % 32) recovery_charset)
unfolding symbol head_of
symbol_head b = refl

symbol_plain : (b : ℕ) → is_plain (symbol b) ≡ true
symbol_plain b =
    rw (symbol_head b) (plain_at is_plain recovery_charset (b % 32) charset_plain (omega arith))

plain_bounds : (c : ℕ) → is_plain c ≡ true → (rune_len c ≡ 1) × (is_space c ≡ false)
unfolding is_plain rune_len
plain_bounds c h = ground arith

dash_plain : (is_space b'-' ≡ false) × (rune_len b'-' ≡ 1)
unfolding is_space rune_len
dash_plain = (refl, refl)

spell-IsSolid : (j : ℕ) (bytes : List ℕ) → IsSolid (spell j bytes)
unfolding spell
spell-IsSolid j [] = tt
spell-IsSolid j (b ∷ bytes) =
    let rest = spell-IsSolid (j + 1) bytes in
    let plain = (plain_bounds (symbol b) (symbol_plain b)).1 in
    elim (Bool-cases (j == 4)) [
      | inl dashed ↦ rw dashed (dash_plain.0, (plain, rest))
      | inr undashed ↦ rw undashed (plain, rest)
    ]

byte_len-spell :
    (j : ℕ) (bytes : List ℕ)
    → byte_len (spell j bytes)
      ≡ length bytes + (if leb j 4 && ltb 4 (j + length bytes) then 1 else 0)
unfolding spell byte_len
byte_len-spell j [] = ground arith
byte_len-spell j (b ∷ bytes) =
    ground
      (arith, byte_len-spell (j + 1) bytes, plain_bounds (symbol b) (symbol_plain b), dash_plain)

-- what every code is: without white space, and of nine bytes
abbrev IsCode : Text → Type 0
IsCode c = IsSolid c × (byte_len c ≡ 9)

codes_from-IsCode :
    (random : ℕ → List ℕ)
    → ((i : ℕ) → length (random i) ≡ 8)
    → (i count : ℕ) → All IsCode (codes_from random i count)
unfolding codes_from
codes_from-IsCode random eight i zero = tt
codes_from-IsCode random eight i (suc count) = (
  (spell-IsSolid 0 (random i), ground (arith, byte_len-spell 0 (random i), eight i)),
  codes_from-IsCode random eight (i + 1) count,
)

code_of :
    (code : Text) (codes : List Text) → All IsCode codes → any (eqb code) codes ≡ true → IsCode code
code_of code [] h m = cc
code_of code (c ∷ codes) h m = elim (Bool-cases (eqb code c)) [
  | inl here ↦ rw ((eqb_iff code c).0 here) h.0
  | inr further ↦ code_of code codes h.1 (rw further at m)
]

remove_code-found :
    (upper : ℕ → ℕ) (code : Text) (codes : List Text)
    → any (eqb code) codes ≡ true
    → (left : List Text) × (remove_code upper code codes ≡ some left)
unfolding remove_code
remove_code-found upper code [] m = cc
remove_code-found upper code (c ∷ codes) m =
    elim (Bool-cases (eqb (norm_code upper c) (norm_code upper code))) [
      | inl hit ↦ (codes, rw hit refl)
      | inr miss ↦
          let (left, found) =
            remove_code-found upper code codes (
              ground (arith, eqb_iff code c, eqb_iff (norm_code upper c) (norm_code upper code))) in
          (c ∷ left, rw miss (rw found refl))
    ]

module _ (l : Libraries) (e f : Env) (random : ℕ → List ℕ) (nonce id : ℕ) (code secret : Text) where
  -- the row after `Enable2FA`
  abbrev pub protected : Text → User → User
  protected chosen u = record u {
    two_factor_enabled = true;
    two_factor_secret = some chosen;
    two_factor_recovery_codes = generate_recovery_codes random 8;
    updated_at = e.clock 1;
  }

  enable_2fa-eq-ok :
      (db db' : Db) (r : Enable2faResponse)
      → enable_2fa l e random id code secret (some db) ≡ (ok r, some db')
      → (u : User) × (chosen : Text) × (find (has_id id) db'.users ≡ some (protected chosen u))
        × (r.recovery_codes ≡ generate_recovery_codes random 8)
  unfolding enable_2fa Update.enable_2fa
  enable_2fa-eq-ok db db' r h = elim (Result-cases (get_by_id (e.fails 0) id db)) [
    | inr (x, bad) ↦ absurd (ground arith)
    | inl (u, read) ↦
        let found = get_by_id-eq-ok (e.fails 0) id db u read in
        let chosen : Text = confirmed_secret secret u.two_factor_secret in
        let same : record db { users = set_row id (protected chosen) db.users } ≡ db' =
          ground arith in
        (
          u,
          chosen,
          rw (← same) (find-set_row id (protected chosen) (λ v. refl) db.users u found),
          ground arith,
        )
  ]

  recovered :
      (db : Db) (temp_token recovery kept : Text) (claims : UserClaims) (u : User)
      → IsCode recovery
      → any (eqb recovery) u.two_factor_recovery_codes ≡ true
      → find (has_id id) db.users ≡ some u
      → u.two_factor_enabled ≡ true
      → u.two_factor_secret ≡ some kept
      → verify_token l.paseto l.key (f.clock 0) temp_token ≡ ok claims
      → claims.purpose ≡ txt "2fa_challenge"
      → l.uuid.parse claims.id ≡ some id
      → f.fails 0 ≡ false
      → f.fails 1 ≡ false
      → f.fails 2 ≡ false
      → (left : List Text) × (remove_code l.upper recovery u.two_factor_recovery_codes ≡ some left)
        × (verify_2fa l f nonce temp_token recovery (some db)
            ≡ pass_challenge l f nonce u (store_codes id (f.clock 1) left db))
  unfolding verify_2fa check_second_factor consume_recovery_code
  recovered db temp_token recovery kept claims u shape there found on has valid challenge named up
        up' up'' =
      let (left, gone) = remove_code-found l.upper recovery u.two_factor_recovery_codes there in
      let trimmed = trim_space_of_solid recovery shape.0 in
      let long : (byte_len recovery == 6) ≡ false = ground (arith, shape.1) in
      let read : get_by_id (f.fails 0) id db ≡ ok u = rw up (get_by_id-found id db u found) in
      let read' : get_by_id (f.fails 1) id db ≡ ok u = rw up' (get_by_id-found id db u found) in
      (left, gone, ground (arith, eqb_iff claims.purpose (txt "2fa_challenge")))

  -- Each recovery code that `Enable2FA` hands out, for draws of eight bytes, passes `Verify2FA` with any
  -- valid challenge of that user, as long as no query fails: the answer is that of the end of the
  -- login, and the code is taken from the user's.
  pub verify_2fa-enable_2fa :
      (db db' : Db) (r : Enable2faResponse) (temp_token recovery : Text) (claims : UserClaims)
      → ((i : ℕ) → length (random i) ≡ 8)
      → enable_2fa l e random id code secret (some db) ≡ (ok r, some db')
      → any (eqb recovery) r.recovery_codes ≡ true
      → verify_token l.paseto l.key (f.clock 0) temp_token ≡ ok claims
      → claims.purpose ≡ txt "2fa_challenge"
      → l.uuid.parse claims.id ≡ some id
      → ((n : ℕ) → f.fails n ≡ false)
      → (u : User) × (left : List Text) × (find (has_id id) db'.users ≡ some u)
        × (remove_code l.upper recovery u.two_factor_recovery_codes ≡ some left)
        × (verify_2fa l f nonce temp_token recovery (some db')
            ≡ pass_challenge l f nonce u (store_codes id (f.clock 1) left db'))
  unfolding generate_recovery_codes
  verify_2fa-enable_2fa db db' r temp_token recovery claims eight h there valid challenge named up =
      let (u, chosen, found, codes) = enable_2fa-eq-ok db db' r h in
      let member : any (eqb recovery) (generate_recovery_codes random 8) ≡ true =
        rw codes at there in
      let shape =
        code_of recovery (codes_from random 0 8) (codes_from-IsCode random eight 0 8) member in
      let (left, gone, passed) =
        recovered db' temp_token recovery chosen claims (protected chosen u) shape member found refl
          refl valid challenge named (up 0) (up 1) (up 2) in
      (protected chosen u, left, found, gone, passed)
