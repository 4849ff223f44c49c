-- ===== src/Users/Service/Once.antt =====
-- Proofs about recovery codes in `Verify2FA` of internal/service/auth.go.
use realm_api.Common.{
  ℕ, ◌≡◌, ◌≢◌, inl, inr, refl, Bool, true, false, all, Option, none, some, ap, List, [], ◌∷◌, Text,
  any, byte_len, trim_space, arith, Option-cases, Bool-cases, eqb, eqb_iff, Distinct,
}
use realm_api.Errors.{Result, ok, err, Err, Result-cases}
use realm_api.Env.{Env}
use realm_api.Auth.Paseto.{UserClaims, verify_token}
use realm_api.Users.{User, AuthResponse}
use realm_api.Users.Repo.{Db, find, has_id}
use realm_api.Users.Repo.Rows.{find-set_row}
use realm_api.Users.Repo.Update.{remove_code, norm_code}
use realm_api.Users.Service.{Libraries}
use realm_api.Users.Service.TwoFactor.{verify_2fa}
use realm_api.Users.Service.Challenge.{
  Factor, authenticator, recovery, verified, same_code, with_codes, store_codes,
}

-- Removal of a code from a list without two equal codes leaves a list where it is not found.
remove_code-missing :
    (upper : ℕ → ℕ) (code c : Text) (codes : List Text)
    → norm_code upper c ≡ norm_code upper code
    → any (same_code upper c) codes ≡ false
    → remove_code upper code codes ≡ none
unfolding remove_code
remove_code-missing upper code c [] same d = refl
remove_code-missing upper code c (k ∷ codes) same d = ground (
  arith,
  remove_code-missing upper code c codes,
  eqb_iff (norm_code upper k) (norm_code upper code),
  eqb_iff (norm_code upper k) (norm_code upper c),
)

remove_code-remove_code :
    (upper : ℕ → ℕ) (code : Text) (codes left : List Text)
    → Distinct (same_code upper) codes
    → remove_code upper code codes ≡ some left
    → remove_code upper code left ≡ none
unfolding remove_code
remove_code-remove_code upper code [] left d h = cc
remove_code-remove_code upper code (c ∷ codes) left d h =
    elim (Bool-cases (eqb (norm_code upper c) (norm_code upper code))) [
      | inl hit ↦
          let same : codes ≡ left = ground arith in
          rw (← same) (
            remove_code-missing upper code c codes
              ((eqb_iff (norm_code upper c) (norm_code upper code)).0 hit) d.0)
      | inr miss ↦ elim (Option-cases (remove_code upper code codes)) [
        | inl missing ↦ absurd (ground arith)
        | inr (rest, gone) ↦
            let same : c ∷ rest ≡ left = ground arith in
            rw (← same) (rw miss (rw (remove_code-remove_code upper code codes rest d.1 gone) refl))
      ]
    ]

Factor-left :
    (l : Libraries) (e : Env) (nonce id : ℕ) (trimmed : Text) (u : User) (secret : Text) (db : Db)
    (after : Option Db)
    → Factor l e nonce id trimmed u secret db after
    → byte_len trimmed ≢ 6
    → (left : List Text) × (remove_code l.upper trimmed u.two_factor_recovery_codes ≡ some left)
      × (after ≡ some (store_codes id (e.clock 1) left db))
Factor-left l e nonce id trimmed u secret db _ (authenticator six valid) long = absurd (long six)
Factor-left l e nonce id trimmed u secret db _ (recovery left gone) long = (left, gone, refl)

-- the same for a call whose token names a user that is known
verify_2fa-left :
    (l : Libraries) (e : Env) (nonce id : ℕ) (temp_token code : Text) (db : Db) (u : User)
    (r : AuthResponse) (claims : UserClaims)
    → find (has_id id) db.users ≡ some u
    → byte_len (trim_space code) ≢ 6
    → verify_token l.paseto l.key (e.clock 0) temp_token ≡ ok claims
    → l.uuid.parse claims.id ≡ some id
    → (verify_2fa l e nonce temp_token code (some db)).0 ≡ ok r
    → (left : List Text) × (remove_code l.upper (trim_space code) u.two_factor_recovery_codes
        ≡ some left)
      × ((verify_2fa l e nonce temp_token code (some db)).1
          ≡ some (store_codes id (e.clock 1) left db))
verify_2fa-left l e nonce id temp_token code db u r claims found long valid named h =
    let v = verified l e nonce temp_token code db r h in
    let same_claims : v.claims ≡ claims = cc (v.valid) in
    let same_id : v.id ≡ id = cc (v.named) in
    let same_user : v.user ≡ u = cc (v.found) in
    let (left, gone, after) =
      Factor-left l e nonce v.id (trim_space code) v.user v.secret db _ v.factor long in
    (left, rw (← same_user) gone, rw (← same_id) after)

-- the codes that are the given one
abbrev is_code : (ℕ → ℕ) → Text → Text → Bool
is_code upper code c = eqb (norm_code upper c) (norm_code upper code)

any-is_code :
    (upper : ℕ → ℕ) (code : Text) (codes : List Text)
    → remove_code upper code codes ≡ none
    → any (is_code upper code) codes ≡ false
unfolding remove_code
any-is_code upper code [] h = refl
any-is_code upper code (c ∷ codes) h = ground (arith, any-is_code upper code codes)

remove_code-none :
    (upper : ℕ → ℕ) (code : Text) (codes : List Text)
    → any (is_code upper code) codes ≡ false
    → remove_code upper code codes ≡ none
unfolding remove_code
remove_code-none upper code [] h = refl
remove_code-none upper code (c ∷ codes) h = ground (arith, remove_code-none upper code codes)

any-eqb :
    (q : Text → Bool) (c : Text) (codes : List Text)
    → any (eqb c) codes ≡ true
    → any q codes ≡ false
    → q c ≡ false
any-eqb q c [] h k = cc
any-eqb q c (d ∷ codes) h k = ground (arith, any-eqb q c codes, eqb_iff c d)

-- Every code of the first list is in the second.
abbrev pub all_in : List Text → List Text → Bool
all_in codes others = all (λ c. any (eqb c) others) codes

any-all_in :
    (q : Text → Bool) (codes others : List Text)
    → all_in codes others ≡ true
    → any q others ≡ false
    → any q codes ≡ false
any-all_in q [] others h k = refl
any-all_in q (c ∷ codes) others h k = ground (arith, any-all_in q codes others, any-eqb q c others)

-- A user whose recovery codes differ from one another logs in with one of them, which is no text of six
-- bytes. On any later tables in which the user has no codes but those that this login left,
-- `Verify2FA` refuses this code with an error, for every token that names the user.
pub verify_2fa_once :
    (l : Libraries) (e f : Env) (nonce nonce' id : ℕ) (temp_token temp_token' code : Text)
    (db db' later : Db) (u u' v : User) (r : AuthResponse) (claims claims' : UserClaims)
    → find (has_id id) db.users ≡ some u
    → Distinct (same_code l.upper) u.two_factor_recovery_codes
    → byte_len (trim_space code) ≢ 6
    → verify_token l.paseto l.key (e.clock 0) temp_token ≡ ok claims
    → l.uuid.parse claims.id ≡ some id
    → verify_2fa l e nonce temp_token code (some db) ≡ (ok r, some db')
    → find (has_id id) db'.users ≡ some u'
    → find (has_id id) later.users ≡ some v
    → all_in v.two_factor_recovery_codes u'.two_factor_recovery_codes ≡ true
    → verify_token l.paseto l.key (f.clock 0) temp_token' ≡ ok claims'
    → l.uuid.parse claims'.id ≡ some id
    → (x : Err) × ((verify_2fa l f nonce' temp_token' code (some later)).0 ≡ err x)
verify_2fa_once l e f nonce nonce' id temp_token temp_token' code db db' later u u' v r claims
      claims' found distinct long valid named h after_user later_user fewer valid' named' =
    let (left, gone, after) =
      verify_2fa-left l e nonce id temp_token code db u r claims found long valid named
        (ap (λ (p : Result AuthResponse × Option Db). p.0) h) in
    let stored : store_codes id (e.clock 1) left db ≡ db' = cc in
    let found' : find (has_id id) db'.users ≡ some (with_codes (e.clock 1) left u) =
      rw (← stored) (find-set_row id (with_codes (e.clock 1) left) (λ v. refl) db.users u found) in
    let same : with_codes (e.clock 1) left u ≡ u' = cc in
    let used = any-is_code l.upper (trim_space code) left (
      remove_code-remove_code l.upper (trim_space code) u.two_factor_recovery_codes left distinct
        gone) in
    let fewer' : all_in v.two_factor_recovery_codes left ≡ true = rw (← same) at fewer in
    let missing = remove_code-none l.upper (trim_space code) v.two_factor_recovery_codes (
      any-all_in (is_code l.upper (trim_space code)) v.two_factor_recovery_codes left fewer'
        used) in
    elim (Result-cases (verify_2fa l f nonce' temp_token' code (some later)).0) [
      | inr (x, bad) ↦ (x, bad)
      | inl (r', good) ↦
          let (left', gone', after') =
            verify_2fa-left l f nonce' id temp_token' code later v r' claims' later_user long valid'
              named' good in
          absurd (cc)
    ]
