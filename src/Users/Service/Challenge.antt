-- ===== src/Users/Service/Challenge.antt =====
-- Proofs about `Verify2FA` of internal/service/auth.go and the second factor that it checks.
use realm_api.Common.{
  ℕ, ◌≡◌, inl, inr, refl, Bool, true, ◌&&◌, Option, none, some, List, Text, txt, byte_len,
  trim_space, arith, Option-cases, Bool-cases, eqb, eqb_iff, ◌==◌,
}
use realm_api.Errors.{Result, ok, Result-cases}
use realm_api.Env.{Env}
use realm_api.Auth.Paseto.{UserClaims, verify_token}
use realm_api.Users.{User, AuthResponse}
use realm_api.Users.Repo.{Db, find, has_id, get_by_id}
use realm_api.Users.Repo.Rows.{get_by_id-eq-ok}
use realm_api.Users.Repo.Update.{set_row, remove_code, norm_code, consume_recovery_code}
use realm_api.Users.Service.{Libraries}
use realm_api.Users.Service.TwoFactor.{pass_challenge, check_second_factor, verify_2fa}

abbrev pub with_codes : ℕ → List Text → User → User
with_codes now left u = record u { two_factor_recovery_codes = left; updated_at = now }

abbrev pub store_codes : ℕ → ℕ → List Text → Db → Db
store_codes id now left db = record db { users = set_row id (with_codes now left) db.users }

abbrev pub same_code : (ℕ → ℕ) → Text → Text → Bool
same_code upper a b = eqb (norm_code upper b) (norm_code upper a)

consume_recovery_code-eq-ok :
    (upper : ℕ → ℕ) (e : Env) (first id : ℕ) (code : Text) (db : Db) (u : User)
    → find (has_id id) db.users ≡ some u
    → (consume_recovery_code upper e first id code db).0 ≡ ok true
    → (left : List Text) × (remove_code upper code u.two_factor_recovery_codes ≡ some left)
      × ((consume_recovery_code upper e first id code db).1
          ≡ store_codes id (e.clock first) left db)
unfolding consume_recovery_code
consume_recovery_code-eq-ok upper e first id code db u found h =
    elim (Result-cases (get_by_id (e.fails first) id db)) [
      | inr (x, bad) ↦ absurd (ground arith)
      | inl (v, good) ↦
          let found' = get_by_id-eq-ok (e.fails first) id db v good in
          let same : v ≡ u = cc in
          elim (Option-cases (remove_code upper code v.two_factor_recovery_codes)) [
            | inl missing ↦ absurd (ground arith)
            | inr (left, gone) ↦ (left, rw (← same) gone, ground arith)
          ]
    ]

module _ (l : Libraries) (e : Env) (nonce : ℕ) where
  -- How the second factor was passed: by a code of the authenticator, which changes nothing, or by a
  -- recovery code, which is taken from the user's.
  pub data Factor (id : ℕ) (trimmed : Text) (u : User) (secret : Text) (db : Db)
      : Option Db → Type 0 where
    authenticator :
        byte_len trimmed ≡ 6
        → l.validate (e.clock 1) trimmed secret ≡ true
        → Factor id trimmed u secret db (some db)
    recovery :
        (left : List Text)
        → remove_code l.upper trimmed u.two_factor_recovery_codes ≡ some left
        → Factor id trimmed u secret db (some (store_codes id (e.clock 1) left db))

  pub pass_challenge-repo : (u : User) (db : Db) → (pass_challenge l e nonce u db).1 ≡ some db
  unfolding pass_challenge
  pass_challenge-repo u db = ground arith

  check_second_factor-Factor :
      (id : ℕ) (trimmed : Text) (u : User) (secret : Text) (db : Db) (r : AuthResponse)
      → find (has_id id) db.users ≡ some u
      → (check_second_factor l e nonce id trimmed u secret db).0 ≡ ok r
      → Factor id trimmed u secret db (check_second_factor l e nonce id trimmed u secret db).1
  unfolding check_second_factor
  check_second_factor-Factor id trimmed u secret db r found h =
      let attempt : Result Bool × Db = consume_recovery_code l.upper e 1 id trimmed db in
      elim (Bool-cases (byte_len trimmed == 6 && l.validate (e.clock 1) trimmed secret)) [
        | inl valid ↦
            let same : (check_second_factor l e nonce id trimmed u secret db).1 ≡ some db =
              ground (arith, pass_challenge-repo u db) in
            rw same (authenticator (ground arith) (ground arith))
        | inr invalid ↦
            let used : attempt.0 ≡ ok true = elim (Result-cases attempt.0) [
              | inr (x, bad) ↦ absurd (ground arith)
              | inl (b, got) ↦ elim (Bool-cases b) [
                | inl right ↦ rw got (rw right refl)
                | inr wrong ↦ absurd (ground arith)
              ]
            ] in
            let (left, gone, after) =
              consume_recovery_code-eq-ok l.upper e 1 id trimmed db u found used in
            let same : (check_second_factor l e nonce id trimmed u secret db).1
                ≡ some (store_codes id (e.clock 1) left db) =
              ground (arith, pass_challenge-repo u attempt.1) in
            rw same (recovery left gone)
      ]

  -- what has held when `Verify2FA` succeeds
  pub record Verified (temp_token code : Text) (db : Db) (after : Option Db) : Type 0 where
    pub claims : UserClaims
    pub id : ℕ
    pub user : User
    pub secret : Text
    pub valid : verify_token l.paseto l.key (e.clock 0) temp_token ≡ ok claims
    pub challenge : claims.purpose ≡ txt "2fa_challenge"
    pub named : l.uuid.parse claims.id ≡ some id
    pub found : find (has_id id) db.users ≡ some user
    pub enabled : user.two_factor_enabled ≡ true
    pub has_secret : user.two_factor_secret ≡ some secret
    pub factor : Factor id (trim_space code) user secret db after

  pub verified :
      (temp_token code : Text) (db : Db) (r : AuthResponse)
      → (verify_2fa l e nonce temp_token code (some db)).0 ≡ ok r
      → Verified temp_token code db (verify_2fa l e nonce temp_token code (some db)).1
  unfolding verify_2fa
  verified temp_token code db r h =
      elim (Result-cases (verify_token l.paseto l.key (e.clock 0) temp_token)) [
        | inr (x, bad) ↦ absurd (ground arith)
        | inl (claims, valid) ↦ elim (Option-cases (l.uuid.parse claims.id)) [
          | inl unknown ↦ absurd (ground arith)
          | inr (id, named) ↦ elim (Result-cases (get_by_id (e.fails 0) id db)) [
            | inr (x, bad) ↦ absurd (ground arith)
            | inl (u, good) ↦ elim (Option-cases u.two_factor_secret) [
              | inl without ↦ absurd (ground arith)
              | inr (secret, has_secret) ↦
                  let found = get_by_id-eq-ok (e.fails 0) id db u good in
                  let challenge : eqb claims.purpose (txt "2fa_challenge") ≡ true = ground arith in
                  let enabled : u.two_factor_enabled ≡ true = ground arith in
                  let checked = check_second_factor l e nonce id (trim_space code) u secret db in
                  let same : verify_2fa l e nonce temp_token code (some db) ≡ checked =
                    ground arith in
                  record {
                    claims = claims;
                    id = id;
                    user = u;
                    secret = secret;
                    valid = valid;
                    challenge = (eqb_iff claims.purpose (txt "2fa_challenge")).0 challenge;
                    named = named;
                    found = found;
                    enabled = enabled;
                    has_secret = has_secret;
                    factor = rw same (
                        check_second_factor-Factor id (trim_space code) u secret db r found
                          (rw same at h));
                  }
            ]
          ]
        ]
      ]

  -- `Verify2FA` succeeds only with a valid token whose purpose is the challenge, for the user whom it
  -- names, who has the second factor on and a secret; and either the trimmed code has six bytes and
  -- the authenticator accepts it, and the tables stay as they are, or the code is one of the user's
  -- recovery codes, and of the tables only that user changes, who is left with the other codes.
  pub verify_2fa_sound :
      (temp_token code : Text) (repo : Option Db) (r : AuthResponse)
      → (verify_2fa l e nonce temp_token code repo).0 ≡ ok r
      → (db : Db) × (repo ≡ some db)
        × Verified temp_token code db (verify_2fa l e nonce temp_token code repo).1
  unfolding verify_2fa
  verify_2fa_sound temp_token code none r h = absurd (ground arith)
  verify_2fa_sound temp_token code (some db) r h = (db, refl, verified temp_token code db r h)
