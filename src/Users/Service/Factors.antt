-- ===== src/Users/Service/Factors.antt =====
-- Proofs that relate the changes of the second factor to internal/repository/user.go.
use realm_api.Common.{
  ℕ, zero, suc, ◌+◌, refl, true, length, leb, ◌≡◌, inl, inr, some, List, Text, arith, Option-cases,
  Bool-cases, trim_space, is_empty, byte_len, ◌==◌, ◌&&◌, eqb, txt,
}
use realm_api.Errors.{Result-cases}
use realm_api.Env.{Env}
use realm_api.Auth.Paseto.{verify_token}
use realm_api.Users.{User}
use realm_api.Users.Repo.{Db, get_by_id}
use realm_api.Users.Repo.Update
use realm_api.Users.Repo.Update.{update, update_password, update_2fa_secret, consume_recovery_code}
use realm_api.Users.Repo.History.{here, next, secret_set, enabled, disabled, consumed}
use realm_api.Users.Service.{Libraries}
use realm_api.Users.Service.TwoFactor.{
  Painter, confirmed_secret, setup_2fa, enable_2fa, disable_2fa, check_second_factor, verify_2fa,
  generate_recovery_codes, codes_from,
}
use realm_api.Users.Service.Moves.{Moves, stays, moves}
use realm_api.Users.Service.Challenge.{pass_challenge-repo}

module _ (e : Env) where
  pub setup_2fa-Moves :
      (p : Painter) (draw id : ℕ) (db : Db) → Moves db (setup_2fa p e draw id (some db)).1
  unfolding setup_2fa
  setup_2fa-Moves p draw id db =
      let after = (setup_2fa p e draw id (some db)).1 in
      elim (Result-cases (get_by_id (e.fails 0) id db)) [
        | inr (x, bad) ↦ let same : after ≡ some db = ground arith in rw same (stays db)
        | inl (u, read) ↦ elim (Option-cases (p.generate draw u.email)) [
          | inl none' ↦ let same : after ≡ some db = ground arith in rw same (stays db)
          | inr (key, made) ↦
              elim (Result-cases (update_2fa_secret (e.fails 1) (e.clock 0) id key.secret db)) [
                | inr (x, bad) ↦ let same : after ≡ some db = ground arith in rw same (stays db)
                | inl (db', done) ↦
                    let same : after ≡ some db' = ground arith in
                    rw same
                      (moves (next here (secret_set (e.fails 1) (e.clock 0) id key.secret done)))
              ]
        ]
      ]

length-codes_from : (random : ℕ → List ℕ) (i count : ℕ) → length (codes_from random i count) ≡ count
unfolding codes_from
length-codes_from random i zero = refl
length-codes_from random i (suc count) = ground (arith, length-codes_from random (i + 1) count)

length-generate_recovery_codes :
    (random : ℕ → List ℕ) (count : ℕ) → length (generate_recovery_codes random count) ≡ count
unfolding generate_recovery_codes
length-generate_recovery_codes random count = length-codes_from random 0 count

module _ (l : Libraries) (e : Env) where
  pub enable_2fa-Moves :
      (random : ℕ → List ℕ) (id : ℕ) (code secret : Text) (db : Db)
      → Moves db (enable_2fa l e random id code secret (some db)).1
  unfolding enable_2fa
  enable_2fa-Moves random id code secret db =
      let after = (enable_2fa l e random id code secret (some db)).1 in
      elim (Result-cases (get_by_id (e.fails 0) id db)) [
        | inr (x, bad) ↦ let same : after ≡ some db = ground arith in rw same (stays db)
        | inl (u, read) ↦
            let chosen : Text = confirmed_secret secret u.two_factor_secret in
            let codes : List Text = generate_recovery_codes random 8 in
            let few : leb (length codes) 8 ≡ true =
              ground (arith, length-generate_recovery_codes random 8) in
            elim (Bool-cases (is_empty chosen)) [
              | inl blank ↦ let same : after ≡ some db = ground arith in rw same (stays db)
              | inr full ↦ elim (Bool-cases (l.validate (e.clock 0) (trim_space code) chosen)) [
                | inr wrong ↦ let same : after ≡ some db = ground arith in rw same (stays db)
                | inl right ↦
                    elim (Result-cases
                      (Update.enable_2fa (e.fails 1) (e.clock 1) id chosen codes db)) [
                        | inr (x, bad) ↦
                            let same : after ≡ some db = ground arith in rw same (stays db)
                        | inl (db', done) ↦
                            let same : after ≡ some db' = ground arith in
                            rw same (
                              moves (
                                next here
                                  (enabled (e.fails 1) (e.clock 1) id chosen codes few done)))
                      ]
              ]
            ]
      ]

  pub disable_2fa-Moves :
      (id : ℕ) (code password : Text) (db : Db)
      → Moves db (disable_2fa l e id code password (some db)).1
  unfolding disable_2fa
  disable_2fa-Moves id code password db =
      let after = (disable_2fa l e id code password (some db)).1 in
      elim (Result-cases (disable_2fa l e id code password (some db)).0) [
        | inr (x, bad) ↦ let same : after ≡ some db = ground arith in rw same (stays db)
        | inl (done, good) ↦
            elim (Result-cases (Update.disable_2fa (e.fails 1) (e.clock 1) id db)) [
              | inr (x, bad) ↦ absurd (ground arith)
              | inl (db', written) ↦
                  let same : after ≡ some db' = ground arith in
                  rw same (moves (next here (disabled (e.fails 1) (e.clock 1) id written)))
            ]
      ]

  check_second_factor-Moves :
      (nonce id : ℕ) (trimmed : Text) (u : User) (secret : Text) (db : Db)
      → Moves db (check_second_factor l e nonce id trimmed u secret db).1
  unfolding check_second_factor
  check_second_factor-Moves nonce id trimmed u secret db =
      let after = (check_second_factor l e nonce id trimmed u secret db).1 in
      let tried = consume_recovery_code l.upper e 1 id trimmed db in
      elim (Bool-cases (byte_len trimmed == 6 && l.validate (e.clock 1) trimmed secret)) [
        | inl valid ↦
            let same : after ≡ some db = ground (arith, pass_challenge-repo l e nonce u db) in
            rw same (stays db)
        | inr invalid ↦
            let same : after ≡ some tried.1 = elim (Result-cases tried.0) [
              | inr (x, bad) ↦ ground arith
              | inl (b, got) ↦ elim (Bool-cases b) [
                | inl right ↦ ground (arith, pass_challenge-repo l e nonce u tried.1)
                | inr wrong ↦ ground arith
              ]
            ] in
            rw same (moves (next here (consumed l.upper e 1 id trimmed db)))
      ]

  pub verify_2fa-Moves :
      (nonce : ℕ) (temp_token code : Text) (db : Db)
      → Moves db (verify_2fa l e nonce temp_token code (some db)).1
  unfolding verify_2fa
  verify_2fa-Moves nonce temp_token code db =
      let after = (verify_2fa l e nonce temp_token code (some db)).1 in
      let stop = λ (same : after ≡ some db). let m : Moves db after = rw same (stays db) in m in
      elim (Result-cases (verify_token l.paseto l.key (e.clock 0) temp_token)) [
        | inr (x, bad) ↦ stop (ground arith)
        | inl (claims, valid) ↦ elim (Bool-cases (eqb claims.purpose (txt "2fa_challenge"))) [
          | inr other ↦ stop (ground arith)
          | inl challenge ↦ elim (Option-cases (l.uuid.parse claims.id)) [
            | inl nobody ↦ stop (ground arith)
            | inr (id, named) ↦ elim (Result-cases (get_by_id (e.fails 0) id db)) [
              | inr (x, bad) ↦ stop (ground arith)
              | inl (u, good) ↦ elim (Bool-cases u.two_factor_enabled) [
                | inr off ↦ stop (ground arith)
                | inl on ↦ elim (Option-cases u.two_factor_secret) [
                  | inl without ↦ stop (ground arith)
                  | inr (secret, has_secret) ↦
                      let checked =
                        check_second_factor l e nonce id (trim_space code) u secret db in
                      let same : after ≡ checked.1 = ground arith in
                      rw same (check_second_factor-Moves nonce id (trim_space code) u secret db)
                ]
              ]
            ]
          ]
        ]
      ]
