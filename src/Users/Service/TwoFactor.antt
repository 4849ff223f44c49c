-- ===== src/Users/Service/TwoFactor.antt =====
-- internal/service/auth.go: two-factor authentication.
use Prim.Native.String.{String}
use realm_api.Common.{
  ℕ, zero, suc, ◌+◌, ◌%◌, Bool, true, false, ◌&&◌, ◌||◌, not, Option, none, some, List, [], ◌∷◌,
  ◌++◌, Text, txt, drop, length, ◌==◌, byte_len, eqb, is_empty, trim_space, if◌then◌else◌,
}
use realm_api.Errors.{Result, ok, err, sentinel, new, wrap, driver, err_database_unavailable}
use realm_api.Env.{Env}
use realm_api.Auth.Paseto.{verify_token}
use realm_api.Users.{User, AuthResponse, to_dto_with_accounts}
use realm_api.Users.Repo.{Db, get_by_id}
use realm_api.Users.Repo.Update
use realm_api.Users.Repo.Update.{update_2fa_secret, consume_recovery_code}
use realm_api.Users.Service.{Libraries, get_connected_accounts, granted, session}

-- `otp.Key`: what the service reads of it
pub record OtpKey : Type 0 where
  pub secret : Text
  pub url : Text

-- `totp.Generate` at a draw, `key.Image`, `png.Encode` and base64
pub record Painter : Type 0 where
  pub generate : ℕ → Text → Option OtpKey
  pub image : OtpKey → Option Text
  pub png : Text → Option (List ℕ)
  pub base64 : List ℕ → Text

pub record Setup2faResponse : Type 0 where
  pub secret : Text
  pub qr_code : Text
  pub otpauth_url : Text

pub record Enable2faResponse : Type 0 where
  pub status : String
  pub message : String
  pub recovery_codes : List Text

abbrev pub recovery_charset : Text
recovery_charset = txt "23456789ABCDEFGHJKLMNPQRSTUVWXYZ"

-- `recoveryCharset[int(b)%len(recoveryCharset)]`
unfoldable pub symbol : ℕ → ℕ
symbol b = elim (drop (b % length recovery_charset) recovery_charset) [ [] ↦ 0 | c ∷ rest ↦ c ]

-- the loop over the bytes of a code from the index `j`
unfoldable pub spell : ℕ → List ℕ → Text
unfolding symbol
spell j [] = []
spell j (b ∷ bytes) =
    let rest = spell (j + 1) bytes in if j == 4 then b'-' ∷ symbol b ∷ rest else symbol b ∷ rest

-- `random i` is what the reader draws for the code at the index `i`.
unfoldable pub codes_from : (ℕ → List ℕ) → ℕ → ℕ → List Text
unfolding spell
codes_from random i zero = []
codes_from random i (suc count) = spell 0 (random i) ∷ codes_from random (i + 1) count

unfoldable pub generate_recovery_codes : (ℕ → List ℕ) → ℕ → List Text
unfolding codes_from
generate_recovery_codes random count = codes_from random 0 count

unfoldable pub setup_2fa : Painter → Env → ℕ → ℕ → Option Db → Result Setup2faResponse × Option Db
setup_2fa p e draw id none = (err (sentinel err_database_unavailable), none)
setup_2fa p e draw id (some db) = elim (get_by_id (e.fails 0) id db) [
  | err x ↦ (err x, some db)
  | ok u ↦ elim (p.generate draw u.email) [
    | none ↦ (err (wrap "failed to generate totp key" driver), some db)
    | some key ↦ elim (update_2fa_secret (e.fails 1) (e.clock 0) id key.secret db) [
      | err x ↦ (err (wrap "failed to save 2fa secret" x), some db)
      | ok db' ↦ elim (p.image key) [
        | none ↦ (err (wrap "failed to generate qr code image" driver), some db')
        | some image ↦ elim (p.png image) [
          | none ↦ (err (wrap "failed to encode qr code png" driver), some db')
          | some bytes ↦ (
            ok (record {
              secret = key.secret;
              qr_code = txt "data:image/png;base64," ++ p.base64 bytes;
              otpauth_url = key.url;
            }),
            some db',
          )
        ]
      ]
    ]
  ]
]

-- the secret that `Enable2FA` confirms: the one given, or the one stored
unfoldable pub confirmed_secret : Text → Option Text → Text
confirmed_secret secret stored =
    if is_empty secret then elim stored [ none ↦ [] | some s ↦ s ] else secret

module _ (l : Libraries) where
  unfoldable pub enable_2fa :
      Env → (ℕ → List ℕ) → ℕ → Text → Text → Option Db → Result Enable2faResponse × Option Db
  unfolding confirmed_secret generate_recovery_codes
  enable_2fa e random id code secret none = (err (sentinel err_database_unavailable), none)
  enable_2fa e random id code secret (some db) = elim (get_by_id (e.fails 0) id db) [
    | err x ↦ (err x, some db)
    | ok u ↦
        let chosen : Text = confirmed_secret secret u.two_factor_secret in
        let codes : List Text = generate_recovery_codes random 8 in
        if is_empty chosen
        then (err (new "no 2fa secret found; please initiate setup first"), some db)
        else if not (l.validate (e.clock 0) (trim_space code) chosen)
        then (
          err (new "invalid verification code; please check your authenticator app and try again"),
          some db,
        )
        else elim (Update.enable_2fa (e.fails 1) (e.clock 1) id chosen codes db) [
          | err x ↦ (err (wrap "failed to enable 2fa" x), some db)
          | ok db' ↦ (
            ok (record {
              status = "success";
              message = "Two-factor authentication has been enabled successfully";
              recovery_codes = codes;
            }),
            some db',
          )
        ]
  ]

  -- the code of the second factor is right
  abbrev pub has_code : ℕ → Text → Option Text → Bool
  has_code now code none = false
  has_code now code (some secret) = not (is_empty code) && l.validate now (trim_space code) secret

  -- the password is right; one that is empty in the table is compared too
  abbrev pub is_confirmed : Text → Option Text → Bool
  is_confirmed password none = false
  is_confirmed password (some hash) = not (is_empty password) && l.compare hash password

  unfoldable pub disable_2fa : Env → ℕ → Text → Text → Option Db → Result (Unit {0}) × Option Db
  disable_2fa e id code password none = (err (sentinel err_database_unavailable), none)
  disable_2fa e id code password (some db) = elim (get_by_id (e.fails 0) id db) [
    | err x ↦ (err x, some db)
    | ok u ↦
        if not u.two_factor_enabled
        then (err (new "two-factor authentication is not currently enabled"), some db)
        else if has_code (e.clock 0) code u.two_factor_secret
            || is_confirmed password u.password_hash
        then elim (Update.disable_2fa (e.fails 1) (e.clock 1) id db) [
          | err x ↦ (err x, some db)
          | ok db' ↦ (ok tt, some db')
        ]
        else (err (new "invalid confirmation code or password"), some db)
  ]

  -- the end of `Verify2FA`
  unfoldable pub pass_challenge : Env → ℕ → User → Db → Result AuthResponse × Option Db
  unfolding session
  pass_challenge e nonce u db = elim (session l nonce (e.clock 3) u) [
    | err x ↦ (err x, some db)
    | ok token ↦ (
      ok (
          granted "Authentication successful" token
            (to_dto_with_accounts u (get_connected_accounts (e.fails 3) u.id db))),
      some db,
    )
  ]

  -- `Verify2FA` from the user on; `trimmed` is the code, and `secret` the user's.
  unfoldable pub check_second_factor :
      Env → ℕ → ℕ → Text → User → Text → Db → Result AuthResponse × Option Db
  unfolding pass_challenge
  check_second_factor e nonce id trimmed u secret db =
      if byte_len trimmed == 6 && l.validate (e.clock 1) trimmed secret
      then pass_challenge e nonce u db
      else let (consumed, db') = consume_recovery_code l.upper e 1 id trimmed db in
        elim consumed [
          | ok true ↦ pass_challenge e nonce u db'
          | _ ↦ (err (new "invalid verification code or recovery code"), some db')
        ]

  unfoldable pub verify_2fa : Env → ℕ → Text → Text → Option Db → Result AuthResponse × Option Db
  unfolding check_second_factor
  verify_2fa e nonce temp_token code none = (err (sentinel err_database_unavailable), none)
  verify_2fa e nonce temp_token code (some db) =
      elim (verify_token l.paseto l.key (e.clock 0) temp_token) [
        | err x ↦ (err (new "session expired or invalid; please log in again"), some db)
        | ok claims ↦
            if not (eqb claims.purpose (txt "2fa_challenge"))
            then (err (new "invalid token purpose"), some db)
            else elim (l.uuid.parse claims.id) [
              | none ↦ (err (new "invalid user id"), some db)
              | some id ↦ elim (get_by_id (e.fails 0) id db) [
                | err x ↦ (err x, some db)
                | ok u ↦
                    let inactive : Result AuthResponse × Option Db = (
                      err (new "two-factor authentication is not active for this account"),
                      some db,
                    ) in
                    if not u.two_factor_enabled then inactive else elim u.two_factor_secret [
                      | none ↦ inactive
                      | some secret ↦ check_second_factor e nonce id (trim_space code) u secret db
                    ]
              ]
            ]
      ]
