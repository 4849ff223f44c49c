-- ===== src/Tokens/Service.antt =====
-- `Create`, `Verify` and `Revoke` of internal/service/token.go, over the table and the cache.
-- `pending` holds the identifiers for which `Verify` has started a goroutine that calls
-- `UpdateLastUsed`. The cache holds what the row held; a pointer that the cache shares with a caller
-- is a value here, since no caller writes through it.
pub mod Coherence
pub mod Cached
pub mod Revocation
pub mod Race
pub mod Issue
use realm_api.Common.{
  ℤ, is_pos, abs_pos, ℕ, ◌+◌, ◌*◌, Bool, true, false, ◌||◌, Option, none, some, List, [], ◌∷◌, ◌++◌,
  Text, txt, is_empty, trim_space, has_prefix, take, ltb, ◌==◌, if◌then◌else◌, not,
}
use mathlib.Core.Option
use realm_api.Errors.{
  Err, sentinel, new, wrap, is, Result, ok, err, err_invalid_token, err_token_expired,
  err_token_revoked, err_token_not_found,
}
use realm_api.Env.{Env, minute}
use realm_api.Auth.Cache
use realm_api.Auth.Cache.{TokenCache}
use realm_api.Tokens.{ApiToken}
use realm_api.Tokens.Repo
use realm_api.Tokens.Repo.{Table}
use realm_api.Tokens.Secret.{hash_token, base64_raw_url}

pub record TokenService : Type 0 where
  pub repo : Option Table
  pub cache : Option TokenCache
  pub pending : List ℕ

-- internal/model/token.go
pub record TokenCreateInput : Type 0 where
  pub name : Text
  pub scopes : List Text
  pub rate_limit_rpm : ℤ
  pub expires_in : ℤ

pub record TokenDto : Type 0 where
  pub created_at : ℕ
  pub last_used_at : Option ℕ
  pub expires_at : Option ℕ
  pub name : Text
  pub token_prefix : Text
  pub scopes : List Text
  pub rate_limit_rpm : ℕ
  pub id : ℕ
  pub is_revoked : Bool

pub record TokenCreateResult : Type 0 where
  pub raw : Text
  pub token : TokenDto

abbrev pub to_dto : ApiToken → TokenDto
to_dto t = record {
  created_at = t.created_at;
  last_used_at = t.last_used_at;
  expires_at = t.expires_at;
  name = t.name;
  token_prefix = t.token_prefix;
  scopes = t.scopes;
  rate_limit_rpm = t.rate_limit_rpm;
  id = t.id;
  is_revoked = t.is_revoked;
}

abbrev pub token_mark : Text
token_mark = txt "realm_tok_"

unfoldable pub or_default : Text → Text → Text
or_default name d = if is_empty name then d else name

unfoldable pub or_all : List Text → List Text
or_all [] = txt "*" ∷ []
or_all (s ∷ ss) = s ∷ ss

-- The row that `Create` inserts; the clock is read for the expiry and for `CreatedAt`.
unfoldable pub new_record : (Text → List ℕ) → Env → ℕ → Text → TokenCreateInput → ApiToken
unfolding or_default or_all
new_record sha256 e id raw_token input = record {
  created_at = e.clock 1;
  last_used_at = none;
  expires_at =
      if is_pos input.expires_in then some (e.clock 0 + abs_pos input.expires_in) else none;
  name = or_default (trim_space input.name) (txt "default-token");
  token_prefix = take 14 raw_token ++ txt "...";
  token_hash = hash_token sha256 raw_token;
  scopes = or_all input.scopes;
  rate_limit_rpm = if is_pos input.rate_limit_rpm then abs_pos input.rate_limit_rpm else 60;
  id = id;
  is_revoked = false;
}

-- `IsRevoked` and `ExpiresAt`, which `Verify` tests on a cached token and on a row alike
unfoldable pub check : ℕ → ApiToken → Result ApiToken
check now t = if t.is_revoked then err (sentinel err_token_revoked) else elim t.expires_at [
  | none ↦ ok t
  | some x ↦ if ltb x now then err (sentinel err_token_expired) else ok t
]

-- `token.LastUsedAt == nil || now.Sub(*token.LastUsedAt) > 5*time.Minute`
unfoldable pub is_due : ℕ → Option ℕ → Bool
is_due now none = true
is_due now (some t) = ltb (t + 5 * minute) now

-- the end of `Verify`: the cache is updated, and the last use is noted at most every five minutes
unfoldable pub remember : Env → Text → ApiToken → TokenService → ApiToken × TokenService
remember e h t s =
    let cached = record s {
      cache = Option.map (Cache.set (e.clock 2) (e.clock 3) (e.choice 0) h t) s.cache;
    } in
    let used = record t { last_used_at = some (e.clock 4) } in
    if is_due (e.clock 4) t.last_used_at
    then (
      used,
      record cached {
        cache = Option.map (Cache.set (e.clock 5) (e.clock 6) (e.choice 1) h used) cached.cache;
        pending = t.id ∷ s.pending;
      },
    )
    else (t, cached)

-- what `Verify` makes of an error of `GetByHash`
unfoldable pub lookup_error : Err → Err
lookup_error x = if is x err_token_not_found then sentinel err_invalid_token else x

unfoldable pub verify_stored : Env → Text → TokenService → Result ApiToken × TokenService
unfolding lookup_error
verify_stored e h s = elim s.repo [
  | none ↦ (err (new "database repository unavailable for token verification"), s)
  | some rows ↦ elim (Repo.get_by_hash (e.fails 0) h rows) [
    | err x ↦ (err (lookup_error x), s)
    | ok t ↦ elim (check (e.clock 1) t) [
      | err x ↦ (err x, s)
      | ok t' ↦ let (used, s') = remember e h t' s in (ok used, s')
    ]
  ]
]

abbrev pub cached : Env → Text → TokenService → Option ApiToken
cached e h s = elim s.cache [ none ↦ none | some tc ↦ Cache.get (e.clock 0) h tc ]

unfoldable pub verify_hash : Env → Text → TokenService → Result ApiToken × TokenService
verify_hash e h s = elim (cached e h s) [
  | some t ↦ (check (e.clock 1) t, s)
  | none ↦ verify_stored e h s
]

-- what a raw token must look like before it is hashed
abbrev pub is_candidate : Text → Bool
is_candidate raw = not (is_empty raw || not (has_prefix raw token_mark))

module _ (sha256 : Text → List ℕ) where
  -- `random` is what `rand.Read` gives, `id` what `uuid.New` gives.
  unfoldable pub create :
      Env
      → Option (List ℕ)
      → ℕ
      → TokenCreateInput
      → TokenService
      → Result TokenCreateResult × TokenService
  unfolding new_record
  create e random id input s = elim s.repo [
    | none ↦ (err (new "database repository required to create tokens"), s)
    | some rows ↦ elim random [
      | none ↦ (err (new "failed to generate random entropy for token"), s)
      | some bytes ↦
          let raw_token : Text = token_mark ++ base64_raw_url bytes in
          let row = new_record sha256 e id raw_token input in
          elim (Repo.create e.column (e.fails 0) row rows) [
            | err x ↦ (err (wrap "failed to save api token to database" x), s)
            | ok rows' ↦ (
              ok (record { raw = raw_token; token = to_dto row }),
              record s { repo = some rows' },
            )
          ]
    ]
  ]

  unfoldable pub verify : Env → Text → TokenService → Result ApiToken × TokenService
  verify e raw_token s =
      let raw : Text = trim_space raw_token in
      if is_candidate raw
      then verify_hash e (hash_token sha256 raw) s
      else (err (sentinel err_invalid_token), s)

unfoldable pub revoke : Env → ℕ → TokenService → Result (Unit {0}) × TokenService
revoke e id s = elim s.repo [
  | none ↦ (err (new "database repository unavailable"), s)
  | some rows ↦ elim (Repo.revoke (e.fails 0) id rows) [
    | err x ↦ (err x, s)
    | ok rows' ↦ (
      ok tt,
      record s { repo = some rows'; cache = Option.map (Cache.invalidate_by_id id) s.cache },
    )
  ]
]

pub finish : ℕ → List ℕ → List ℕ
finish id [] = []
finish id (j ∷ js) = if j == id then js else j ∷ finish id js

-- The goroutine that `Verify` started for `id`; the goroutines run in any order.
unfoldable pub run_pending : Env → ℕ → TokenService → TokenService
unfolding finish
run_pending e id s = record s {
  repo = Option.map (Repo.update_last_used (e.fails 0) (e.column (e.clock 0)) id) s.repo;
  pending = finish id s.pending;
}

-- The cleanup loop of the cache.
unfoldable pub tick : Env → TokenService → TokenService
tick e s = record s { cache = Option.map (Cache.cleanup (e.clock 0)) s.cache }
