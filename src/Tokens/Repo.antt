-- ===== src/Tokens/Repo.antt =====
-- internal/repository/token.go: the table `api_tokens`, in the order of insertion. `fails` says that
-- the driver reports an error; that stands for every cause but the uniqueness of `id` and
-- `token_hash`, which the table declares (internal/database/database.go).
use realm_api.Common.{
  ℕ, ◌≡◌, Bool, true, false, ◌||◌, Option, none, some, List, [], ◌∷◌, ◌++◌, Text, any, any-or, eqb,
  ◌==◌, if◌then◌else◌, arith,
}
use realm_api.Errors.{sentinel, wrap, driver, err_token_not_found, Result, ok, err}
use realm_api.Tokens.{ApiToken}

abbrev pub Table : Type 0
Table = List ApiToken

-- `WHERE token_hash = $1`
unfoldable pub find_hash : Text → Table → Option ApiToken
find_hash h [] = none
find_hash h (t ∷ rows) = if eqb t.token_hash h then some t else find_hash h rows

abbrev pub has_id : ℕ → ApiToken → Bool
has_id id t = t.id == id

abbrev time_or_null : (ℕ → ℕ) → Option ℕ → Option ℕ
time_or_null column none = none
time_or_null column (some t) = some (column t)

-- The row of a token: `column` is what the columns keep of a time.
unfoldable pub as_row : (ℕ → ℕ) → ApiToken → ApiToken
as_row column t = record t {
  created_at = column t.created_at;
  last_used_at = time_or_null column t.last_used_at;
  expires_at = time_or_null column t.expires_at;
}

unfoldable pub create : (ℕ → ℕ) → Bool → ApiToken → Table → Result Table
unfolding as_row
create column fails token rows =
    if fails || any (λ t. eqb t.token_hash token.token_hash || has_id token.id t) rows
    then err (wrap "failed to insert api token" driver)
    else ok (rows ++ as_row column token ∷ [])

unfoldable pub get_by_hash : Bool → Text → Table → Result ApiToken
get_by_hash fails h rows =
    if fails
    then err (wrap "failed to query api token" driver)
    else elim (find_hash h rows) [ none ↦ err (sentinel err_token_not_found) | some t ↦ ok t ]

-- `UPDATE api_tokens SET is_revoked = true WHERE id = $1`
unfoldable pub revoke_rows : ℕ → Table → Table
revoke_rows id [] = []
revoke_rows id (t ∷ rows) =
    (if has_id id t then record t { is_revoked = true } else t) ∷ revoke_rows id rows

unfoldable pub revoke : Bool → ℕ → Table → Result Table
revoke fails id rows =
    if fails
    then err (wrap "failed to revoke api token" driver)
    else if any (has_id id) rows
    then ok (revoke_rows id rows)
    else err (sentinel err_token_not_found)

-- `UpdateLastUsed`, with the time that the column keeps; the only caller drops the error
unfoldable pub touch_rows : ℕ → ℕ → Table → Table
touch_rows id now [] = []
touch_rows id now (t ∷ rows) =
    (if has_id id t then record t { last_used_at = some now } else t) ∷ touch_rows id now rows

unfoldable pub update_last_used : Bool → ℕ → ℕ → Table → Table
update_last_used fails now id rows = if fails then rows else touch_rows id now rows

pub get_by_hash-eq-ok :
    (fails : Bool) (h : Text) (rows : Table) (t : ApiToken)
    → get_by_hash fails h rows ≡ ok t
    → find_hash h rows ≡ some t
unfolding get_by_hash
get_by_hash-eq-ok fails h rows t e = ground arith

pub create-eq-ok :
    (column : ℕ → ℕ) (fails : Bool) (t : ApiToken) (rows rows' : Table)
    → create column fails t rows ≡ ok rows'
    → (rows' ≡ rows ++ as_row column t ∷ [])
      × (any (λ u. eqb u.token_hash t.token_hash) rows ≡ false)
      × (any (has_id t.id) rows ≡ false)
unfolding create
create-eq-ok column fails t rows rows' e =
    ground (arith, any-or (λ u. eqb u.token_hash t.token_hash) (has_id t.id) rows)

pub revoke-eq-ok :
    (fails : Bool) (id : ℕ) (rows rows' : Table)
    → revoke fails id rows ≡ ok rows'
    → (rows' ≡ revoke_rows id rows) × (any (has_id id) rows ≡ true)
unfolding revoke
revoke-eq-ok fails id rows rows' e = ground arith
