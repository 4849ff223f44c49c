-- ===== src/Tokens/Listing.antt =====
-- `GetByID` and `List` of internal/repository/token.go, and `List` of internal/service/token.go.
use realm_api.Common.{
  ℕ, ◌≡◌, ◌∙◌, refl, Bool, true, false, ◌||◌, not, Option, none, some, List, [], ◌∷◌, map, any, leb,
  if◌then◌else◌, arith, Bool-cases, inl, inr,
}
use realm_api.Errors.{Result, ok, err, sentinel, new, wrap, driver, err_token_not_found}
use realm_api.Tokens.{ApiToken}
use realm_api.Tokens.Repo.{Table, has_id}
use realm_api.Tokens.Service.{TokenDto, TokenService, to_dto}

unfoldable pub find_id : ℕ → Table → Option ApiToken
find_id id [] = none
find_id id (t ∷ rows) = if has_id id t then some t else find_id id rows

unfoldable pub get_by_id : Bool → ℕ → Table → Result ApiToken
unfolding find_id
get_by_id fails id rows =
    if fails
    then err (wrap "failed to query api token by id" driver)
    else elim (find_id id rows) [ none ↦ err (sentinel err_token_not_found) | some t ↦ ok t ]

-- `ORDER BY created_at DESC`; the query leaves the order of equal times open.
unfoldable pub insert_newest : ApiToken → Table → Table
insert_newest t [] = t ∷ []
insert_newest t (u ∷ rows) =
    let rest = insert_newest t rows in
    if leb u.created_at t.created_at then t ∷ u ∷ rows else u ∷ rest

unfoldable pub newest_first : Table → Table
unfolding insert_newest
newest_first [] = []
newest_first (t ∷ rows) = insert_newest t (newest_first rows)

unfoldable pub list_rows : Bool → Table → Result Table
unfolding newest_first
list_rows fails rows =
    if fails then err (wrap "failed to list api tokens" driver) else ok (newest_first rows)

unfoldable pub list : Bool → TokenService → Result (List TokenDto)
unfolding list_rows
list fails s = elim s.repo [
  | none ↦ err (new "database repository unavailable")
  | some rows ↦ elim (list_rows fails rows) [ err x ↦ err x | ok ts ↦ ok (map to_dto ts) ]
]

abbrev is_newer : ℕ → TokenDto → Bool
is_newer time d = not (leb d.created_at time)

-- No row is newer than one before it.
abbrev IsNewestFirst : List TokenDto → Type 0
IsNewestFirst [] = Unit
IsNewestFirst (d ∷ ds) = (any (is_newer d.created_at) ds ≡ false) × IsNewestFirst ds

any-insert_newest :
    (q : TokenDto → Bool) (t : ApiToken) (rows : Table)
    → any q (map to_dto (insert_newest t rows)) ≡ (q (to_dto t) || any q (map to_dto rows))
unfolding insert_newest
any-insert_newest q t [] = refl
any-insert_newest q t (u ∷ rows) = ground (arith, any-insert_newest q t rows)

any-newest_first :
    (q : TokenDto → Bool) (rows : Table)
    → any q (map to_dto (newest_first rows)) ≡ any q (map to_dto rows)
unfolding newest_first
any-newest_first q [] = refl
any-newest_first q (t ∷ rows) =
    any-insert_newest q t (newest_first rows) ∙ rw (any-newest_first q rows) refl

any-is_newer :
    (m n : ℕ) (ds : List TokenDto)
    → leb m n ≡ true
    → any (is_newer m) ds ≡ false
    → any (is_newer n) ds ≡ false
any-is_newer m n [] h k = refl
any-is_newer m n (d ∷ ds) h k = ground (arith, any-is_newer m n ds)

insert_newest-IsNewestFirst :
    (t : ApiToken) (rows : Table)
    → IsNewestFirst (map to_dto rows)
    → IsNewestFirst (map to_dto (insert_newest t rows))
unfolding insert_newest
insert_newest-IsNewestFirst t [] v = (refl, tt)
insert_newest-IsNewestFirst t (u ∷ rows) v =
    let later = any-is_newer u.created_at t.created_at (map to_dto rows) in
    let all = any-insert_newest (is_newer u.created_at) t rows in
    let rest = insert_newest-IsNewestFirst t rows v.1 in
    elim (Bool-cases (leb u.created_at t.created_at)) [
      | inl first ↦ rw first (ground (arith, later first v.0), v)
      | inr after ↦ rw after (ground arith, rest)
    ]

newest_first-IsNewestFirst : (rows : Table) → IsNewestFirst (map to_dto (newest_first rows))
unfolding newest_first
newest_first-IsNewestFirst [] = tt
newest_first-IsNewestFirst (t ∷ rows) =
    insert_newest-IsNewestFirst t (newest_first rows) (newest_first-IsNewestFirst rows)

-- If its query does not fail, `List` gives what the table holds, without the hashes, and the newest
-- first.
list_lem :
    (s : TokenService) (rows : Table)
    → s.repo ≡ some rows
    → (ds : List TokenDto) × (list false s ≡ ok ds)
      × IsNewestFirst ds
      × ((q : TokenDto → Bool) → any q ds ≡ any q (map to_dto rows))
unfolding list
list_lem s rows h = (
  map to_dto (newest_first rows),
  rw h refl,
  newest_first-IsNewestFirst rows,
  λ q. any-newest_first q rows,
)
