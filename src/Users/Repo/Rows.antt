-- ===== src/Users/Repo/Rows.antt =====
-- Lemmas on the queries of internal/repository/user.go.
use realm_api.Common.{
  ℕ, ◌≡◌, inl, inr, Bool, true, false, some, List, [], ◌∷◌, ◌++◌, any, arith, Option-cases,
}
use realm_api.Errors.{ok}
use realm_api.Users.{User}
use realm_api.Users.Repo.{Db, find, has_id, get_by_id}
use realm_api.Users.Repo.Update.{set_row}

-- A query that succeeds has found a row.
pub get_by_id-eq-ok :
    (fails : Bool) (id : ℕ) (db : Db) (u : User)
    → get_by_id fails id db ≡ ok u
    → find (has_id id) db.users ≡ some u
unfolding get_by_id
get_by_id-eq-ok fails id db u h = elim (Option-cases (find (has_id id) db.users)) [
  | inl missing ↦ absurd (ground arith)
  | inr (v, found) ↦ ground arith
]

pub get_by_id-found :
    (id : ℕ) (db : Db) (u : User)
    → find (has_id id) db.users ≡ some u
    → get_by_id false id db ≡ ok u
unfolding get_by_id
get_by_id-found id db u h = rw h

pub find-append :
    (hit : User → Bool) (users : List User) (u : User)
    → any hit users ≡ false
    → hit u ≡ true
    → find hit (users ++ u ∷ []) ≡ some u
unfolding find
find-append hit [] u h k = ground arith
find-append hit (v ∷ users) u h k = ground (arith, find-append hit users u)

-- A change of the row `id` that keeps its identifier is what the next query by identifier reads.
pub find-set_row :
    (id : ℕ) (change : User → User)
    → ((u : User) → (change u).id ≡ u.id)
    → (users : List User) (u : User) → find (has_id id) users ≡ some u
    → find (has_id id) (set_row id change users) ≡ some (change u)
unfolding find set_row
find-set_row id change keeps [] u h = cc
find-set_row id change keeps (v ∷ users) u h =
    ground (arith, keeps v, find-set_row id change keeps users u)
