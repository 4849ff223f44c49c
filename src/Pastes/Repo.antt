-- ===== src/Pastes/Repo.antt =====
-- internal/repository/paste.go: the table `pastes`. `slug` is unique (internal/database/database.go);
-- `fails` stands for every other error of the driver.
use realm_api.Common.{
  ℕ, zero, suc, ◌+◌, ◌-◌, Bool, false, Option, none, some, List, [], ◌∷◌, ◌++◌, Text, any, eqb, ltb,
  is_empty, if◌then◌else◌,
}
use realm_api.Errors.{
  Result, ok, err, sentinel, new, wrap, driver, err_paste_not_found, err_paste_expired,
}
use realm_api.Env.{Env}
use realm_api.Pastes.{Paste}

abbrev pub Table : Type 0
Table = List Paste

-- `slugLetters[num]`, for a number below 52
unfoldable pub slug_letter : ℕ → ℕ
slug_letter n = if ltb n 26 then n + b'a' else n - 26 + b'A'

-- `Generate7LetterSlug`: `draw i` is what `rand.Int` gives in round i, of which
-- `left` are to come.
unfoldable pub generate_slug : (ℕ → Option ℕ) → ℕ → ℕ → Result Text
unfolding slug_letter
generate_slug draw i zero = ok []
generate_slug draw i (suc left) =
    let rest = generate_slug draw (suc i) left in
    elim (draw i) [
      | none ↦ err (wrap "failed to generate random slug" driver)
      | some n ↦ elim rest [ err x ↦ err x | ok s ↦ ok (slug_letter n ∷ s) ]
    ]

abbrev pub slug_length : ℕ
slug_length = 7

abbrev pub has_slug : Text → Paste → Bool
has_slug slug p = eqb p.slug slug

-- the slug of an attempt: a new one, but for a first attempt that brings its own
unfoldable pub attempt_slug : (ℕ → Option ℕ) → ℕ → Text → Result Text
attempt_slug draw zero slug = if is_empty slug then generate_slug draw 0 slug_length else ok slug
attempt_slug draw (suc n) slug = generate_slug draw 0 slug_length

-- What the table makes of a paste: `views` starts at 0.
abbrev pub stored : ℕ → ℕ → Text → Paste → Paste
stored id now slug p = record p {
  created_at = now;
  updated_at = now;
  slug = slug;
  views = 0;
  id = id;
}

-- The loop over the attempts, `left` of them from `attempt` on; `fails` and `draw` are asked for each.
unfoldable pub try_create :
    Env → (ℕ → ℕ → Option ℕ) → ℕ → ℕ → ℕ → Text → Paste → Table → Result Paste × Table
try_create e draw id zero attempt slug p rows =
    (err (new "failed to generate unique 7-letter slug after multiple attempts"), rows)
try_create e draw id (suc left) attempt slug p rows =
    elim (attempt_slug (draw attempt) attempt slug) [
      | err x ↦ (err x, rows)
      | ok slug' ↦
          let again = try_create e draw id left (suc attempt) slug' p rows in
          let row = stored id (e.clock attempt) slug' p in
          if e.fails attempt
          then (err (wrap "failed to create paste" driver), rows)
          else if any (has_slug slug') rows
          then again
          else (ok row, rows ++ row ∷ [])
    ]

abbrev pub max_retries : ℕ
max_retries = 5

unfoldable pub create_paste : Env → (ℕ → ℕ → Option ℕ) → ℕ → Paste → Table → Result Paste × Table
create_paste e draw id p rows = try_create e draw id max_retries 0 p.slug p rows

unfoldable pub find_slug : Text → Table → Option Paste
find_slug slug [] = none
find_slug slug (p ∷ rows) = if has_slug slug p then some p else find_slug slug rows

unfoldable pub delete_slug : Text → Table → Table
delete_slug slug [] = []
delete_slug slug (p ∷ rows) =
    let rest = delete_slug slug rows in if has_slug slug p then rest else p ∷ rest

-- `p.ExpiresAt.Before(now)`
unfoldable pub is_expired : ℕ → Option ℕ → Bool
is_expired now none = false
is_expired now (some x) = ltb x now

-- The second call deletes a paste that burns; its error is dropped.
unfoldable pub get_paste_by_slug : Env → Text → Table → Result Paste × Table
get_paste_by_slug e slug rows =
    if e.fails 0
    then (err (wrap "failed to get paste" driver), rows)
    else elim (find_slug slug rows) [
      | none ↦ (err (sentinel err_paste_not_found), rows)
      | some p ↦
          if is_expired (e.clock 0) p.expires_at
          then (err (sentinel err_paste_expired), rows)
          else if p.burn_after_read
          then (ok p, if e.fails 1 then rows else delete_slug slug rows)
          else (ok p, rows)
    ]

-- `UPDATE pastes SET views = views + 1`
unfoldable pub view_rows : Text → Table → Table
view_rows slug [] = []
view_rows slug (p ∷ rows) =
    (if has_slug slug p then record p { views = p.views + 1 } else p) ∷ view_rows slug rows

unfoldable pub increment_views : Bool → Text → Table → Table
increment_views fails slug rows = if fails then rows else view_rows slug rows

unfoldable pub delete_paste : Bool → Text → Table → Result (Unit {0}) × Table
delete_paste fails slug rows =
    if fails
    then (err (wrap "failed to delete paste" driver), rows)
    else if any (has_slug slug) rows
    then (ok tt, delete_slug slug rows)
    else (err (sentinel err_paste_not_found), rows)
