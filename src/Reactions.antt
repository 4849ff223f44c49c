-- ===== src/Reactions.antt =====
-- internal/model/reaction.go, internal/repository/reaction.go and internal/service/reaction.go:
-- reactions to posts. The table `post_reactions` has one row for a post and a user
-- (internal/database/database.go). The summaries for administrators are left out.
pub mod Laws
pub mod Toggle
pub mod Keys
pub mod Deletion
pub mod History
mod Tests
use realm_api.Common.{
  ℕ, Bool, true, false, ◌&&◌, ◌||◌, not, Option, none, some, List, [], ◌∷◌, ◌++◌, Text, txt, any,
  keep, length, eqb, is_empty, trim_space, to_lower, ◌==◌, ltb, if◌then◌else◌,
}
use realm_api.Errors.{
  Err, Result, ok, err, sentinel, wrap, driver, err_empty_slug, err_invalid_reaction,
  err_database_unavailable,
}
use realm_api.Env.{Env}

pub record PostReaction : Type 0 where
  pub created_at : ℕ
  pub post_slug : Text
  pub reaction_type : Text
  pub id : ℕ
  pub user_id : ℕ

abbrev pub Table : Type 0
Table = List PostReaction

unfoldable pub allowed_reaction_types : Text → Bool
allowed_reaction_types t =
    eqb t (txt "like")
    || eqb t (txt "love")
    || eqb t (txt "fire")
    || eqb t (txt "dislike")
    || eqb t (txt "frown")
    || eqb t (txt "skull")

-- `Reactions` maps a type to its count; a type that is not a key gives `none`. `UserReactions`, which
-- lists the one of `UserReaction`, is left out.
pub record PostReactionsResponse : Type 0 where
  pub reactions : Text → Option ℕ
  pub user_reaction : Option Text
  pub slug : Text
  pub total_count : ℕ

pub record ToggleReactionResponse : Type 0 where
  pub summary : PostReactionsResponse
  pub reaction : Text
  pub active : Bool

-- `WHERE post_slug = $1 AND user_id = $2`
abbrev pub by_user : Text → ℕ → PostReaction → Bool
by_user slug user p = eqb p.post_slug slug && p.user_id == user

unfoldable pub find : Text → ℕ → Table → Option PostReaction
find slug user [] = none
find slug user (p ∷ rows) = if by_user slug user p then some p else find slug user rows

abbrev pub of_type : Text → Text → PostReaction → Bool
of_type slug t p = eqb p.post_slug slug && eqb p.reaction_type t

-- `GROUP BY reaction_type`, over the counts of 0 for the allowed types
unfoldable pub count_of : Text → Table → Text → Option ℕ
count_of slug rows t =
    let n = length (keep (of_type slug t) rows) in
    if allowed_reaction_types t || ltb 0 n then some n else none

-- An error of the second query is dropped. `first` is the number of the first call.
unfoldable pub get_reactions_by_slug :
    Bool → Bool → Text → Option ℕ → Table → Result PostReactionsResponse
get_reactions_by_slug fails fails' slug user rows =
    if fails
    then err (wrap "failed to query reaction counts" driver)
    else ok (record {
      reactions = count_of slug rows;
      user_reaction = elim user [
        | none ↦ none
        | some u ↦
            if u == 0 || fails'
            then none
            else elim (find slug u rows) [ none ↦ none | some p ↦ some p.reaction_type ]
      ];
      slug = slug;
      total_count = length (keep (λ p. eqb p.post_slug slug) rows);
    })

abbrev pub has_id : ℕ → PostReaction → Bool
has_id id p = p.id == id

unfoldable pub delete_id : ℕ → Table → Table
delete_id id [] = []
delete_id id (p ∷ rows) = let rest = delete_id id rows in if has_id id p then rest else p ∷ rest

-- `UPDATE post_reactions SET reaction_type = $1, created_at = NOW() WHERE ...`
unfoldable pub set_type : (PostReaction → Bool) → ℕ → Text → Table → Table
set_type hit now t [] = []
set_type hit now t (p ∷ rows) =
    (if hit p then record p { reaction_type = t; created_at = now } else p)
    ∷ set_type hit now t rows

-- the transaction; an error of its first query counts as no row
unfoldable pub toggle_rows : Env → ℕ → Text → Text → ℕ → Table → Result (Bool × Table)
toggle_rows e id slug t user rows = elim (if e.fails 1 then none else find slug user rows) [
  | some p ↦
      if eqb p.reaction_type t
      then (if e.fails 2
          then err (wrap "failed to delete reaction" driver)
          else ok (false, delete_id p.id rows))
      else if e.fails 2
      then err (wrap "failed to update reaction" driver)
      else ok (true, set_type (has_id p.id) (e.clock 0) t rows)
  | none ↦
      if e.fails 2
      then err (wrap "failed to insert reaction" driver)
      else if any (by_user slug user) rows
      then ok (true, set_type (by_user slug user) (e.clock 0) t rows)
      else ok (
        true,
        rows
            ++ record {
              created_at = e.clock 0;
              post_slug = slug;
              reaction_type = t;
              id = id;
              user_id = user;
            }
              ∷ [],
      )
]

-- A failing commit leaves the table as it was; a failing summary does not.
unfoldable pub toggle_in_table :
    Env → ℕ → Text → Text → ℕ → Table → Result ToggleReactionResponse × Table
toggle_in_table e id slug t user rows =
    if e.fails 0
    then (err (wrap "failed to begin transaction" driver), rows)
    else elim (toggle_rows e id slug t user rows) [
      | err x ↦ (err x, rows)
      | ok (active, rows') ↦
          if e.fails 3
          then (err (wrap "failed to commit reaction transaction" driver), rows)
          else elim (get_reactions_by_slug (e.fails 4) (e.fails 5) slug (some user) rows') [
            | err x ↦ (err x, rows')
            | ok s ↦ (ok (record { summary = s; reaction = t; active = active }), rows')
          ]
    ]

unfoldable pub toggle_reaction :
    (ℕ → ℕ)
    → Env
    → ℕ
    → Text
    → Text
    → ℕ
    → Option Table
    → Result ToggleReactionResponse × Option Table
toggle_reaction table e id raw_slug raw_type user s =
    let slug : Text = trim_space raw_slug in
    let t : Text = to_lower table (trim_space raw_type) in
    if is_empty slug
    then (err (sentinel err_empty_slug), s)
    else if not (allowed_reaction_types t)
    then (err (sentinel err_invalid_reaction), s)
    else elim s [
      | none ↦ (err (sentinel err_database_unavailable), none)
      | some rows ↦ let (res, rows') = toggle_in_table e id slug t user rows in (res, some rows')
    ]
