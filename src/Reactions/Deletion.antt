-- ===== src/Reactions/Deletion.antt =====
-- internal/service/reaction.go: `GetReactions` and `DeleteReaction`, with `DeleteReaction` of
-- internal/repository/reaction.go. `uuid.Nil` is 0.
use realm_api.Common.{
  ℕ, Bool, not, Option, none, some, Text, keep, eqb, is_empty, trim_space, ◌==◌, if◌then◌else◌,
}
use realm_api.Errors.{Result, ok, err, sentinel, wrap, driver, err_empty_slug}
use realm_api.Env.{Env}
use realm_api.Reactions.{PostReaction, Table, PostReactionsResponse, by_user, get_reactions_by_slug}

unfoldable pub get_reactions : Env → Text → Option ℕ → Option Table → Result PostReactionsResponse
get_reactions e raw_slug user s =
    let slug : Text = trim_space raw_slug in
    if is_empty slug then err (sentinel err_empty_slug) else elim s [
      | none ↦
          ok (record { reactions = λ t. none; user_reaction = none; slug = slug; total_count = 0 })
      | some rows ↦ get_reactions_by_slug (e.fails 0) (e.fails 1) slug user rows
    ]

-- the rows of the post, or only that of the user
unfoldable pub is_target : Text → Option ℕ → PostReaction → Bool
is_target slug none p = eqb p.post_slug slug
is_target slug (some user) p = if user == 0 then eqb p.post_slug slug else by_user slug user p

unfoldable pub delete_rows : Bool → Text → Option ℕ → Table → Result Table
delete_rows fails slug user rows =
    if fails
    then err (wrap "failed to delete reaction" driver)
    else ok (keep (λ p. not (is_target slug user p)) rows)

-- The slug is not trimmed.
unfoldable pub delete_reaction : Bool → Text → Option ℕ → Option Table → Result (Option Table)
unfolding delete_rows
delete_reaction fails slug user none = ok none
delete_reaction fails slug user (some rows) = elim (delete_rows fails slug user rows) [
  | err x ↦ err x
  | ok left ↦ ok (some left)
]
