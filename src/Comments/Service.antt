-- ===== src/Comments/Service.antt =====
-- internal/service/comment.go. The state is the table, or nothing where the server has no database.
use realm_api.Common.{
  ℕ, Bool, Option, none, some, [], Text, length, is_empty, trim_space, eqb, ltb, ◌==◌,
  if◌then◌else◌,
}
use realm_api.Errors.{
  Err, Result, ok, err, map, sentinel, new, err_empty_slug, err_empty_comment, err_comment_too_long,
  err_database_unavailable,
}
use realm_api.Env.{Env}
use realm_api.Comments.{CommentDto}
use realm_api.Comments.Repo
use realm_api.Comments.Repo.{Table, CommentsListResponse}

abbrev pub max_comment_length : ℕ
max_comment_length = 2000

abbrev pub Store : Type 0
Store = Option Table

unfoldable pub get_comments : Env → Text → Option ℕ → Store → Result CommentsListResponse
get_comments e raw_slug current_user s =
    let slug : Text = trim_space raw_slug in
    if is_empty slug then err (sentinel err_empty_slug) else elim s [
      | none ↦ ok (record { slug = slug; total_count = 0; comments = [] })
      | some rows ↦ Repo.get_comments_by_slug (e.fails 0) slug current_user rows
    ]

-- the tests of a content that is already trimmed
unfoldable pub content_error : Text → Option Err
content_error content =
    if is_empty content
    then some (sentinel err_empty_comment)
    else if ltb max_comment_length (length content)
    then some (sentinel err_comment_too_long)
    else none

-- the parent of a new comment exists and stands in the same post
unfoldable pub parent_error : Bool → Text → Option ℕ → Table → Option Err
parent_error fails slug none rows = none
parent_error fails slug (some p) rows =
    if p == 0 then none else elim (Repo.get_comment_by_id fails p rows) [
      | err x ↦ some (new "parent comment not found")
      | ok c ↦
          if eqb c.post_slug slug
          then none
          else some (new "parent comment does not belong to this post")
    ]

-- `id` is what the table chooses for the new row.
unfoldable pub create_comment :
    Env → ℕ → Text → ℕ → Text → Option ℕ → Store → Result CommentDto × Store
unfolding content_error parent_error
create_comment e id raw_slug user raw_content parent s =
    let slug : Text = trim_space raw_slug in
    let content : Text = trim_space raw_content in
    if is_empty slug then (err (sentinel err_empty_slug), s) else elim (content_error content) [
      | some x ↦ (err x, s)
      | none ↦ elim s [
        | none ↦ (err (sentinel err_database_unavailable), none)
        | some rows ↦ elim (parent_error (e.fails 0) slug parent rows) [
          | some x ↦ (err x, some rows)
          | none ↦
              let (res, rows') =
                Repo.create_comment (e.fails 1) id (e.clock 0) slug user parent content rows in
              (res, some rows')
        ]
      ]
    ]

unfoldable pub update_comment : Env → ℕ → ℕ → Text → Store → Result CommentDto × Store
unfolding content_error
update_comment e id user raw_content s =
    let content : Text = trim_space raw_content in
    elim (content_error content) [
      | some x ↦ (err x, s)
      | none ↦ elim s [
        | none ↦ (err (sentinel err_database_unavailable), none)
        | some rows ↦
            let (res, rows') = Repo.update_comment (e.fails 0) (e.clock 0) id user content rows in
            (res, some rows')
      ]
    ]

unfoldable pub delete_comment : Env → ℕ → ℕ → Store → Result (Unit {0}) × Store
delete_comment e id user none = (ok tt, none)
delete_comment e id user (some rows) =
    let (res, rows') = Repo.delete_comment (e.fails 0) id user rows in (res, some rows')

unfoldable pub admin_delete_comment : Env → ℕ → Store → Result (Unit {0}) × Store
admin_delete_comment e id none = (ok tt, none)
admin_delete_comment e id (some rows) =
    let (res, rows') = Repo.admin_delete (e.fails 0) id rows in (res, some rows')

-- Without a database there is neither a comment nor an error.
unfoldable pub admin_update_comment : Env → ℕ → Text → Store → Result (Option CommentDto) × Store
unfolding content_error
admin_update_comment e id raw_content s =
    let content : Text = trim_space raw_content in
    elim (content_error content) [
      | some x ↦ (err x, s)
      | none ↦ elim s [
        | none ↦ (ok none, none)
        | some rows ↦
            let (res, rows') = Repo.admin_update (e.fails 0) (e.clock 0) id content rows in
            (map some res, some rows')
      ]
    ]
