-- ===== src/Comments/Repo.antt =====
-- internal/repository/comment.go: the table `post_comments`, in the order of insertion, which is that
-- of `created_at`. `fails` stands for every error of the driver but those of its keys: `id` is the
-- primary key, and `parent_id` refers to a row, with ON DELETE CASCADE
-- (internal/database/database.go).
use realm_api.Common.{
  ℕ, Bool, true, false, ◌&&◌, ◌||◌, not, Option, none, some, List, [], ◌∷◌, ◌++◌, Text, any, keep,
  length, eqb, ◌==◌, if◌then◌else◌,
}
use realm_api.Errors.{Result, ok, err, new, wrap, driver}
use realm_api.Comments.{PostComment, CommentDto, dto, nil}
use realm_api.Comments.Nest.{nest}

abbrev pub Table : Type 0
Table = List PostComment

-- `CommentsListResponse`
pub record CommentsListResponse : Type 0 where
  pub slug : Text
  pub total_count : ℕ
  pub comments : List CommentDto

abbrev pub in_post : Text → PostComment → Bool
in_post slug c = eqb c.post_slug slug

unfoldable pub get_comments_by_slug : Bool → Text → Option ℕ → Table → Result CommentsListResponse
get_comments_by_slug fails slug current_user rows =
    if fails
    then err (wrap "failed to query comments" driver)
    else (let found = keep (in_post slug) rows in
        ok (record { slug = slug; total_count = length found; comments = nest current_user found }))

abbrev pub has_id : ℕ → PostComment → Bool
has_id id c = c.id == id

-- the foreign key; a row may refer to itself
unfoldable pub refers : ℕ → Option ℕ → Table → Bool
refers id none rows = true
refers id (some p) rows = p == id || any (has_id p) rows

-- `id` and `now` are what the table chooses.
unfoldable pub create_comment :
    Bool → ℕ → ℕ → Text → ℕ → Option ℕ → Text → Table → Result CommentDto × Table
unfolding refers
create_comment fails id now slug user parent content rows =
    let row : PostComment = record {
      created_at = now;
      updated_at = now;
      parent_id = parent;
      post_slug = slug;
      content = content;
      id = id;
      user_id = user;
      is_edited = false;
    } in
    if fails || any (has_id id) rows || not (refers id parent rows)
    then (err (wrap "failed to insert comment" driver), rows)
    else (ok (dto row true nil), rows ++ row ∷ [])

abbrev pub edited : ℕ → Text → PostComment → PostComment
edited now content c = record c { content = content; is_edited = true; updated_at = now }

-- `UPDATE post_comments SET ... WHERE ...`
unfoldable pub update_rows : (PostComment → Bool) → ℕ → Text → Table → Table
update_rows hit now content [] = []
update_rows hit now content (c ∷ rows) =
    (if hit c then edited now content c else c) ∷ update_rows hit now content rows

unfoldable pub find : (PostComment → Bool) → Table → Option PostComment
find hit [] = none
find hit (c ∷ rows) = if hit c then some c else find hit rows

-- `WHERE id = $2 AND user_id = $3`
abbrev pub owned : ℕ → ℕ → PostComment → Bool
owned id user c = has_id id c && c.user_id == user

unfoldable pub update_comment : Bool → ℕ → ℕ → ℕ → Text → Table → Result CommentDto × Table
update_comment fails now id user content rows =
    elim (if fails then none else find (owned id user) rows) [
      | none ↦ (err (wrap "failed to update comment" driver), rows)
      | some c ↦
          (ok (dto (edited now content c) true nil), update_rows (owned id user) now content rows)
    ]

unfoldable pub admin_update : Bool → ℕ → ℕ → Text → Table → Result CommentDto × Table
admin_update fails now id content rows = elim (if fails then none else find (has_id id) rows) [
  | none ↦ (err (wrap "failed to admin update comment" driver), rows)
  | some c ↦ (ok (dto (edited now content c) false nil), update_rows (has_id id) now content rows)
]

-- The row answers one of the rows that are gone.
abbrev pub orphaned : List ℕ → PostComment → Bool
orphaned gone c = elim c.parent_id [ none ↦ false | some p ↦ any (λ g. g == p) gone ]

-- The rows that a `DELETE` leaves: those that it hits go, and with them, since a row comes after the
-- one that it answers, all that answer a row that went.
unfoldable pub cascade : (PostComment → Bool) → List ℕ → Table → Table
cascade hit gone [] = []
cascade hit gone (c ∷ rows) =
    let with_c = cascade hit (c.id ∷ gone) rows in
    let without = cascade hit gone rows in if hit c || orphaned gone c then with_c else c ∷ without

unfoldable pub delete_comment : Bool → ℕ → ℕ → Table → Result (Unit {0}) × Table
delete_comment fails id user rows =
    if fails
    then (err (wrap "failed to delete comment" driver), rows)
    else if any (owned id user) rows
    then (ok tt, cascade (owned id user) [] rows)
    else (err (new "comment not found or unauthorized"), rows)

unfoldable pub admin_delete : Bool → ℕ → Table → Result (Unit {0}) × Table
admin_delete fails id rows =
    if fails
    then (err (wrap "failed to delete comment" driver), rows)
    else if any (has_id id) rows
    then (ok tt, cascade (has_id id) [] rows)
    else (err (new "comment not found"), rows)

unfoldable pub get_comment_by_id : Bool → ℕ → Table → Result PostComment
get_comment_by_id fails id rows = elim (if fails then none else find (has_id id) rows) [
  | none ↦ err (wrap "comment not found" driver)
  | some c ↦ ok c
]
