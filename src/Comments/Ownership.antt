-- ===== src/Comments/Ownership.antt =====
-- internal/service/comment.go: what `UpdateComment` and `DeleteComment` can do to a table, whoever
-- calls them.
use realm_api.Common.{
  ℕ, ◌≡◌, ◌⊎◌, refl, Bool, true, false, none, some, [], ◌∷◌, Text, any, trim_space, if◌then◌else◌,
  arith, Option-cases, Bool-cases, inl, inr,
}
use realm_api.Errors.{Err, err, wrap, driver, new}
use realm_api.Env.{Env}
use realm_api.Comments.{PostComment}
use realm_api.Comments.Repo
use realm_api.Comments.Repo.{Table, has_id, owned, find, update_rows, edited}
use realm_api.Comments.Service
use realm_api.Comments.Service.{content_error}

-- Row by row: unchanged, or a comment `id` of `user` of which the content, the mark of the edit and
-- its time are new.
abbrev pub Touched : ℕ → ℕ → Table → Table → Type 0
Touched id user [] [] = Unit
Touched id user [] (d ∷ ds) = ⊥
Touched id user (c ∷ cs) [] = ⊥
Touched id user (c ∷ cs) (d ∷ ds) =
    ((d ≡ c)
      ⊎ ((owned id user c ≡ true)
          × (d.id ≡ c.id)
          × (d.user_id ≡ c.user_id)
          × (d.parent_id ≡ c.parent_id)
          × (d.post_slug ≡ c.post_slug)
          × (d.created_at ≡ c.created_at)))
    × Touched id user cs ds

Touched-refl : (id user : ℕ) (rows : Table) → Touched id user rows rows
Touched-refl id user [] = tt
Touched-refl id user (c ∷ rows) = (inl refl, Touched-refl id user rows)

update_rows-Touched :
    (id user now : ℕ) (content : Text) (rows : Table)
    → Touched id user rows (update_rows (owned id user) now content rows)
unfolding update_rows
update_rows-Touched id user now content [] = tt
update_rows-Touched id user now content (c ∷ rows) = (
  elim (Bool-cases (owned id user c)) [
    | inl mine ↦ rw mine (inr (refl, refl, refl, refl, refl, refl))
    | inr other ↦ rw other (inl refl)
  ],
  update_rows-Touched id user now content rows,
)

find-none : (hit : PostComment → Bool) (rows : Table) → any hit rows ≡ false → find hit rows ≡ none
unfolding find
find-none hit [] h = refl
find-none hit (c ∷ rows) h = ground (arith, find-none hit rows)

-- Whatever a user sends, `UpdateComment` leaves a table in which every row is as before, but for a
-- comment of that user with that identifier, which keeps its author, its post, its parent and the
-- time it was made.
update_comment-Touched :
    (e : Env) (id user : ℕ) (content : Text) (rows : Table)
    → (after : Table) × ((Service.update_comment e id user content (some rows)).1 ≡ some after)
      × Touched id user rows after
unfolding Service.update_comment Repo.update_comment
update_comment-Touched e id user content rows =
    elim (Option-cases (content_error (trim_space content))) [
      | inr (x, bad) ↦ (rows, ground arith, Touched-refl id user rows)
      | inl good ↦ elim (Option-cases (if e.fails 0 then none else find (owned id user) rows)) [
        | inl missing ↦ (rows, ground arith, Touched-refl id user rows)
        | inr (c, found) ↦ (
          update_rows (owned id user) (e.clock 0) (trim_space content) rows,
          ground arith,
          update_rows-Touched id user (e.clock 0) (trim_space content) rows,
        )
      ]
    ]

-- For a user who has no comment with that identifier, both `UpdateComment` and `DeleteComment` give an
-- error and leave the table as it is.
refuse_stranger :
    (e : Env) (id user : ℕ) (content : Text) (rows : Table)
    → any (owned id user) rows ≡ false
    → ((x : Err) × (Service.update_comment e id user content (some rows) ≡ (err x, some rows)))
      × ((x : Err) × (Service.delete_comment e id user (some rows) ≡ (err x, some rows)))
unfolding Service.update_comment Repo.update_comment Service.delete_comment Repo.delete_comment
refuse_stranger e id user content rows h =
    let unknown = find-none (owned id user) rows h in
    (
      elim (Option-cases (content_error (trim_space content))) [
        | inr (x, bad) ↦ (x, ground arith)
        | inl good ↦ (wrap "failed to update comment" driver, ground arith)
      ],
      elim (Bool-cases (e.fails 0)) [
        | inl down ↦ (wrap "failed to delete comment" driver, ground arith)
        | inr up ↦ (new "comment not found or unauthorized", ground arith)
      ],
    )
