-- ===== src/Comments/Nest.antt =====
-- The loops of `GetCommentsBySlug` (internal/repository/comment.go) that turn the rows of a post into
-- a tree. `commentMap` points into the slice `allComments`; here it maps an identifier to the replies
-- that the slice holds at its element. `item := allComments[i]` copies the element with the replies
-- that it has at that moment.
pub mod Shape
use realm_api.Common.{
  ℕ, Bool, true, false, Option, none, some, List, [], ◌∷◌, ◌++◌, map, ℕ_discrete, ◌==◌, not, ◌&&◌,
}
use realm_api.GoMap
use realm_api.Comments.{PostComment, CommentDto, dto, Replies, nil, cons}

abbrev pub CommentMap : Type 0
CommentMap = List (ℕ × Replies)

-- `parent.Replies = append(parent.Replies, item)`
unfoldable pub append : Replies → CommentDto → Replies
append nil d = cons d nil
append (cons c rs) d = cons c (append rs d)

-- `currentUserID != nil && *currentUserID != uuid.Nil` and `*currentUserID == cUserID`
unfoldable pub is_author : Option ℕ → PostComment → Bool
is_author none c = false
is_author (some u) c = not (u == 0) && u == c.user_id

unfoldable pub replies_of : ℕ → CommentMap → Replies
replies_of id m = elim (GoMap.get ℕ_discrete id m) [ none ↦ nil | some rs ↦ rs ]

-- the loop that fills `commentMap`
unfoldable pub index : List PostComment → CommentMap
index [] = []
index (c ∷ cs) = GoMap.put ℕ_discrete c.id nil (index cs)

pub record Placed : Type 0 where
  pub comment_map : CommentMap
  pub root_comments : List CommentDto

unfoldable pub add_root : CommentDto → Placed → Placed
add_root item p = record p { root_comments = p.root_comments ++ item ∷ [] }

module _ (current_user : Option ℕ) where
  -- one round of the loop that fills `rootComments`
  unfoldable pub place : PostComment → Placed → Placed
  unfolding add_root
  place c p =
      let item = dto c (is_author current_user c) (replies_of c.id p.comment_map) in
      elim c.parent_id [
        | none ↦ add_root item p
        | some parent ↦ elim (GoMap.get ℕ_discrete parent p.comment_map) [
          | none ↦ add_root item p
          | some rs ↦ record p {
            comment_map = GoMap.put ℕ_discrete parent (append rs item) p.comment_map;
          }
        ]
      ]

  unfoldable pub place_all : List PostComment → Placed → Placed
  unfolding place
  place_all [] p = p
  place_all (c ∷ cs) p = place_all cs (place c p)

-- `rootComments[i].Replies = ptr.Replies`
unfoldable pub refresh : CommentMap → CommentDto → CommentDto
refresh m (dto c mine rs) = elim (GoMap.get ℕ_discrete c.id m) [
  | none ↦ dto c mine rs
  | some new ↦ dto c mine new
]

unfoldable pub nest : Option ℕ → List PostComment → List CommentDto
unfolding place_all refresh index
nest current_user rows =
    let p = place_all current_user rows (record { comment_map = index rows; root_comments = [] }) in
    map (refresh p.comment_map) p.root_comments
