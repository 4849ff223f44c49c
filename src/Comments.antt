-- ===== src/Comments.antt =====
-- internal/model/comment.go: comments on posts. Its parts: the nesting of a thread, the table and the
-- service. The profile columns that the queries join from `users` are left out.
pub mod Nest
pub mod Repo
pub mod Service
pub mod Threads
pub mod Invariant
pub mod Ownership
pub mod Shown
mod Tests
use realm_api.Common.{ℕ, Bool, Option, Text}

-- A row of the table `post_comments`.
pub record PostComment : Type 0 where
  pub created_at : ℕ
  pub updated_at : ℕ
  pub parent_id : Option ℕ
  pub post_slug : Text
  pub content : Text
  pub id : ℕ
  pub user_id : ℕ
  pub is_edited : Bool

-- `CommentDTO`, with its replies: the row, `IsAuthor`, `Replies`.
mutual
  pub data CommentDto : Type 0 where
    dto : PostComment → Bool → Replies → CommentDto

  pub data Replies : Type 0 where
    nil : Replies
    cons : CommentDto → Replies → Replies
