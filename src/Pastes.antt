-- ===== src/Pastes.antt =====
-- internal/model/paste.go: pastes. Its parts: the encryption, the table, the service.
pub mod Crypto
pub mod Repo
pub mod Service
pub mod Laws
pub mod Roundtrip
mod Tests
use realm_api.Common.{ℕ, Bool, Option, Text}

-- A row of the table `pastes`.
pub record Paste : Type 0 where
  pub created_at : ℕ
  pub updated_at : ℕ
  pub user_id : Option ℕ
  pub expires_at : Option ℕ
  pub slug : Text
  pub title : Text
  pub content : Text
  pub syntax : Text
  pub views : ℕ
  pub id : ℕ
  pub is_public : Bool
  pub is_encrypted : Bool
  pub burn_after_read : Bool

-- `ExpiresAt` is `none` also where the request has the zero time.
pub record CreatePasteRequest : Type 0 where
  pub expires_at : Option ℕ
  pub is_public : Option Bool
  pub burn_after_read : Option Bool
  pub title : Text
  pub content : Text
  pub syntax : Text
  pub password : Text
  pub ttl : Text
