-- ===== src/Tokens.antt =====
-- internal/model/token.go: an API token. Its parts: scopes, the table, the service with its cache.
pub mod Scopes
pub mod Repo
pub mod Secret
pub mod Service
pub mod Listing
mod Tests
use realm_api.Common.{ℕ, Bool, Option, List, Text}

-- A row of the table `api_tokens`. Identifiers are numbers, times nanoseconds.
pub record ApiToken : Type 0 where
  pub created_at : ℕ
  pub last_used_at : Option ℕ
  pub expires_at : Option ℕ
  pub name : Text
  pub token_prefix : Text
  pub token_hash : Text
  pub scopes : List Text
  pub rate_limit_rpm : ℕ
  pub id : ℕ
  pub is_revoked : Bool
