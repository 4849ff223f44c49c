-- ===== src/Users.antt =====
-- internal/model/user.go: users, their accounts at OAuth providers, and what a client is shown of them.
-- Its parts: the tables, names and passwords, the service of internal/service/auth.go.
pub mod Names
pub mod Repo
pub mod Service
mod Samples
mod Tests
mod AccountTests
use realm_api.Common.{
  ℕ, Bool, true, false, ◌&&◌, ◌||◌, not, Option, none, some, List, [], ◌∷◌, ◌++◌, Text, txt, any,
  eqb, is_empty, if◌then◌else◌,
}
use Prim.Native.String.{String}

-- A row of the table `users`.
pub record User : Type 0 where
  pub updated_at : ℕ
  pub created_at : ℕ
  pub provider_id : Option Text
  pub two_factor_secret : Option Text
  pub password_hash : Option Text
  pub avatar_url : Option Text
  pub full_name : Text
  pub provider : Text
  pub username : Text
  pub email : Text
  pub two_factor_recovery_codes : List Text
  pub id : ℕ
  pub two_factor_enabled : Bool
  pub is_active : Bool

-- A row of the table `user_oauth_accounts`.
pub record OAuthAccount : Type 0 where
  pub created_at : ℕ
  pub email : Option Text
  pub avatar_url : Option Text
  pub provider : Text
  pub provider_id : Text
  pub id : ℕ
  pub user_id : ℕ

pub record OAuthAccountDto : Type 0 where
  pub email : Option Text
  pub avatar_url : Option Text
  pub provider : Text

pub record UserDto : Type 0 where
  pub created_at : ℕ
  pub updated_at : ℕ
  pub avatar_url : Option Text
  pub email : Text
  pub username : Text
  pub full_name : Text
  pub provider : Text
  pub connected_providers : List Text
  pub connected_accounts : List OAuthAccountDto
  pub id : ℕ
  pub is_active : Bool
  pub has_password : Bool
  pub two_factor_enabled : Bool

pub record AuthResponse : Type 0 where
  pub status : String
  pub message : String
  pub token : Text
  pub temp_token : Text
  pub two_factor_required : Bool
  pub user : UserDto

-- The pointer is not nil, and what it points to is not empty.
abbrev pub is_given : Option Text → Bool
is_given none = false
is_given (some t) = not (is_empty t)

-- The provider is one of OAuth.
abbrev pub is_external : Text → Bool
is_external provider = not (is_empty provider) && not (eqb provider (txt "local"))

unfoldable pub to_dto : User → UserDto
to_dto u = record {
  created_at = u.created_at;
  updated_at = u.updated_at;
  avatar_url = u.avatar_url;
  email = u.email;
  username = u.username;
  full_name = u.full_name;
  provider = u.provider;
  connected_providers = if is_external u.provider then u.provider ∷ [] else [];
  connected_accounts =
      if is_external u.provider
      then record { email = some u.email; avatar_url = u.avatar_url; provider = u.provider } ∷ []
      else [];
  id = u.id;
  is_active = u.is_active;
  has_password = is_given u.password_hash;
  two_factor_enabled = u.two_factor_enabled;
}

-- `seenProviders` holds exactly the providers of the list.
unfoldable pub add_provider : Text → List Text → List Text
add_provider p ps = if any (eqb p) ps then ps else ps ++ p ∷ []

-- the inner loop over `accounts`: the first account at the provider is brought up to date
unfoldable pub merge_account : OAuthAccount → List OAuthAccountDto → List OAuthAccountDto
merge_account a [] =
    record { email = a.email; avatar_url = a.avatar_url; provider = a.provider } ∷ []
merge_account a (x ∷ xs) =
    let rest = merge_account a xs in
    if eqb x.provider a.provider
    then record x {
      avatar_url = if is_given a.avatar_url then a.avatar_url else x.avatar_url;
      email = if is_given a.email then a.email else x.email;
    }
      ∷ xs
    else x ∷ rest

-- the loop over `oauthAccounts`
unfoldable pub merge_accounts : List OAuthAccount → UserDto → UserDto
unfolding add_provider merge_account
merge_accounts [] d = d
merge_accounts (a ∷ accounts) d = merge_accounts accounts (record d {
  connected_providers = add_provider a.provider d.connected_providers;
  connected_accounts = merge_account a d.connected_accounts;
})

unfoldable pub to_dto_with_accounts : User → List OAuthAccount → UserDto
unfolding to_dto merge_accounts
to_dto_with_accounts u accounts = merge_accounts accounts (to_dto u)
