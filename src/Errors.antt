-- ===== src/Errors.antt =====
-- The errors of internal/auth, internal/security, internal/repository, internal/service and
-- internal/storage: the sentinels, and what `fmt.Errorf` and `errors.New` make. A call of the
-- database driver fails with `driver`.
use Prim.Native.String.{String}
use realm_api.Common.{Bool, false, ◌≡◌, ◌⊎◌, inl, inr, refl, holds}

pub data Sentinel : Type 0 where
  -- internal/auth/paseto.go
  paseto_invalid_token paseto_expired_token : Sentinel
  -- internal/service/token.go
  err_invalid_token err_token_expired err_token_revoked err_token_forbidden : Sentinel
  -- internal/service/auth.go
  err_invalid_credentials err_invalid_email err_invalid_username err_password_too_short : Sentinel
  err_password_too_long err_full_name_required err_username_taken : Sentinel
  err_current_password_req err_current_password_bad err_database_unavailable : Sentinel
  err_unverified_oauth_email err_account_deactivated : Sentinel
  -- internal/repository
  err_user_not_found err_user_already_exists err_oauth_account_linked : Sentinel
  err_cannot_unlink_last_auth err_record_not_found err_token_not_found : Sentinel
  err_paste_not_found err_paste_expired err_post_not_found err_admin_not_found : Sentinel
  -- internal/service/comment.go, reaction.go and storage.go; internal/storage/storage.go
  err_empty_comment err_comment_too_long err_comment_not_found : Sentinel
  err_unauthorized_comment_action err_invalid_reaction err_empty_slug : Sentinel
  err_file_too_large err_file_not_found : Sentinel
  -- internal/service/paste.go and internal/security/paste_crypto.go
  err_empty_paste_content err_paste_too_large err_password_required : Sentinel
  -- internal/service/post.go
  err_empty_title : Sentinel
  err_invalid_password err_corrupted_ciphertext : Sentinel

unfoldable pub Sentinel-discrete : Discrete Sentinel
Sentinel-discrete = hlevel

pub data Err : Type 0 where
  sentinel : Sentinel → Err
  -- `errors.New(message)`
  new : String → Err
  -- `fmt.Errorf("message: %w", err)`
  wrap : String → Err → Err
  -- an error that the database driver returns
  driver : Err

-- `errors.Is(err, sentinel)`
unfoldable pub is : Err → Sentinel → Bool
unfolding Sentinel-discrete
is (sentinel s) t = holds (Sentinel-discrete s t)
is (new m) t = false
is (wrap m e) t = is e t
is driver t = false

pub data Result {ℓ} (A : Type ℓ) : Type ℓ where
  ok : A → Result A
  err : Err → Result A

abbrev pub map {ℓ} : {A B : Type ℓ} → (A → B) → Result A → Result B
map f (ok a) = ok (f a)
map f (err e) = err e

pub Result-cases {ℓ} :
    {A : Type ℓ} (r : Result A) → ((a : A) × (r ≡ ok a)) ⊎ ((x : Err) × (r ≡ err x))
Result-cases (ok a) = inl (a, refl)
Result-cases (err x) = inr (x, refl)
