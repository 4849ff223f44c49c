-- ===== src/Grpc/Status.antt =====
-- internal/grpc/interceptors/errors.go: `MapError`.
use Prim.Native.String.{String}
use realm_api.Common.{ap, ◌≡◌, refl, Bool, Option, none, some, List, [], ◌∷◌, any, if◌then◌else◌}
use realm_api.Errors.{
  Err, Sentinel, Sentinel-discrete, sentinel, new, wrap, driver, is, paseto_invalid_token,
  paseto_expired_token, err_invalid_credentials, err_invalid_email, err_invalid_username,
  err_password_too_short, err_full_name_required, err_username_taken, err_current_password_req,
  err_current_password_bad, err_database_unavailable, err_user_not_found, err_user_already_exists,
  err_cannot_unlink_last_auth, err_record_not_found, err_empty_comment, err_comment_too_long,
  err_comment_not_found, err_unauthorized_comment_action, err_invalid_reaction, err_empty_slug,
  err_file_too_large, err_file_not_found,
}

-- google.golang.org/grpc/codes, those that the program gives
pub data Code : Type 0 where
  unauthenticated not_found already_exists invalid_argument resource_exhausted : Code
  permission_denied unavailable internal : Code

-- `err.Error()`, or a text of the program
pub data Message : Type 0 where
  text_of : Err → Message
  literal : String → Message

-- A handler returns a status, or an error of the domain.
pub data RpcError : Type 0 where
  status : Code → Message → RpcError
  domain : Err → RpcError

abbrev pub is_any : List Sentinel → Err → Bool
is_any ss x = any (is x) ss

-- the switch, in the order of its cases
unfoldable pub status_of : Message → Err → RpcError
unfolding is
status_of m x =
    if is_any (err_invalid_credentials ∷ paseto_invalid_token ∷ paseto_expired_token ∷ []) x
    then status unauthenticated m
    else if is_any
        (err_user_not_found ∷ err_record_not_found ∷ err_file_not_found ∷ err_comment_not_found
          ∷ [])
        x
    then status not_found m
    else if is_any (err_user_already_exists ∷ err_username_taken ∷ []) x
    then status already_exists m
    else if is_any
        (err_invalid_email ∷ err_invalid_username ∷ err_password_too_short ∷ err_full_name_required
          ∷ err_empty_slug ∷ err_invalid_reaction ∷ err_empty_comment ∷ err_comment_too_long
          ∷ err_current_password_req ∷ err_current_password_bad ∷ [])
        x
    then status invalid_argument m
    else if is_any (err_file_too_large ∷ []) x
    then status resource_exhausted m
    else if is_any (err_cannot_unlink_last_auth ∷ err_unauthorized_comment_action ∷ []) x
    then status permission_denied m
    else if is_any (err_database_unavailable ∷ []) x
    then status unavailable m
    else status internal (literal "An internal server error occurred")

unfoldable pub map_error : Option RpcError → Option RpcError
map_error none = none
map_error (some (status c m)) = some (status c m)
map_error (some (domain x)) = some (status_of (text_of x) x)

-- The sentinel that an error wraps, if there is one.
abbrev pub cause : Err → Option Sentinel
cause (sentinel s) = some s
cause (new m) = none
cause (wrap m x) = cause x
cause driver = none

-- The code of each sentinel; `none` where the caller is told nothing but that the server failed.
abbrev pub code_of : Sentinel → Option Code
code_of paseto_invalid_token = some unauthenticated
code_of paseto_expired_token = some unauthenticated
code_of err_invalid_credentials = some unauthenticated
code_of err_user_not_found = some not_found
code_of err_record_not_found = some not_found
code_of err_file_not_found = some not_found
code_of err_comment_not_found = some not_found
code_of err_user_already_exists = some already_exists
code_of err_username_taken = some already_exists
code_of err_invalid_email = some invalid_argument
code_of err_invalid_username = some invalid_argument
code_of err_password_too_short = some invalid_argument
code_of err_full_name_required = some invalid_argument
code_of err_empty_slug = some invalid_argument
code_of err_invalid_reaction = some invalid_argument
code_of err_empty_comment = some invalid_argument
code_of err_comment_too_long = some invalid_argument
code_of err_current_password_req = some invalid_argument
code_of err_current_password_bad = some invalid_argument
code_of err_file_too_large = some resource_exhausted
code_of err_cannot_unlink_last_auth = some permission_denied
code_of err_unauthorized_comment_action = some permission_denied
code_of err_database_unavailable = some unavailable
code_of _ = none

abbrev pub expected : Message → Option Sentinel → RpcError
expected m none = status internal (literal "An internal server error occurred")
expected m (some s) = elim (code_of s) [
  | none ↦ status internal (literal "An internal server error occurred")
  | some c ↦ status c m
]

status-sentinel : (m : Message) (s : Sentinel) → status_of m (sentinel s) ≡ expected m (some s)
unfolding status_of Sentinel-discrete is
status-sentinel m s = elim s as (λ k. status_of m (sentinel k) ≡ expected m (some k)) [
  | paseto_invalid_token ↦ refl
  | _ ↦ refl
]

status-cause : (m : Message) (x : Err) → status_of m x ≡ expected m (cause x)
unfolding status_of is
status-cause m (sentinel s) = status-sentinel m s
status-cause m (new k) = refl
status-cause m (wrap k x) = status-cause m x
status-cause m driver = refl

-- An error of the domain is answered with the code that the table gives for the sentinel that it
-- wraps, however deep, and with its own text; any other error, and one that wraps nothing, with the
-- code Internal and a text that tells nothing of it. A status stays as it is.
pub map_error_lem :
    (x : Err) (c : Code) (m : Message)
    → (map_error (some (domain x)) ≡ some (expected (text_of x) (cause x)))
      × (map_error (some (status c m)) ≡ some (status c m))
      × (map_error none ≡ none)
unfolding map_error
map_error_lem x c m = (ap some (status-cause (text_of x) x), refl, refl)
