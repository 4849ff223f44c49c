-- ===== src/Users/Service/Availability.antt =====
-- internal/service/auth.go: `CheckAvailability`, the form's question whether a name and an address can
-- be registered.
use Prim.Native.String.{String}
use realm_api.Common.{
  Bool, true, false, not, Option, none, some, Text, is_empty, trim_space, if◌then◌else◌,
}
use realm_api.Errors.{Result, ok, err, is, err_user_not_found}
use realm_api.Env.{Env}
use realm_api.Users.{User}
use realm_api.Users.Names.{matches_username, is_address}
use realm_api.Users.Repo.{Db, get_by_email, get_by_username}
use realm_api.Users.Service.{Libraries}

-- Each answer is a field `...Available`, nil when nothing is asked, with its `...Reason`.
pub record CheckAvailabilityResponse : Type 0 where
  pub username_available : Option Bool
  pub email_available : Option Bool
  pub username_reason : String
  pub email_reason : String

pub record FieldVerdict : Type 0 where
  pub available : Option Bool
  pub reason : String

abbrev pub free : FieldVerdict
free = record { available = some true; reason = "" }

abbrev pub refused : String → FieldVerdict
refused reason = record { available = some false; reason = reason }

-- the `switch` on the error of the query
unfoldable pub judge : String → Result User → Result FieldVerdict
judge reason (ok u) = ok (refused reason)
judge reason (err x) = if is x err_user_not_found then ok free else err x

module _ (l : Libraries) (e : Env) where
  unfoldable pub check_username : Text → Option Db → Result FieldVerdict
  unfolding judge
  check_username username repo =
      if is_empty username
      then ok (record { available = none; reason = "" })
      else if not (matches_username (trim_space username))
      then ok (refused "Username must be 3-30 characters (alphanumeric and underscores only)")
      else elim repo [
        | none ↦ ok free
        | some db ↦
            judge "Username is already taken"
              (get_by_username l.sql_lower (e.fails 0) (trim_space username) db)
      ]

  unfoldable pub check_email : Text → Option Db → Result FieldVerdict
  unfolding judge
  check_email email repo =
      if is_empty email
      then ok (record { available = none; reason = "" })
      else if not (is_address l.parse_address (trim_space email))
      then ok (refused "Invalid email format")
      else elim repo [
        | none ↦ ok free
        | some db ↦
            judge "Email is already registered"
              (get_by_email l.sql_lower (e.fails 1) (trim_space email) db)
      ]

  unfoldable pub check_availability : Text → Text → Option Db → Result CheckAvailabilityResponse
  unfolding check_username check_email
  check_availability username email repo = elim (check_username username repo) [
    | err x ↦ err x
    | ok name ↦ elim (check_email email repo) [
      | err x ↦ err x
      | ok address ↦ ok (record {
        username_available = name.available;
        email_available = address.available;
        username_reason = name.reason;
        email_reason = address.reason;
      })
    ]
  ]
