-- ===== src/Users/Samples.antt =====
-- Two users, an account, and libraries that are readable: a hash is the password behind a mark, and
-- the authenticator shows the secret.
use realm_api.Common.{
  ◌/◌, ◌*◌, ℕ, arith, ◌≡◌, refl, true, false, Option, none, some, List, [], ◌∷◌, Text, txt, eqb,
  eqb_iff,
}
use realm_api.Env.{Env}
use realm_api.Auth.Samples.{paseto}
use realm_api.Middleware.Token.{Uuid}
use realm_api.Users.{User, OAuthAccount}
use realm_api.Users.Repo.{Db}
use realm_api.Users.Repo.Keys.{IsKeyed}
use realm_api.Users.Service.{Libraries}
use realm_api.Users.Service.Registration.{IsHashing}

abbrev pub env : Env
env = record {
  clock = λ n. 1000;
  fails = λ n. false;
  choice = λ n. 0;
  column = λ t. t / 1000 * 1000;
}

-- An identifier is a text of one code point.
abbrev pub uuid : Uuid
uuid = record {
  text = λ id. id ∷ [];
  parse = λ s. elim s [ [] ↦ none | c ∷ r ↦ elim r [ [] ↦ some c | _ ∷ _ ↦ none ] ];
}

abbrev pub libraries : Libraries
libraries = record {
  lower = λ c. c;
  upper = λ c. c;
  sql_lower = λ t. t;
  parse_address = λ t. true;
  hash = λ salt t. some (b'#' ∷ t);
  compare = λ h t. eqb h (b'#' ∷ t);
  paseto = paseto;
  key = [];
  uuid = uuid;
  validate = λ now code secret. eqb code secret;
}

pub libraries-IsHashing : IsHashing libraries
libraries-IsHashing = record {
  compare-hash = λ salt password hash h.
      let same : b'#' ∷ password ≡ hash = ground arith in
      rw (← same) ((eqb_iff (b'#' ∷ password) (b'#' ∷ password)).1 refl);
  hash-nonempty =
      λ salt password hash h. let same : b'#' ∷ password ≡ hash = ground arith in rw (← same) refl;
}

abbrev pub ann : User
ann = record {
  updated_at = 5;
  created_at = 5;
  provider_id = none;
  two_factor_secret = none;
  password_hash = some (txt "#password");
  avatar_url = none;
  full_name = txt "Ann";
  provider = txt "local";
  username = txt "ann";
  email = txt "ann@a.example";
  two_factor_recovery_codes = [];
  id = 7;
  two_factor_enabled = false;
  is_active = true;
}

-- has the second factor on
abbrev pub bob : User
bob = record ann {
  two_factor_secret = some (txt "123456");
  full_name = txt "Bob";
  username = txt "bob";
  email = txt "bob@b.example";
  two_factor_recovery_codes = txt "ABCD-EFGH" ∷ txt "JKLM-NPQR" ∷ [];
  id = 8;
  two_factor_enabled = true;
}

abbrev pub account : OAuthAccount
account = record {
  created_at = 6;
  email = some (txt "bob@b.example");
  avatar_url = none;
  provider = txt "github";
  provider_id = txt "12";
  id = 3;
  user_id = 8;
}

abbrev pub db : Db
db = record { users = ann ∷ bob ∷ []; accounts = account ∷ []; admins = [] }

pub db-IsKeyed : IsKeyed db
unfolding realm_api.Users.Repo.clashes eqb realm_api.Common.Text-discrete
db-IsKeyed = record {
  users_distinct = ((refl, (refl, tt)));
  accounts_distinct = (refl, tt);
  have_owners = refl;
}
