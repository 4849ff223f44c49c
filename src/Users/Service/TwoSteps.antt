-- ===== src/Users/Service/TwoSteps.antt =====
-- Proofs about `Login` and `Verify2FA` of internal/service/auth.go, one after the other.
use realm_api.Common.{
  ℕ, ◌+◌, ◌≤◌, ◌≡◌, inl, inr, Bool, true, false, Option, none, some, List, [], ◌∷◌, Text, txt, any,
  trim_space, arith, Bool-cases, eqb_iff, Distinct,
}
use realm_api.Errors.{Result, ok, err, new}
use realm_api.Env.{Env}
use realm_api.Auth.Paseto.{IsSealed, claims_for}
use realm_api.Auth.Paseto.Laws.{verify_token-generate_2fa_temp_token}
use realm_api.Users.{User, OAuthAccount, AuthResponse}
use realm_api.Users.Repo.{Db, find, has_id, clashes, get_by_id}
use realm_api.Users.Repo.Keys.{IsKeyed}
use realm_api.Users.Repo.Rows.{get_by_id-found}
use realm_api.Users.Service.{
  Libraries, LoginInput, get_connected_accounts, login, subject_of, challenge_ttl,
}
use realm_api.Users.Service.Login.{
  Found, Answer, first_factor, second_factor, login-eq-ok, finish_login-Answer,
}
use realm_api.Users.Service.TwoFactor.{check_second_factor, verify_2fa}

clashes-id :
    (u v : User) (users : List User) (hit : User → Bool)
    → any (clashes u) users ≡ false
    → find hit users ≡ some v
    → has_id v.id u ≡ false
unfolding clashes find
clashes-id u v [] hit d h = cc
clashes-id u v (w ∷ users) hit d h = ground (arith, clashes-id u v users hit)

-- Any row that a query finds is the one with its identifier.
find-has_id :
    (hit : User → Bool) (users : List User) (u : User)
    → Distinct clashes users
    → find hit users ≡ some u
    → find (has_id u.id) users ≡ some u
unfolding find
find-has_id hit [] u d h = cc
find-has_id hit (v ∷ users) u d h = elim (Bool-cases (hit v)) [
  | inl here ↦ ground arith
  | inr further ↦
      let rest : find hit users ≡ some u = ground arith in
      rw (clashes-id v u users hit d.0 rest) (find-has_id hit users u d.1 rest)
]

-- what `Verify2FA` does with a user who has the second factor on
abbrev pub second_step : Libraries → Env → ℕ → Text → User → Db → Result AuthResponse × Option Db
second_step l f nonce code u db = elim u.two_factor_secret [
  | none ↦ (err (new "two-factor authentication is not active for this account"), some db)
  | some secret ↦ check_second_factor l f nonce u.id (trim_space code) u secret db
]

module _ (l : Libraries) (e f : Env) (nonce nonce' : ℕ) (input : LoginInput) (code : Text) (db : Db)
    (sealed : IsSealed l.paseto) (uuid : (id : ℕ) → l.uuid.parse (l.uuid.text id) ≡ some id)
    (keyed : IsKeyed db) (reads : f.fails 0 ≡ false)
    (early : f.clock 0 ≤ e.clock 0 + challenge_ttl) where
  answered :
      (u : User) (accounts : List OAuthAccount) (r : AuthResponse)
      → find (has_id u.id) db.users ≡ some u
      → Answer l e nonce input u accounts r
      → r.two_factor_required ≡ true
      → verify_2fa l f nonce' r.temp_token code (some db) ≡ second_step l f nonce' code u db
  unfolding verify_2fa claims_for
  answered u accounts _ found (first_factor token off good) t = absurd (cc)
  answered u accounts _ found (second_factor token on good) t =
      let v =
        verify_token-generate_2fa_temp_token l.paseto l.key sealed nonce (e.clock 0) challenge_ttl
          (f.clock 0) (subject_of l u) token good in
      let read : get_by_id (f.fails 0) u.id db ≡ ok u =
        rw reads (get_by_id-found u.id db u found) in
      let known = uuid u.id in ground (arith, eqb_iff (txt "2fa_challenge") (txt "2fa_challenge"))

  -- A challenge that a login has given leads, within five minutes and while the tables stay as they
  -- are, to the check of the second factor of exactly the user who logged in. The keys of the tables
  -- must be unique, the query must not fail, and the libraries must read back what they sealed and
  -- printed.
  pub verify_2fa-login :
      (r : AuthResponse)
      → login l e nonce input (some db) ≡ ok r
      → r.two_factor_required ≡ true
      → (u : User) × Found l e nonce input db u
        × (verify_2fa l f nonce' r.temp_token code (some db) ≡ second_step l f nonce' code u db)
  verify_2fa-login r h t =
      let (u, who, done) = login-eq-ok l e nonce input db r h in
      let accounts = get_connected_accounts (e.fails 1) u.id db in
      (
        u,
        who,
        answered u accounts r (find-has_id _ db.users u keyed.users_distinct who.found)
            (finish_login-Answer l e nonce input u accounts r done) t,
      )
