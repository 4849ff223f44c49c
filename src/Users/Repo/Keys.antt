-- ===== src/Users/Repo/Keys.antt =====
-- The keys of the tables of internal/repository/user.go, and lemmas on them.
use realm_api.Common.{
  ◌≡◌, ◌∙◌, inl, inr, refl, Bool, true, false, ◌||◌, none, some, List, [], ◌∷◌, ◌++◌, any, all,
  keep, eqb_iff, arith, Bool-cases, Distinct, any-append,
}
use realm_api.Users.{User, OAuthAccount}
use realm_api.Users.Repo.{
  Db, has_id, clashes, has_account_id, is_at, is_of, find_account, set_accounts,
}

unfoldable pub conflicts : OAuthAccount → OAuthAccount → Bool
conflicts a b =
    has_account_id a.id b || is_at a.provider a.provider_id b || is_of a.user_id a.provider b

abbrev pub has_owner : List User → OAuthAccount → Bool
has_owner users a = any (has_id a.user_id) users

-- No two users share an identifier, an address or a name, no two accounts share an identifier, a place
-- at a provider or the pair of user and provider, and each account belongs to a user.
pub record IsKeyed (db : Db) : Type 0 where
  pub users_distinct : Distinct clashes db.users
  pub accounts_distinct : Distinct conflicts db.accounts
  pub have_owners : all (has_owner db.users) db.accounts ≡ true

pub clashes_sym : (a b : User) → clashes a b ≡ clashes b a
unfolding clashes
clashes_sym a b = ground (
  arith,
  eqb_iff a.email b.email,
  eqb_iff b.email a.email,
  eqb_iff a.username b.username,
  eqb_iff b.username a.username,
)

pub any-clashes_sym :
    (u : User) (users : List User) → any (clashes u) users ≡ any (λ v. clashes v u) users
any-clashes_sym u [] = refl
any-clashes_sym u (v ∷ users) = ground (arith, clashes_sym u v, any-clashes_sym u users)

conflicts_sym : (a b : OAuthAccount) → conflicts a b ≡ conflicts b a
unfolding conflicts
conflicts_sym a b = ground (
  arith,
  eqb_iff a.provider b.provider,
  eqb_iff b.provider a.provider,
  eqb_iff a.provider_id b.provider_id,
  eqb_iff b.provider_id a.provider_id,
)

pub any-conflicts_sym :
    (a : OAuthAccount) (accounts : List OAuthAccount)
    → any (conflicts a) accounts ≡ any (λ b. conflicts b a) accounts
any-conflicts_sym a [] = refl
any-conflicts_sym a (b ∷ accounts) = ground (arith, conflicts_sym a b, any-conflicts_sym a accounts)

-- A longer list of users owns what a shorter one does.
pub owned-append :
    (users : List User) (u : User) (accounts : List OAuthAccount)
    → all (has_owner users) accounts ≡ true
    → all (has_owner (users ++ u ∷ [])) accounts ≡ true
owned-append users u [] h = refl
owned-append users u (a ∷ accounts) h =
    ground (arith, any-append (has_id a.user_id) users (u ∷ []), owned-append users u accounts)

pub owned-keep :
    (users : List User) (q : OAuthAccount → Bool) (accounts : List OAuthAccount)
    → all (has_owner users) accounts ≡ true
    → all (has_owner users) (keep q accounts) ≡ true
owned-keep users q [] h = refl
owned-keep users q (a ∷ accounts) h = ground (arith, owned-keep users q accounts)

-- Insertion of an account without a row in the way.
pub find_account-none :
    (hit : OAuthAccount → Bool) (accounts : List OAuthAccount)
    → find_account hit accounts ≡ none
    → any hit accounts ≡ false
unfolding find_account
find_account-none hit [] h = refl
find_account-none hit (a ∷ accounts) h = ground (arith, find_account-none hit accounts)

pub any-conflicts :
    (a : OAuthAccount) (accounts : List OAuthAccount)
    → any (has_account_id a.id) accounts ≡ false
    → any (is_at a.provider a.provider_id) accounts ≡ false
    → any (is_of a.user_id a.provider) accounts ≡ false
    → any (conflicts a) accounts ≡ false
unfolding conflicts
any-conflicts a [] h k l = refl
any-conflicts a (b ∷ accounts) h k l = ground (arith, any-conflicts a accounts)

-- The update of an account touches none of its keys.
set_accounts-any :
    (hit : OAuthAccount → Bool) (a b : OAuthAccount) (accounts : List OAuthAccount)
    → any (conflicts a) (set_accounts hit b accounts) ≡ any (conflicts a) accounts
unfolding set_accounts conflicts
set_accounts-any hit a b [] = refl
set_accounts-any hit a b (c ∷ accounts) = ground (arith, set_accounts-any hit a b accounts)

refreshed-any :
    (a b : OAuthAccount) (accounts : List OAuthAccount)
    → any
        (conflicts (record a {
          email = b.email;
          avatar_url = elim b.avatar_url [ none ↦ a.avatar_url | some v ↦ some v ];
        }))
        accounts
      ≡ any (conflicts a) accounts
unfolding conflicts
refreshed-any a b [] = refl
refreshed-any a b (c ∷ accounts) = ground (arith, refreshed-any a b accounts)

pub set_accounts-Distinct :
    (hit : OAuthAccount → Bool) (b : OAuthAccount) (accounts : List OAuthAccount)
    → Distinct conflicts accounts
    → Distinct conflicts (set_accounts hit b accounts)
unfolding set_accounts
set_accounts-Distinct hit b [] d = tt
set_accounts-Distinct hit b (c ∷ accounts) d =
    let same = set_accounts-any hit c b accounts in
    let same' = refreshed-any c b (set_accounts hit b accounts) in
    let rest = set_accounts-Distinct hit b accounts d.1 in
    elim (Bool-cases (hit c)) [
      | inl changed ↦ rw changed (same' ∙ same ∙ d.0, rest)
      | inr kept ↦ rw kept (same ∙ d.0, rest)
    ]

pub set_accounts-owned :
    (users : List User) (hit : OAuthAccount → Bool) (b : OAuthAccount)
    (accounts : List OAuthAccount)
    → all (has_owner users) (set_accounts hit b accounts) ≡ all (has_owner users) accounts
unfolding set_accounts
set_accounts-owned users hit b [] = refl
set_accounts-owned users hit b (c ∷ accounts) =
    ground (arith, set_accounts-owned users hit b accounts)
