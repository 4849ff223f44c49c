-- ===== src/Tokens/Scopes.antt =====
-- `HasScope` of internal/service/token.go, and the relation that it decides.
use realm_api.Common.{
  ◌≡◌, ◌⊎◌, ◌↔◌, Bool, true, ◌&&◌, ◌||◌, List, ◌++◌, Text, txt, eqb, eqb_iff, has_prefix,
  has_suffix, trim_suffix, has_prefix-append, has_prefix_split, has_suffix-append, has_suffix_split,
  trim_suffix-append, drop, length, Any, any, any_iff, arith,
}

-- A wildcard `stem:*` and a scope `stem:...`; the admin middleware has the same test.
unfoldable pub wildcard_matches : Text → Text → Bool
wildcard_matches s required =
    has_suffix s (txt ":*") && has_prefix required (trim_suffix s (txt ":*") ++ txt ":")

-- The body of the loop.
unfoldable pub scope_grants : Text → Text → Bool
scope_grants required s =
    eqb s (txt "*")
    || eqb s (txt "all")
    || eqb s (txt "admin")
    || eqb s required
    || wildcard_matches s required

unfoldable pub has_scope : List Text → Text → Bool
unfolding scope_grants
has_scope scopes required = any (scope_grants required) scopes

-- `stem:*` covers every scope that starts with `stem:`.
abbrev pub Covers : Text → Text → Type 0
Covers s required =
    (stem : Text) × (rest : Text) × (s ≡ stem ++ txt ":*") × (required ≡ (stem ++ txt ":") ++ rest)

pub wildcard_matches_sound :
    (s required : Text) → wildcard_matches s required ≡ true → Covers s required
unfolding wildcard_matches
wildcard_matches_sound s required h =
    let stem : Text = trim_suffix s (txt ":*") in
    (
      stem,
      drop (length (stem ++ txt ":")) required,
      has_suffix_split s (txt ":*") (ground arith),
      has_prefix_split required (stem ++ txt ":") (ground arith),
    )

pub wildcard_matches_complete :
    (s required : Text) → Covers s required → wildcard_matches s required ≡ true
unfolding wildcard_matches
wildcard_matches_complete s required (stem, rest, e, f) =
    rw (e, f, has_suffix-append stem (txt ":*"), trim_suffix-append stem (txt ":*"))
      (has_prefix-append (stem ++ txt ":") rest)

abbrev pub Grants : Text → Text → Type 0
Grants required s =
    (s ≡ txt "*") ⊎ (s ≡ txt "all") ⊎ (s ≡ txt "admin") ⊎ (s ≡ required) ⊎ Covers s required

scope_grants_iff : (required s : Text) → (scope_grants required s ≡ true) ↔ Grants required s
unfolding scope_grants
scope_grants_iff required s = (
  ground (
    arith,
    eqb_iff s (txt "*"),
    eqb_iff s (txt "all"),
    eqb_iff s (txt "admin"),
    eqb_iff s required,
    wildcard_matches_sound s required,
  ),
  ground (
    arith,
    eqb_iff s (txt "*"),
    eqb_iff s (txt "all"),
    eqb_iff s (txt "admin"),
    eqb_iff s required,
    wildcard_matches_complete s required,
  ),
)

-- A token has a scope exactly if one of its scopes is a full grant (`*`, `all`, `admin`), the scope
-- itself, or a wildcard `stem:*` for a scope that starts with `stem:`.
pub has_scope_iff :
    (scopes : List Text) (required : Text)
    → (has_scope scopes required ≡ true) ↔ Any (Grants required) scopes
unfolding has_scope
has_scope_iff scopes required =
    any_iff (scope_grants required) (Grants required) (scope_grants_iff required) scopes
