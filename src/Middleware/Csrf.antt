-- ===== src/Middleware/Csrf.antt =====
-- internal/middleware/csrf.go: which state-changing requests are let through.
use mathlib.Core.List.{reverse}
use realm_api.Common.{
  ℕ, Bool, true, false, ◌&&◌, ◌||◌, not, Option, none, some, List, [], ◌∷◌, ◌++◌, Text, txt, eqb,
  any, is_empty, trim_space, to_lower, ◌==◌, if◌then◌else◌, ◌≡◌, ◌≢◌, ◌↔◌, arith, ◌⊎◌, eqb_iff,
}
use realm_api.Middleware.{Request, Outcome, reject, proceed, no_locals}

-- `strings.TrimRight(s, "/")`
drop_slashes : Text → Text
drop_slashes [] = []
drop_slashes (c ∷ s) = if c == b'/' then drop_slashes s else c ∷ s

unfoldable pub trim_right_slash : Text → Text
unfolding drop_slashes
trim_right_slash s = reverse (drop_slashes (reverse s))

-- `strings.Split(s, ",")`
split_from : Text → Text → List Text
split_from cur [] = reverse cur ∷ []
split_from cur (c ∷ s) = if c == b',' then reverse cur ∷ split_from [] s else split_from (c ∷ cur) s

unfoldable pub split_comma : Text → List Text
unfolding split_from
split_comma = split_from []

module _ (table : ℕ → ℕ) where
  clean : List Text → List Text
  clean [] = []
  clean (o ∷ raw) =
      let rest = clean raw in
      if is_empty (trim_space o) then rest else to_lower table (trim_space o) ∷ rest

  unfoldable pub parse_allowed_origins : Text → List Text
  unfolding clean split_comma
  parse_allowed_origins origins =
      if is_empty origins || eqb origins (txt "*") then [] else clean (split_comma origins)

  abbrev pub norm_allowed : Text → Text
  norm_allowed a = trim_right_slash (to_lower table a)

  abbrev pub norm_origin : Text → Text
  norm_origin origin = trim_right_slash (to_lower table (trim_space origin))

  unfoldable pub is_allowed : Text → List Text → Bool
  is_allowed origin [] = true
  is_allowed origin (a ∷ allowed) =
      any (λ b. eqb (norm_origin origin) (norm_allowed b)) (a ∷ allowed)

  abbrev pub is_safe_method : Text → Bool
  is_safe_method m = eqb m (txt "GET") || eqb m (txt "HEAD") || eqb m (txt "OPTIONS")

  -- net/url: scheme and host of a URL that parses
  module _ (parse_url : Text → Option (Text × Text)) where
    unfoldable pub referer_allowed : Text → List Text → Bool
    referer_allowed referer allowed = elim (parse_url referer) [
      | none ↦ false
      | some (scheme, host) ↦ is_allowed (scheme ++ txt "://" ++ host) allowed
    ]

    -- `allowed` is the result of `parseAllowedOrigins`.
    unfoldable pub csrf_protection : List Text → Request → Outcome
    csrf_protection allowed c =
        let checked = not (is_empty allowed) in
        if is_safe_method c.method
        then proceed no_locals
        else if eqb c.sec_fetch_site (txt "cross-site")
            && checked
            && not (is_allowed c.origin allowed)
        then reject 403 "Cross-site request forgery blocked"
        else if not (is_empty c.origin) && checked && not (is_allowed c.origin allowed)
        then reject 403 "Invalid request origin"
        else if is_empty c.origin
            && not (is_empty c.referer)
            && checked
            && not (referer_allowed c.referer allowed)
        then reject 403 "Invalid request referer"
        else if is_empty c.x_realm_request && is_empty c.x_requested_with
        then reject 400 "Missing required request security header"
        else proceed no_locals

    -- A state-changing request is let through exactly if it has one of the two custom headers and,
    -- where origins are configured: an origin that it names is allowed; so is its origin, named or
    -- not, if it is marked cross-site; and if it names none, so is the origin of a referer that it
    -- names.
    pub csrf_protection_iff :
        (allowed : List Text) (c : Request)
        → is_safe_method c.method ≡ false
        → (csrf_protection allowed c ≡ proceed no_locals) ↔ (
            ((c.x_realm_request ≢ []) ⊎ (c.x_requested_with ≢ []))
            × ((allowed ≡ []) ⊎ (c.origin ≡ []) ⊎ (is_allowed c.origin allowed ≡ true))
            × ((allowed ≡ [])
                ⊎ (c.sec_fetch_site ≢ txt "cross-site")
                ⊎ (is_allowed c.origin allowed ≡ true))
            × ((allowed ≡ [])
                ⊎ (c.origin ≢ [])
                ⊎ (c.referer ≡ [])
                ⊎ (referer_allowed c.referer allowed ≡ true)))
    unfolding csrf_protection
    csrf_protection_iff allowed c state =
        let site = eqb_iff c.sec_fetch_site (txt "cross-site") in
        (λ h. (ground arith, ground arith, ground arith, ground arith), λ h. ground arith)
