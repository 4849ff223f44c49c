-- ===== src/Posts/Slugs.antt =====
-- Proofs about `slugify` of internal/service/post.go.
use mathlib.Core.List.{reverse, reverse_aux, reverse-append, reverse-reverse}
use realm_api.Common.{
  ℕ, ◌≡◌, ◌∙◌, refl, sym, ap, Bool, true, false, [], ◌∷◌, ◌++◌, Text, map, keep, all, is_space,
  trim_space, to_lower, lower_rune, arith, ◌==◌, Bool-cases, inl, inr, IsSolid, trim_space_of_solid,
}
use realm_api.Posts.{is_slug_rune, hyphen, drop_hyphens, trim_hyphens, slugify}

abbrev pub starts : Text → Bool
starts [] = false
starts (c ∷ s) = c == b'-'

-- runes of slugs only, and no hyphen at either end
pub record IsSlug (t : Text) : Type 0 where
  pub runes : all is_slug_rune t ≡ true
  pub head : starts t ≡ false
  pub tail : starts (reverse t) ≡ false

starts-drop_hyphens : (t : Text) → starts (drop_hyphens t) ≡ false
unfolding drop_hyphens
starts-drop_hyphens [] = refl
starts-drop_hyphens (c ∷ t) = ground (arith, starts-drop_hyphens t)

drop_hyphens_split : (t : Text) → (dropped : Text) × (t ≡ dropped ++ drop_hyphens t)
unfolding drop_hyphens
drop_hyphens_split [] = ([], refl)
drop_hyphens_split (c ∷ t) = elim (Bool-cases (c == b'-')) [
  | inr other ↦ ([], rw other refl)
  | inl hit ↦ let (dropped, e) = drop_hyphens_split t in (c ∷ dropped, rw hit (ap (λ r. c ∷ r) e))
]

starts-append : (s t : Text) → starts (s ++ t) ≡ false → starts s ≡ false
starts-append [] t h = refl
starts-append (c ∷ s) t h = h

all-drop_hyphens : (p : ℕ → Bool) (t : Text) → all p t ≡ true → all p (drop_hyphens t) ≡ true
unfolding drop_hyphens
all-drop_hyphens p [] h = refl
all-drop_hyphens p (c ∷ t) h = ground (arith, all-drop_hyphens p t)

all-reverse_aux :
    (p : ℕ → Bool) (s t : Text) → all p s ≡ true → all p t ≡ true → all p (reverse_aux s t) ≡ true
all-reverse_aux p [] t h k = k
all-reverse_aux p (c ∷ s) t h k = all-reverse_aux p s (c ∷ t) (ground arith) (ground arith)

all-reverse : (p : ℕ → Bool) (t : Text) → all p t ≡ true → all p (reverse t) ≡ true
all-reverse p t h = all-reverse_aux p t [] h refl

all-keep : (p : ℕ → Bool) (t : Text) → all p (keep p t) ≡ true
all-keep p [] = refl
all-keep p (c ∷ t) = ground (arith, all-keep p t)

trim_hyphens-IsSlug : (t : Text) → all is_slug_rune t ≡ true → IsSlug (trim_hyphens t)
unfolding trim_hyphens
trim_hyphens-IsSlug t h =
    let left = drop_hyphens t in
    let kept = all-drop_hyphens is_slug_rune t h in
    let flipped = all-reverse is_slug_rune left kept in
    let (dropped, e) = drop_hyphens_split (reverse left) in
    let back : left ≡ reverse (drop_hyphens (reverse left)) ++ reverse dropped =
      sym (reverse-reverse left)
      ∙ (ap reverse e ∙ reverse-append dropped (drop_hyphens (reverse left))) in
    record {
      runes =
          all-reverse is_slug_rune (drop_hyphens (reverse left))
            (all-drop_hyphens is_slug_rune (reverse left) flipped);
      head =
          starts-append (reverse (drop_hyphens (reverse left))) (reverse dropped)
            (ap starts (sym back) ∙ starts-drop_hyphens t);
      tail =
          ap starts (reverse-reverse (drop_hyphens (reverse left)))
          ∙ starts-drop_hyphens (reverse left);
    }

pub slugify-IsSlug : (table : ℕ → ℕ) (t : Text) → IsSlug (slugify table t)
unfolding slugify
slugify-IsSlug table t =
    let mapped = map hyphen (to_lower table (trim_space t)) in
    trim_hyphens-IsSlug (keep is_slug_rune mapped) (all-keep is_slug_rune mapped)

drop_hyphens_none : (t : Text) → starts t ≡ false → drop_hyphens t ≡ t
unfolding drop_hyphens
drop_hyphens_none [] h = refl
drop_hyphens_none (c ∷ t) h = rw h refl

trim_hyphens_none : (t : Text) → IsSlug t → trim_hyphens t ≡ t
unfolding trim_hyphens
trim_hyphens_none t s =
    rw (drop_hyphens_none t s.head) (rw (drop_hyphens_none (reverse t) s.tail) (reverse-reverse t))

rune_kept :
    (table : ℕ → ℕ) (c : ℕ)
    → is_slug_rune c ≡ true
    → (hyphen (lower_rune table c) ≡ c) × (is_space c ≡ false)
unfolding is_slug_rune lower_rune is_space
rune_kept table c h = ground arith

pub runes-IsSolid : (t : Text) → all is_slug_rune t ≡ true → IsSolid t
runes-IsSolid [] h = tt
runes-IsSolid (c ∷ t) h = ((rune_kept (λ d. d) c (ground arith)).1, runes-IsSolid t (ground arith))

runes_kept :
    (table : ℕ → ℕ) (t : Text)
    → all is_slug_rune t ≡ true
    → keep is_slug_rune (map hyphen (to_lower table t)) ≡ t
unfolding to_lower
runes_kept table [] h = refl
runes_kept table (c ∷ t) h =
    let rest = runes_kept table t (ground arith) in
    let first : is_slug_rune c ≡ true = ground arith in
    let same = (rune_kept table c first).0 in rw (same, first, rest)

slugify_kept : (table : ℕ → ℕ) (t : Text) → IsSlug t → slugify table t ≡ t
unfolding slugify
slugify_kept table t s =
    rw (trim_space_of_solid t (runes-IsSolid t s.runes))
      (rw (runes_kept table t s.runes) (trim_hyphens_none t s))

-- `slugify` gives runes a to z, 0 to 9, hyphens and low lines, with no hyphen at either end, and leaves
-- what it has given as it is.
slugify_lem :
    (table : ℕ → ℕ) (t : Text)
    → IsSlug (slugify table t) × (slugify table (slugify table t) ≡ slugify table t)
slugify_lem table t = let s = slugify-IsSlug table t in (s, slugify_kept table (slugify table t) s)
