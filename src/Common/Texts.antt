-- ===== src/Common/Texts.antt =====
-- Go strings as lists of code points, and the functions of package strings that the program calls.
use Prim.Native.Nat.{ℕ, ◌+◌, ◌-◌}
use Prim.Native.Char.{code}
use Prim.Native.String.{String}
use mathlib.Core.Bool.{Bool, true, false, ◌&&◌, ◌||◌}
use mathlib.Core.List.{List, [], ◌∷◌, ◌++◌, reverse, map, reverse-append, reverse-reverse}
use mathlib.Core.Logic.{◌↔◌}
use mathlib.Core.Path.{◌≡◌, refl, sym, ap, ◌∙◌}
use native.Mathlib.Decide.{ℕ_discrete}
use native.Mathlib.Omega.{arith}
use realm_api.Common.Tests.{leb, ltb, ◌==◌, if◌then◌else◌, holds}
use realm_api.Common.Lists.{length, drop, length-reverse}

abbrev pub Text : Type 0
Text = List ℕ

abbrev pub txt : String → Text
txt String.[] = []
txt (String.◌∷◌ c s) = code c ∷ txt s

unfoldable pub Text-discrete : Discrete Text
unfolding ℕ_discrete
Text-discrete = hlevel ℕ_discrete

-- `a == b`
unfoldable pub eqb : Text → Text → Bool
eqb a b = holds (Text-discrete a b)

pub eqb_iff : (a b : Text) → (eqb a b ≡ true) ↔ (a ≡ b)
unfolding eqb
eqb_iff a b = elim (Text-discrete a b) as (λ d. (holds d ≡ true) ↔ (a ≡ b)) [
  | yes e ↦ (λ _. e, λ _. refl)
  | no ne ↦ (λ h. cc, λ e. absurd (ne e))
]

-- `len(s)`: the bytes of the UTF-8 form.
unfoldable pub rune_len : ℕ → ℕ
rune_len c = if ltb c 0x80 then 1 else if ltb c 0x800 then 2 else if ltb c 0x1_0000 then 3 else 4

unfoldable pub byte_len : Text → ℕ
unfolding rune_len
byte_len [] = 0
byte_len (c ∷ s) = rune_len c + byte_len s

-- `unicode.IsSpace`
unfoldable pub is_space : ℕ → Bool
is_space c =
    leb 0x09 c && leb c 0x0d
    || c == 0x20
    || c == 0x85
    || c == 0xa0
    || c == 0x1680
    || leb 0x2000 c && leb c 0x200a
    || c == 0x2028
    || c == 0x2029
    || c == 0x202f
    || c == 0x205f
    || c == 0x3000

unfoldable pub trim_left : Text → Text
trim_left [] = []
trim_left (c ∷ s) = if is_space c then trim_left s else c ∷ s

-- `strings.TrimSpace`
unfoldable pub trim_space : Text → Text
unfolding trim_left is_space
trim_space s = reverse (trim_left (reverse (trim_left s)))

-- `strings.HasPrefix(s, prefix)`
unfoldable pub has_prefix : Text → Text → Bool
has_prefix s [] = true
has_prefix [] (c ∷ p) = false
has_prefix (d ∷ s) (c ∷ p) = d == c && has_prefix s p

-- `strings.TrimPrefix(s, prefix)`
unfoldable pub trim_prefix : Text → Text → Text
unfolding has_prefix
trim_prefix s p = if has_prefix s p then drop (length p) s else s

unfoldable pub has_suffix : Text → Text → Bool
unfolding has_prefix
has_suffix s p = has_prefix (reverse s) (reverse p)

unfoldable pub trim_suffix : Text → Text → Text
unfolding has_suffix
trim_suffix s p = if has_suffix s p then reverse (drop (length p) (reverse s)) else s

-- `strings.ToLower`: ASCII letters, and beyond ASCII the table of package unicode, a parameter.
unfoldable pub lower_rune : (ℕ → ℕ) → ℕ → ℕ
lower_rune table c =
    if ltb c 0x80 then (if leb b'A' c && leb c b'Z' then c + 32 else c) else table c

unfoldable pub to_lower : (ℕ → ℕ) → Text → Text
unfolding lower_rune
to_lower table = map (lower_rune table)

-- `strings.ToUpper`, in the same way
unfoldable pub upper_rune : (ℕ → ℕ) → ℕ → ℕ
upper_rune table c =
    if ltb c 0x80 then (if leb b'a' c && leb c b'z' then c - 32 else c) else table c

unfoldable pub to_upper : (ℕ → ℕ) → Text → Text
unfolding upper_rune
to_upper table = map (upper_rune table)

pub has_prefix-append : (p s : Text) → has_prefix (p ++ s) p ≡ true
unfolding has_prefix
has_prefix-append [] s = refl
has_prefix-append (c ∷ p) s = ground (arith, has_prefix-append p s)

pub has_prefix_split : (s p : Text) → has_prefix s p ≡ true → s ≡ p ++ drop (length p) s
unfolding has_prefix
has_prefix_split s [] h = refl
has_prefix_split [] (c ∷ p) h = cc
has_prefix_split (d ∷ s) (c ∷ p) h = ground (arith, has_prefix_split s p)

pub drop-append : (p s : Text) → drop (length p) (p ++ s) ≡ s
drop-append [] s = refl
drop-append (c ∷ p) s = drop-append p s

-- A text that ends in `p` is what `trim_suffix` leaves, followed by `p`.
pub has_suffix_split : (s p : Text) → has_suffix s p ≡ true → s ≡ trim_suffix s p ++ p
unfolding trim_suffix
has_suffix_split s p h =
    let e : reverse s ≡ reverse p ++ drop (length p) (reverse s) =
      rw (← length-reverse p) (has_prefix_split (reverse s) (reverse p) h) in
    rw h (sym (reverse-reverse s) ∙ (ap reverse e ∙ simp (reverse-append, reverse-reverse)))

pub has_suffix-append : (s p : Text) → has_suffix (s ++ p) p ≡ true
unfolding has_suffix
has_suffix-append s p = rw (reverse-append s p) (has_prefix-append (reverse p) (reverse s))

pub trim_suffix-append : (s p : Text) → trim_suffix (s ++ p) p ≡ s
unfolding trim_suffix
trim_suffix-append s p =
    rw (has_suffix-append s p)
      (rw (reverse-append s p, ← length-reverse p, drop-append) (reverse-reverse s))
