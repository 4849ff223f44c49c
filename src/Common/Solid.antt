-- ===== src/Common/Solid.antt =====
-- Texts without white space, which trimming leaves alone, and what trimming leaves.
use mathlib.Core.Bool.{false}
use mathlib.Core.List.{[], ◌∷◌, ◌++◌, reverse, reverse_aux, reverse-reverse}
use mathlib.Core.Path.{◌≡◌, refl}
use realm_api.Common.Lists.{All}
use realm_api.Common.Texts.{Text, is_space, trim_left, trim_space}

abbrev pub IsSolid : Text → Type 0
IsSolid = All (λ c. is_space c ≡ false)

trim_left_of_solid : (s : Text) → IsSolid s → trim_left s ≡ s
unfolding trim_left
trim_left_of_solid [] h = refl
trim_left_of_solid (c ∷ s) h = rw h.0

reverse_aux-IsSolid : (s t : Text) → IsSolid s → IsSolid t → IsSolid (reverse_aux s t)
reverse_aux-IsSolid [] t h k = k
reverse_aux-IsSolid (c ∷ s) t h k = reverse_aux-IsSolid s (c ∷ t) h.1 (h.0, k)

pub trim_space_of_solid : (s : Text) → IsSolid s → trim_space s ≡ s
unfolding trim_space
trim_space_of_solid s h =
    rw (trim_left_of_solid s h)
      (rw (trim_left_of_solid (reverse s) (reverse_aux-IsSolid s [] h tt)) (reverse-reverse s))

pub append-IsSolid : (s t : Text) → IsSolid s → IsSolid t → IsSolid (s ++ t)
append-IsSolid [] t h k = k
append-IsSolid (c ∷ s) t h k = (h.0, append-IsSolid s t h.1 k)
