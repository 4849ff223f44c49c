-- ===== src/Common/Uniqueness.antt =====
-- Lists no two elements of which clash.
use mathlib.Core.Bool.{Bool, false}
use mathlib.Core.List.{List, [], ◌∷◌, ◌++◌}
use mathlib.Core.Path.{◌≡◌, refl}
use native.Mathlib.Omega.{arith}
use realm_api.Common.Lists.{any, any-append, keep}

module _ {A : Type 0} where
  abbrev pub Distinct : (A → A → Bool) → List A → Type 0
  Distinct clash [] = Unit
  Distinct clash (x ∷ xs) = (any (clash x) xs ≡ false) × Distinct clash xs

  pub Distinct-append :
      (clash : A → A → Bool) (xs : List A) (y : A)
      → Distinct clash xs
      → any (λ x. clash x y) xs ≡ false
      → Distinct clash (xs ++ y ∷ [])
  Distinct-append clash [] y d h = (refl, tt)
  Distinct-append clash (x ∷ xs) y d h = (
    ground (arith, any-append (clash x) xs (y ∷ [])),
    Distinct-append clash xs y d.1 (ground arith),
  )

  pub any-keep : (p q : A → Bool) (xs : List A) → any p xs ≡ false → any p (keep q xs) ≡ false
  any-keep p q [] h = refl
  any-keep p q (x ∷ xs) h = ground (arith, any-keep p q xs)

  pub Distinct-keep :
      (clash : A → A → Bool) (q : A → Bool) (xs : List A)
      → Distinct clash xs
      → Distinct clash (keep q xs)
  Distinct-keep clash q [] d = tt
  Distinct-keep clash q (x ∷ xs) d =
      ground (arith, any-keep (clash x) q xs d.0, Distinct-keep clash q xs d.1)
