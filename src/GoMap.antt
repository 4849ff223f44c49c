-- ===== src/GoMap.antt =====
-- Go maps as association lists over keys with decidable equality: at most one entry for a key, and
-- the entries in the order in which a `range` loop would yield them.
pub mod Laws
use Prim.Native.Nat.{ℕ, zero, suc, ◌%◌}
use mathlib.Core.List.{List, [], ◌∷◌}
use mathlib.Core.Logic.{ite}
use realm_api.Common.{Bool, Option, none, some, ◌≡◌, length, if◌then◌else◌}

module _ {ℓ} {K V : Type ℓ} where
  -- `delete(m, k)` inside `for k, v := range m`, for the entries whose value passes the test
  unfoldable pub delete_if : (V → Bool) → List (K × V) → List (K × V)
  delete_if p [] = []
  delete_if p ((k, v) ∷ m) = if p v then delete_if p m else (k, v) ∷ delete_if p m

  remove_at : ℕ → List (K × V) → List (K × V)
  remove_at i [] = []
  remove_at zero (e ∷ m) = m
  remove_at (suc i) (e ∷ m) = e ∷ remove_at i m

  -- `for k := range m { delete(m, k); break }`: the runtime chooses the entry, here by a number
  unfoldable pub delete_one : ℕ → List (K × V) → List (K × V)
  unfolding remove_at
  delete_one choice m = remove_at (choice % length m) m

  module _ (dec : Discrete K) where
    unfoldable pub get : K → List (K × V) → Option V
    get q [] = none
    get q ((k, v) ∷ m) = ite (dec k q) (some v) (get q m)

    unfoldable pub put : K → V → List (K × V) → List (K × V)
    put q w [] = (q, w) ∷ []
    put q w ((k, v) ∷ m) = ite (dec k q) ((k, w) ∷ m) ((k, v) ∷ put q w m)

    unfoldable pub delete : K → List (K × V) → List (K × V)
    delete q [] = []
    delete q ((k, v) ∷ m) = ite (dec k q) (delete q m) ((k, v) ∷ delete q m)

    -- No key stands twice.
    abbrev pub IsMap : List (K × V) → Type ℓ
    IsMap [] = Unit
    IsMap ((k, v) ∷ m) = (get k m ≡ none) × IsMap m
