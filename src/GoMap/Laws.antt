-- ===== src/GoMap/Laws.antt =====
-- Lemmas on the lookups in maps.
use Prim.Native.Nat.{ℕ, zero, suc, ◌+◌, ◌%◌, ◌≤◌, ◌<◌}
use mathlib.Core.List.{List, [], ◌∷◌}
use mathlib.Core.Logic.{ite}
use realm_api.Common.{Bool, Option, none, some, ◌≡◌, refl, ◌⊎◌, inl, length, arith, if◌then◌else◌}
use realm_api.GoMap.{delete_if, remove_at, delete_one, get, put, delete, IsMap}

module _ {ℓ} {K V : Type ℓ} (dec : Discrete K) where
  pub get-put :
      (k q : K) (v : V) (m : List (K × V))
      → get dec q (put dec k v m) ≡ ite (dec k q) (some v) (get dec q m)
  unfolding get put
  get-put k q v [] = refl
  get-put k q v ((j, w) ∷ m) = ground (arith, get-put k q v m)

  pub get-delete :
      (k q : K) (m : List (K × V)) → get dec q (delete dec k m) ≡ ite (dec k q) none (get dec q m)
  unfolding get delete
  get-delete k q [] = ground arith
  get-delete k q ((j, w) ∷ m) = ground (arith, get-delete k q m)

  pub length-put-le : (k : K) (v : V) (m : List (K × V)) → length (put dec k v m) ≤ length m + 1
  unfolding put
  length-put-le k v [] = omega arith
  length-put-le k v ((j, w) ∷ m) = ground (arith, length-put-le k v m)

  pub length-put_old :
      (k : K) (v w : V) (m : List (K × V))
      → get dec k m ≡ some w
      → length (put dec k v m) ≡ length m
  unfolding get put
  length-put_old k v w [] h = cc
  length-put_old k v w ((j, u) ∷ m) h = ground (arith, length-put_old k v w m)

  pub length-delete-le : (k : K) (m : List (K × V)) → length (delete dec k m) ≤ length m
  unfolding delete
  length-delete-le k [] = omega arith
  length-delete-le k ((j, w) ∷ m) = ground (arith, length-delete-le k m)

  pub put-IsMap : (k : K) (v : V) (m : List (K × V)) → IsMap dec m → IsMap dec (put dec k v m)
  unfolding get put
  put-IsMap k v [] h = ground arith
  put-IsMap k v ((j, w) ∷ m) h = ground (arith, put-IsMap k v m, get-put k j v m)

  pub delete-IsMap : (k : K) (m : List (K × V)) → IsMap dec m → IsMap dec (delete dec k m)
  unfolding get delete
  delete-IsMap k [] h = tt
  delete-IsMap k ((j, w) ∷ m) h = ground (arith, delete-IsMap k m, get-delete k j m)

  get-delete_if-none :
      (p : V → Bool) (q : K) (m : List (K × V))
      → get dec q m ≡ none
      → get dec q (delete_if p m) ≡ none
  unfolding get delete_if
  get-delete_if-none p q [] h = refl
  get-delete_if-none p q ((j, w) ∷ m) h = ground (arith, get-delete_if-none p q m)

  pub delete_if-IsMap : (p : V → Bool) (m : List (K × V)) → IsMap dec m → IsMap dec (delete_if p m)
  unfolding delete_if
  delete_if-IsMap p [] h = tt
  delete_if-IsMap p ((j, w) ∷ m) h = ground (arith, delete_if-IsMap p m, get-delete_if-none p j m)

  -- An entry is left exactly if its value does not pass the test.
  abbrev pub unless : (V → Bool) → Option V → Option V
  unless p none = none
  unless p (some v) = if p v then none else some v

  pub get-delete_if :
      (p : V → Bool) (q : K) (m : List (K × V))
      → IsMap dec m
      → get dec q (delete_if p m) ≡ unless p (get dec q m)
  unfolding get delete_if
  get-delete_if p q [] h = refl
  get-delete_if p q ((j, w) ∷ m) h = ground (arith, get-delete_if p q m, get-delete_if-none p q m)

  get-remove_at :
      (i : ℕ) (q : K) (m : List (K × V))
      → IsMap dec m
      → (get dec q (remove_at i m) ≡ none) ⊎ (get dec q (remove_at i m) ≡ get dec q m)
  unfolding get remove_at
  get-remove_at i q [] h = inl refl
  get-remove_at zero q ((j, w) ∷ m) h = ground arith
  get-remove_at (suc i) q ((j, w) ∷ m) h = ground (arith, get-remove_at i q m)

  remove_at-IsMap : (i : ℕ) (m : List (K × V)) → IsMap dec m → IsMap dec (remove_at i m)
  unfolding remove_at
  remove_at-IsMap i [] h = tt
  remove_at-IsMap zero ((j, w) ∷ m) h = h.1
  remove_at-IsMap (suc i) ((j, w) ∷ m) h = ground (arith, remove_at-IsMap i m, get-remove_at i j m)

  -- Whichever entry is deleted, the others are found as before.
  pub get-delete_one :
      (choice : ℕ) (q : K) (m : List (K × V))
      → IsMap dec m
      → (get dec q (delete_one choice m) ≡ none) ⊎ (get dec q (delete_one choice m) ≡ get dec q m)
  unfolding delete_one
  get-delete_one choice q m h = get-remove_at (choice % length m) q m h

  pub delete_one-IsMap :
      (choice : ℕ) (m : List (K × V)) → IsMap dec m → IsMap dec (delete_one choice m)
  unfolding delete_one
  delete_one-IsMap choice m h = remove_at-IsMap (choice % length m) m h

module _ {ℓ} {K V : Type ℓ} where
  pub length-delete_if-le : (p : V → Bool) (m : List (K × V)) → length (delete_if p m) ≤ length m
  unfolding delete_if
  length-delete_if-le p [] = omega arith
  length-delete_if-le p ((j, w) ∷ m) = ground (arith, length-delete_if-le p m)

  length-remove_at :
      (i : ℕ) (m : List (K × V)) → i < length m → length (remove_at i m) + 1 ≡ length m
  unfolding remove_at
  length-remove_at i [] h = absurd (omega arith)
  length-remove_at zero (e ∷ m) h = omega arith
  length-remove_at (suc i) (e ∷ m) h = omega (arith, length-remove_at i m)

  pub length-delete_one :
      (choice : ℕ) (m : List (K × V)) → 0 < length m → length (delete_one choice m) + 1 ≡ length m
  unfolding delete_one
  length-delete_one choice m h = length-remove_at (choice % length m) m (grind arith)
