-- ===== src/Users/Service/Naming.antt =====
-- Proofs about the loop of `HandleOAuthLogin` that looks for a user name.
use realm_api.Common.{
  ℕ, zero, suc, ◌+◌, ◌≤◌, ◌<◌, ◌≡◌, ◌∙◌, ◌⊎◌, inl, inr, refl, Bool, true, some, [], ◌∷◌, ◌++◌, Text,
  txt, take, length, all, all-append, length-append, ltb, arith, Bool-cases,
}
use realm_api.Env.{Env}
use realm_api.Users.Names.{is_word, matches_username}
use realm_api.Users.Repo.{Db, get_by_username}
use realm_api.Users.Service.{Libraries}
use realm_api.Users.Service.Profile.{OAuthUserInfo}
use realm_api.Users.Service.OAuth.{
  Drawn, decimal, numbered, pick_name, not_found, first_name, choose_name,
}

take-words : (n : ℕ) (t : Text) → all is_word t ≡ true → all is_word (take n t) ≡ true
take-words zero t h = refl
take-words (suc n) [] h = refl
take-words (suc n) (c ∷ t) h = ground (arith, take-words n t)

length-take_bounds : (n : ℕ) (t : Text) → (length (take n t) ≤ n) × (length (take n t) ≤ length t)
length-take_bounds zero t = omega arith
length-take_bounds (suc n) [] = omega arith
length-take_bounds (suc n) (c ∷ t) = omega (arith, length-take_bounds n t)

length-take_pos : (n : ℕ) (t : Text) → 1 ≤ length t → 1 ≤ length (take (suc n) t)
length-take_pos n [] h = absurd (omega arith)
length-take_pos n (c ∷ t) h = omega arith

matches_of :
    (t : Text) → 3 ≤ length t → length t ≤ 30 → all is_word t ≡ true → matches_username t ≡ true
unfolding matches_username
matches_of t low high words = ground arith

matched :
    (t : Text)
    → matches_username t ≡ true
    → (3 ≤ length t) × (length t ≤ 30) × (all is_word t ≡ true)
unfolding matches_username
matched t h = ground arith

underscore_word : is_word b'_' ≡ true
unfolding is_word
underscore_word = refl

decimal_word :
    (n : ℕ)
    → n < 100
    → (all is_word (decimal n) ≡ true) × (1 ≤ length (decimal n)) × (length (decimal n) ≤ 2)
unfolding decimal is_word
decimal_word n h = ground arith

-- A name that is cut to 20 characters and numbered is accepted again.
numbered_matches :
    (original : Text) (counter : ℕ)
    → matches_username original ≡ true
    → counter < 100
    → matches_username (numbered original counter) ≡ true
unfolding numbered
numbered_matches original counter h small =
    let (words, low, high) = decimal_word counter small in
    let (long, short, chars) = matched original h in
    let start = length-take_bounds 20 original in
    let nonempty = length-take_pos 19 original (omega arith) in
    let kept = take-words 20 original chars in
    let count = length-append (take 20 original) (b'_' ∷ decimal counter) in
    let joined = all-append is_word (take 20 original) (b'_' ∷ decimal counter) in
    let line = underscore_word in
    matches_of (take 20 original ++ b'_' ∷ decimal counter) (omega arith) (omega arith)
      (joined ∙ rw (kept, line, words))

module _ (is_free : ℕ → Text → Bool) (fallback original : Text) where
  -- the name, and why it was taken
  pub record Picked (n : Text) : Type 0 where
    pub matches : matches_username n ≡ true
    pub why : (n ≡ fallback) ⊎ ((round : ℕ) × (is_free round n ≡ true))

  pick_name_total :
      (fuel counter : ℕ) (name : Text)
      → matches_username fallback ≡ true
      → matches_username original ≡ true
      → matches_username name ≡ true
      → counter ≤ 50
      → 51 ≤ fuel + counter
      → (n : Text) × (pick_name is_free fallback original fuel counter name ≡ some n) × Picked n
  unfolding pick_name
  pick_name_total zero counter name hf ho hn low enough = absurd (omega arith)
  pick_name_total (suc fuel) counter name hf ho hn low enough =
      elim (Bool-cases (is_free counter name)) [
        | inl free ↦ (name, rw free refl, record { matches = hn; why = inr (counter, free) })
        | inr taken ↦ elim (Bool-cases (ltb 50 (counter + 1))) [
          | inl last ↦ (fallback, rw taken (rw last refl), record { matches = hf; why = inl refl })
          | inr more ↦ rw taken (
              rw more (
                pick_name_total fuel (counter + 1) (numbered original counter) hf ho
                  (numbered_matches original counter ho (omega arith)) (ground arith)
                  (ground arith)))
        ]
      ]

-- the first characters of a UUID
abbrev pub IsShort : Text → Type 0
IsShort t = (length t ≡ 8) × (all is_word t ≡ true)

short_matches : (t : Text) → IsShort t → matches_username (txt "user_" ++ t) ≡ true
unfolding is_word
short_matches t (eight, words) =
    matches_of (txt "user_" ++ t) (omega arith) (omega arith) (ground arith)

first_name_matches :
    (l : Libraries) (d : Drawn) (i : OAuthUserInfo)
    → IsShort d.short
    → matches_username (first_name l d i) ≡ true
unfolding first_name
first_name_matches l d i short = ground (arith, short_matches d.short short)

-- Provided that the first eight characters of a UUID are letters or digits, the search for a user name
-- ends within its 50 rounds whatever the queries answer, and its name is accepted by the pattern: one
-- that a query did not find, or the one drawn at the end.
pub choose_name_total :
    (l : Libraries) (e : Env) (d : Drawn) (i : OAuthUserInfo) (db : Db)
    → IsShort d.short
    → IsShort d.short'
    → (n : Text) × (choose_name l e d i db ≡ some n)
      × Picked
          (λ counter name.
            not_found (get_by_username l.sql_lower (e.fails (100 + counter)) name db))
          (txt "user_" ++ d.short')
          (first_name l d i)
          n
unfolding choose_name
choose_name_total l e d i db short short' =
    pick_name_total
      (λ counter name. not_found (get_by_username l.sql_lower (e.fails (100 + counter)) name db))
      (txt "user_" ++ d.short') (first_name l d i) 50 1 (first_name l d i)
      (short_matches d.short' short') (first_name_matches l d i short)
      (first_name_matches l d i short) (omega arith) (omega arith)
