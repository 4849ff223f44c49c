-- ===== src/Comments/Threads.antt =====
-- The invariant of the table `post_comments` that internal/service/comment.go keeps, and that its
-- threads can be nested.
use realm_api.Common.{
  ℕ, ◌≡◌, refl, Bool, true, false, ◌&&◌, ◌||◌, not, none, some, List, [], ◌∷◌, ◌++◌, Text, any,
  any-append, length, is_empty, leb, eqb, ◌==◌, if◌then◌else◌, arith, Option-cases, Bool-cases, inl,
  inr,
}
use mathlib.Core.List.{append_assoc, append-nil}
use realm_api.Comments.{PostComment}
use realm_api.Comments.Repo.{Table, has_id, update_rows, edited, cascade, orphaned}

-- The row `p` of the post.
abbrev pub is_parent : ℕ → Text → PostComment → Bool
is_parent p slug c = has_id p c && eqb c.post_slug slug

abbrev pub answers_one : List PostComment → PostComment → Bool
answers_one before c = elim c.parent_id [
  | none ↦ true
  | some p ↦ any (is_parent p c.post_slug) before
]

-- The identifier is new, the content has 1 to 2000 characters, and a row that the comment answers
-- comes before it, in the same post.
unfoldable pub fits : List PostComment → PostComment → Bool
fits before c =
    not (any (has_id c.id) before)
    && not (c.id == 0)
    && not (is_empty c.content)
    && leb (length c.content) 2000
    && answers_one before c

unfoldable pub are_threads : List PostComment → List PostComment → Bool
are_threads before [] = true
are_threads before (c ∷ rows) = fits before c && are_threads (before ++ c ∷ []) rows

-- Every row fits the rows before it.
abbrev pub IsThreads : Table → Type 0
IsThreads rows = are_threads [] rows ≡ true

pub are_threads-append :
    (before xs : List PostComment) (c : PostComment)
    → are_threads before (xs ++ c ∷ []) ≡ are_threads before xs && fits (before ++ xs) c
unfolding are_threads
are_threads-append before [] c = rw (append-nil before) (ground arith)
are_threads-append before (x ∷ xs) c =
    rw (are_threads-append (before ++ x ∷ []) xs c, append_assoc before (x ∷ []) xs) (ground arith)

-- An edit moves no row, and changes no identifier and no post.
module _ (hit : PostComment → Bool) (now : ℕ) (content : Text) where
  any-update_rows :
      (q : PostComment → Bool)
      → ((c : PostComment) → q (edited now content c) ≡ q c)
      → (rows : Table) → any q (update_rows hit now content rows) ≡ any q rows
  unfolding update_rows
  any-update_rows q h [] = refl
  any-update_rows q h (c ∷ rows) = ground (arith, h c, any-update_rows q h rows)

  abbrev maybe_edited : PostComment → PostComment
  maybe_edited c = if hit c then edited now content c else c

  fits-update_rows :
      (before : Table) (c : PostComment)
      → not (is_empty content) && leb (length content) 2000 ≡ true
      → fits before c ≡ true
      → fits (update_rows hit now content before) (maybe_edited c) ≡ true
  unfolding fits
  fits-update_rows before c short h =
      let ids = any-update_rows (has_id c.id) (λ d. refl) before in
      elim (Option-cases c.parent_id) [
        | inl top ↦ ground arith
        | inr (p, up) ↦
            let parents = any-update_rows (is_parent p c.post_slug) (λ d. refl) before in
            ground arith
      ]

  update_rows-append :
      (xs : Table) (c : PostComment)
      → update_rows hit now content (xs ++ c ∷ [])
        ≡ update_rows hit now content xs ++ maybe_edited c ∷ []
  unfolding update_rows
  update_rows-append [] c = refl
  update_rows-append (x ∷ xs) c = rw (update_rows-append xs c)

  pub are_threads-update_rows :
      (before rows : Table)
      → not (is_empty content) && leb (length content) 2000 ≡ true
      → are_threads before rows ≡ true
      → are_threads (update_rows hit now content before) (update_rows hit now content rows) ≡ true
  unfolding are_threads update_rows
  are_threads-update_rows before [] short h = refl
  are_threads-update_rows before (c ∷ rows) short h =
      let here = fits-update_rows before c short (ground arith) in
      let later = are_threads-update_rows (before ++ c ∷ []) rows short (ground arith) in
      rw here (rw (← update_rows-append before c) later)

abbrev gone_one : List ℕ → ℕ → Bool
gone_one gone p = any (λ g. g == p) gone

-- What is known of the rows `kept` that are left of `before`, if those in `gone` went.
abbrev Left : List ℕ → Table → Table → Type 0
Left gone before kept =
    ((id : ℕ) → any (has_id id) before ≡ false → any (has_id id) kept ≡ false)
    × ((p : ℕ) (slug : Text)
        → any (is_parent p slug) before ≡ true
        → gone_one gone p ≡ false
        → any (is_parent p slug) kept ≡ true)

Left-keep :
    (gone : List ℕ) (before kept : Table) (c : PostComment)
    → Left gone before kept
    → Left gone (before ++ c ∷ []) (kept ++ c ∷ [])
Left-keep gone before kept c (ids, parents) = (
  λ id h.
      rw (any-append (has_id id) kept (c ∷ []))
        (let split = any-append (has_id id) before (c ∷ []) in ground (arith, ids id)),
  λ p slug h there.
      rw (any-append (is_parent p slug) kept (c ∷ [])) (
        let split = any-append (is_parent p slug) before (c ∷ []) in
        ground (arith, parents p slug)),
)

Left-drop :
    (gone : List ℕ) (before kept : Table) (c : PostComment)
    → Left gone before kept
    → Left (c.id ∷ gone) (before ++ c ∷ []) kept
Left-drop gone before kept c (ids, parents) = (
  λ id h. let split = any-append (has_id id) before (c ∷ []) in ground (arith, ids id),
  λ p slug h there.
      let split = any-append (is_parent p slug) before (c ∷ []) in ground (arith, parents p slug),
)

fits-Left :
    (gone : List ℕ) (before kept : Table) (c : PostComment)
    → Left gone before kept
    → orphaned gone c ≡ false
    → fits before c ≡ true
    → fits kept c ≡ true
unfolding fits
fits-Left gone before kept c (ids, parents) there h = elim (Option-cases c.parent_id) [
  | inl top ↦ ground (arith, ids c.id)
  | inr (p, up) ↦ ground (arith, ids c.id, parents p c.post_slug)
]

pub are_threads-cascade :
    (hit : PostComment → Bool) (gone : List ℕ) (before kept rows : Table)
    → Left gone before kept
    → are_threads before rows ≡ true
    → are_threads kept (cascade hit gone rows) ≡ true
unfolding are_threads cascade
are_threads-cascade hit gone before kept [] l h = refl
are_threads-cascade hit gone before kept (c ∷ rows) l h =
    elim (Bool-cases (hit c || orphaned gone c)) [
      | inl out ↦ rw out (
          are_threads-cascade hit (c.id ∷ gone) (before ++ c ∷ []) kept rows
            (Left-drop gone before kept c l) (ground arith))
      | inr stays ↦
          rw (stays, fits-Left gone before kept c l (ground arith) (ground arith))
            (are_threads-cascade hit gone (before ++ c ∷ []) (kept ++ c ∷ []) rows
              (Left-keep gone before kept c l) (ground arith))
    ]
