-- ===== src/Comments/Shown.antt =====
-- What `GetComments` (internal/service/comment.go) shows of a table in threads.
use mathlib.Core.List.{append_assoc}
use realm_api.Common.{
  ℕ, ◌≡◌, refl, sym, ◌∙◌, ap, Bool, true, false, Option, none, some, [], ◌∷◌, ◌++◌, Text, any,
  any-append, keep, map, length, is_empty, trim_space, eqb_iff, if◌then◌else◌, arith, Option-cases,
  Bool-cases, inl, inr,
}
use realm_api.Errors.{ok}
use realm_api.Env.{Env}
use realm_api.Comments.{PostComment}
use realm_api.Comments.Nest.Shape.{InOrder, answers, is_root, two_level, nest_lem}
use realm_api.Comments.Repo
use realm_api.Comments.Repo.{Table, has_id, in_post}
use realm_api.Comments.Service
use realm_api.Comments.Threads.{IsThreads, are_threads, fits, is_parent}

keep-snoc :
    (q : PostComment → Bool) (xs : Table) (c : PostComment)
    → keep q (xs ++ c ∷ []) ≡ (if q c then keep q xs ++ c ∷ [] else keep q xs)
keep-snoc q [] c = refl
keep-snoc q (x ∷ xs) c = ground (arith, keep-snoc q xs c)

any-keep-false :
    (p q : PostComment → Bool) (xs : Table) → any p xs ≡ false → any p (keep q xs) ≡ false
any-keep-false p q [] h = refl
any-keep-false p q (x ∷ xs) h = ground (arith, any-keep-false p q xs)

module _ (slug : Text) where
  any-keep_parent :
      (p : ℕ) (xs : Table)
      → any (is_parent p slug) (keep (in_post slug) xs) ≡ any (is_parent p slug) xs
  any-keep_parent p [] = refl
  any-keep_parent p (x ∷ xs) = ground (arith, any-keep_parent p xs)

  fits-keep :
      (before : Table) (c : PostComment)
      → in_post slug c ≡ true
      → fits before c ≡ true
      → fits (keep (in_post slug) before) c ≡ true
  unfolding fits
  fits-keep before c here h =
      let ids = any-keep-false (has_id c.id) (in_post slug) before in
      let post = eqb_iff c.post_slug slug in
      elim (Option-cases c.parent_id) [
        | inl top ↦ ground arith
        | inr (p, up) ↦ let parents = any-keep_parent p before in ground arith
      ]

  are_threads-keep :
      (before rows : Table)
      → are_threads before rows ≡ true
      → are_threads (keep (in_post slug) before) (keep (in_post slug) rows) ≡ true
  unfolding are_threads
  are_threads-keep before [] h = refl
  are_threads-keep before (c ∷ rows) h =
      let later = are_threads-keep (before ++ c ∷ []) rows (ground arith) in
      let grown = keep-snoc (in_post slug) before c in
      elim (Bool-cases (in_post slug c)) [
        | inl here ↦
            let first = fits-keep before c here (ground arith) in
            let more = grown ∙ rw here in rw (here, first) (rw more at later)
        | inr other ↦ let same = grown ∙ rw other in rw other (rw same at later)
      ]

-- An identifier that is not among the rows is answered by none of them.
abbrev Closed : Table → Type 0
Closed before = (id : ℕ) → any (has_id id) before ≡ false → any (answers id) before ≡ false

parent-known :
    (before : Table) (c : PostComment) (p : ℕ)
    → fits before c ≡ true
    → c.parent_id ≡ some p
    → any (has_id p) before ≡ true
unfolding fits
parent-known before c p h up = let weaker = parent-any before p c.post_slug in ground arith
  where
    parent-any :
        (xs : Table) (q : ℕ) (slug : Text)
        → any (is_parent q slug) xs ≡ true
        → any (has_id q) xs ≡ true
    parent-any [] q slug k = k
    parent-any (x ∷ xs) q slug k = ground (arith, parent-any xs q slug)

new-id :
    (before : Table) (c : PostComment) → fits before c ≡ true → any (has_id c.id) before ≡ false
unfolding fits
new-id before c h = ground arith

Closed-snoc :
    (before : Table) (c : PostComment)
    → fits before c ≡ true
    → Closed before
    → Closed (before ++ c ∷ [])
Closed-snoc before c h closed id out =
    let split = any-append (has_id id) before (c ∷ []) in
    rw (any-append (answers id) before (c ∷ [])) (elim (Option-cases c.parent_id) [
      | inl top ↦ ground (arith, closed id)
      | inr (p, up) ↦ let known = parent-known before c p h up in ground (arith, closed id)
    ])

are_threads-InOrder :
    (before rows : Table) → Closed before → are_threads before rows ≡ true → InOrder before rows
unfolding are_threads
are_threads-InOrder before [] closed h = tt
are_threads-InOrder before (c ∷ rows) closed h =
    let first : fits before c ≡ true = ground arith in
    (
      closed c.id (new-id before c first),
      are_threads-InOrder (before ++ c ∷ []) rows (Closed-snoc before c first closed)
          (ground arith),
    )

-- The comment answers nothing.
abbrev pub is_top : PostComment → Bool
is_top c = elim c.parent_id [ none ↦ true | some p ↦ false ]

keep-is_root :
    (all_rows before rows : Table)
    → all_rows ≡ before ++ rows
    → are_threads before rows ≡ true
    → keep (is_root all_rows) rows ≡ keep is_top rows
unfolding are_threads
keep-is_root all_rows before [] e h = refl
keep-is_root all_rows before (c ∷ rows) e h =
    let first : fits before c ≡ true = ground arith in
    let later =
      keep-is_root all_rows (before ++ c ∷ []) rows (e ∙ sym (append_assoc before (c ∷ []) rows))
        (ground arith) in
    elim (Option-cases c.parent_id) [
      | inl top ↦ ground arith
      | inr (p, up) ↦
          let known = parent-known before c p first up in
          let split = ap (any (has_id p)) e ∙ any-append (has_id p) before (c ∷ rows) in
          ground arith
    ]

-- On a table in threads, and if the query does not fail, `GetComments` gives for a slug the number of
-- the post's comments, and as the tree every comment of the post that answers nothing, in order, with
-- the direct answers to it, in order. A deeper answer is counted but not shown.
pub get_comments_lem :
    (e : Env) (raw_slug : Text) (current_user : Option ℕ) (rows : Table)
    → IsThreads rows
    → e.fails 0 ≡ false
    → is_empty (trim_space raw_slug) ≡ false
    → Service.get_comments e raw_slug current_user (some rows)
      ≡ ok (record {
        slug = trim_space raw_slug;
        total_count = length (keep (in_post (trim_space raw_slug)) rows);
        comments =
            map
              (two_level current_user (keep (in_post (trim_space raw_slug)) rows))
              (keep is_top (keep (in_post (trim_space raw_slug)) rows));
      })
unfolding Service.get_comments Repo.get_comments_by_slug
get_comments_lem e raw_slug current_user rows t up named =
    let found = keep (in_post (trim_space raw_slug)) rows in
    let threads = are_threads-keep (trim_space raw_slug) [] rows t in
    let tree = nest_lem current_user found (are_threads-InOrder [] found (λ id h. refl) threads) in
    let roots = keep-is_root found [] found refl threads in rw (named, up, tree, roots)
