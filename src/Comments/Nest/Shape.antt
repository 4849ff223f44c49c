-- ===== src/Comments/Nest/Shape.antt =====
-- The tree that the loops build, if no row comes before the row that it answers: two levels.
use realm_api.Common.{
  keep, ℕ, ◌≡◌, refl, Bool, true, false, Option, none, some, List, [], ◌∷◌, ◌++◌, map, ℕ_discrete,
  ◌==◌, not, if◌then◌else◌, any, all, any-append, arith, Option-cases, Bool-cases, inl, inr, ◌∙◌,
  sym,
}
use mathlib.Core.List.{append-nil, append_assoc}
use realm_api.GoMap
use realm_api.GoMap.Laws
use realm_api.Comments.{PostComment, CommentDto, dto, Replies, nil, cons}
use realm_api.Comments.Nest.{
  CommentMap, append, is_author, replies_of, index, Placed, place, place_all, refresh, nest,
}

-- The row answers the comment `id`.
abbrev pub answers : ℕ → PostComment → Bool
answers id c = elim c.parent_id [ none ↦ false | some p ↦ p == id ]

abbrev pub has_id : ℕ → PostComment → Bool
has_id id c = c.id == id

-- The row answers nothing, or something that is not among the rows.
abbrev pub is_root : List PostComment → PostComment → Bool
is_root rows c = elim c.parent_id [ none ↦ true | some p ↦ not (any (has_id p) rows) ]

-- No row comes before the row that it answers.
abbrev pub InOrder : List PostComment → List PostComment → Type 0
InOrder before [] = Unit
InOrder before (c ∷ cs) = (any (answers c.id) before ≡ false) × InOrder (before ++ c ∷ []) cs

module _ (current_user : Option ℕ) where
  abbrev pub leaf : PostComment → CommentDto
  leaf c = dto c (is_author current_user c) nil

  abbrev pub leaves : List PostComment → Replies
  leaves [] = nil
  leaves (c ∷ cs) = cons (leaf c) (leaves cs)

  -- A root with the rows that answer it, each of these without replies.
  abbrev pub two_level : List PostComment → PostComment → CommentDto
  two_level rows c = dto c (is_author current_user c) (leaves (keep (answers c.id) rows))

  leaves-append :
      (cs : List PostComment) (c : PostComment)
      → append (leaves cs) (leaf c) ≡ leaves (cs ++ c ∷ [])
  unfolding append
  leaves-append [] c = refl
  leaves-append (d ∷ cs) c = ground (arith, leaves-append cs c)

keep-append :
    (p : PostComment → Bool) (xs ys : List PostComment) → keep p (xs ++ ys) ≡ keep p xs ++ keep p ys
keep-append p [] ys = refl
keep-append p (x ∷ xs) ys = ground (arith, keep-append p xs ys)

keep-none : (p : PostComment → Bool) (xs : List PostComment) → any p xs ≡ false → keep p xs ≡ []
keep-none p [] h = refl
keep-none p (x ∷ xs) h = ground (arith, keep-none p xs)

get-index :
    (id : ℕ) (rows : List PostComment)
    → GoMap.get ℕ_discrete id (index rows) ≡ (if any (has_id id) rows then some nil else none)
unfolding index GoMap.get
get-index id [] = refl
get-index id (c ∷ cs) =
    ground (arith, get-index id cs, Laws.get-put ℕ_discrete c.id id nil (index cs))

module _ (current_user : Option ℕ) (rows : List PostComment) where
  -- What the map holds when the rows of `before` have been placed.
  abbrev Holds : CommentMap → List PostComment → Type 0
  Holds m before =
      (id : ℕ)
      → GoMap.get ℕ_discrete id m ≡ (
          if any (has_id id) rows
          then some (leaves current_user (keep (answers id) before))
          else none)

  module _ (c : PostComment) (before : List PostComment) (p : Placed)
      (h : Holds p.comment_map before) where
    replies-nil : any (answers c.id) before ≡ false → replies_of c.id p.comment_map ≡ nil
    unfolding replies_of
    replies-nil first = ground (arith, h c.id, keep-none (answers c.id) before first)

    place-Holds :
        any (answers c.id) before ≡ false
        → Holds (place current_user c p).comment_map (before ++ c ∷ [])
    unfolding place
    place-Holds first id = elim (Option-cases c.parent_id) [
      | inl top ↦ ground (
        arith,
        h id,
        keep-append (answers id) before (c ∷ []),
        append-nil (keep (answers id) before),
      )
      | inr (q, answered) ↦ ground (
        arith,
        h id,
        h q,
        replies-nil first,
        keep-append (answers id) before (c ∷ []),
        append-nil (keep (answers id) before),
        leaves-append current_user (keep (answers q) before) c,
        Laws.get-put ℕ_discrete q id
            (append (leaves current_user (keep (answers q) before)) (leaf current_user c))
            p.comment_map,
      )
    ]

    place-roots :
        any (answers c.id) before ≡ false
        → (place current_user c p).root_comments ≡ (
            if is_root rows c then p.root_comments ++ leaf current_user c ∷ [] else p.root_comments)
    unfolding place
    place-roots first = elim (Option-cases c.parent_id) [
      | inl top ↦ ground (arith, replies-nil first)
      | inr (q, answered) ↦ ground (arith, h q, replies-nil first)
    ]

  place_all-Holds :
      (before cs : List PostComment) (p : Placed)
      → InOrder before cs
      → Holds p.comment_map before
      → Holds (place_all current_user cs p).comment_map (before ++ cs)
  unfolding place_all
  place_all-Holds before [] p o h = rw (append-nil before) h
  place_all-Holds before (c ∷ cs) p o h = rw (← append_assoc before (c ∷ []) cs) (
      place_all-Holds (before ++ c ∷ []) cs (place current_user c p) o.1
        (place-Holds c before p h o.0))

  place_all-roots :
      (before cs : List PostComment) (p : Placed)
      → InOrder before cs
      → Holds p.comment_map before
      → (place_all current_user cs p).root_comments
        ≡ p.root_comments ++ map (leaf current_user) (keep (is_root rows) cs)
  unfolding place_all
  place_all-roots before [] p o h = sym (append-nil _)
  place_all-roots before (c ∷ cs) p o h =
      let later =
        place_all-roots (before ++ c ∷ []) cs (place current_user c p) o.1
          (place-Holds c before p h o.0) in
      elim (Bool-cases (is_root rows c)) [
        | inl root ↦
            rw (later, place-roots c before p h o.0, root)
              (append_assoc p.root_comments (leaf current_user c ∷ []) _)
        | inr reply ↦ rw (later, place-roots c before p h o.0, reply)
      ]

  refresh-leaf :
      (m : CommentMap) (c : PostComment)
      → Holds m rows
      → any (has_id c.id) rows ≡ true
      → refresh m (leaf current_user c) ≡ two_level current_user rows c
  unfolding refresh
  refresh-leaf m c h there = ground (arith, h c.id)

  refresh-leaves :
      (m : CommentMap) (cs : List PostComment)
      → Holds m rows
      → all (λ c. any (has_id c.id) rows) cs ≡ true
      → map (refresh m) (map (leaf current_user) cs) ≡ map (two_level current_user rows) cs
  refresh-leaves m [] h there = refl
  refresh-leaves m (c ∷ cs) h there = ground (arith, refresh-leaf m c h, refresh-leaves m cs h)

keep-known :
    (rows : List PostComment) (p : PostComment → Bool) (before cs : List PostComment)
    → rows ≡ before ++ cs
    → all (λ c. any (has_id c.id) rows) (keep p cs) ≡ true
keep-known rows p before [] e = refl
keep-known rows p before (c ∷ cs) e =
    let later =
      keep-known rows p (before ++ c ∷ []) cs (e ∙ sym (append_assoc before (c ∷ []) cs)) in
    let here : any (has_id c.id) rows ≡ true =
      rw (e, any-append (has_id c.id) before (c ∷ cs)) (ground arith) in
    elim (Bool-cases (p c)) [ inl kept ↦ rw (kept, here) later | inr out ↦ rw out later ]

-- If no row comes before the row that it answers (as `ORDER BY created_at` gives them), the tree has
-- two levels and no more: a comment for each row that answers nothing in the list, in their order,
-- and under it the rows that answer it, in their order, each of them with no replies. A row that
-- answers a reply is in no place of the tree.
pub nest_lem :
    (current_user : Option ℕ) (rows : List PostComment)
    → InOrder [] rows
    → nest current_user rows ≡ map (two_level current_user rows) (keep (is_root rows) rows)
unfolding nest
nest_lem current_user rows o =
    let start : Placed = record { comment_map = index rows; root_comments = [] } in
    let held = λ (id : ℕ). get-index id rows in
    rw (place_all-roots current_user rows [] rows start o held) (
      refresh-leaves current_user rows (place_all current_user rows start).comment_map
        (keep (is_root rows) rows) (place_all-Holds current_user rows [] rows start o held)
        (keep-known rows (is_root rows) [] rows refl))
