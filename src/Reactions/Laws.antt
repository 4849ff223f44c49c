-- ===== src/Reactions/Laws.antt =====
-- Proofs about toggling in internal/repository/reaction.go.
use realm_api.Common.{
  ℕ, ◌≡◌, refl, Bool, true, false, Option, none, some, [], ◌∷◌, ◌++◌, Text, any, eqb, eqb_iff,
  if◌then◌else◌, arith, Option-cases, Bool-cases, inl, inr,
}
use realm_api.Errors.{ok}
use realm_api.Env.{Env}
use realm_api.Reactions.{
  PostReaction, Table, by_user, find, has_id, delete_id, set_type, toggle_rows,
}

-- At most one row for a post and a user, and for an identifier.
abbrev pub IsTable : Table → Type 0
IsTable [] = Unit
IsTable (p ∷ rows) =
    (any (by_user p.post_slug p.user_id) rows ≡ false)
    × (any (has_id p.id) rows ≡ false)
    × IsTable rows

-- The reaction of a user to a post.
abbrev type_in : Option PostReaction → Option Text
type_in none = none
type_in (some p) = some p.reaction_type

abbrev pub reaction_of : Text → ℕ → Table → Option Text
reaction_of slug user rows = type_in (find slug user rows)

module _ (slug : Text) (user : ℕ) where
  find-none : (rows : Table) → any (by_user slug user) rows ≡ false → find slug user rows ≡ none
  unfolding find
  find-none [] h = refl
  find-none (q ∷ rows) h = ground (arith, find-none rows)

  pub find-has :
      (p : PostReaction) (rows : Table)
      → find slug user rows ≡ some p
      → any (has_id p.id) rows ≡ true
  unfolding find
  find-has p [] h = cc
  find-has p (q ∷ rows) h = ground (arith, find-has p rows)

  pub delete_id-none :
      (id : ℕ) (rows : Table) → any (has_id id) rows ≡ false → delete_id id rows ≡ rows
  unfolding delete_id
  delete_id-none id [] h = refl
  delete_id-none id (q ∷ rows) h = ground (arith, delete_id-none id rows)

  find-delete_id :
      (p : PostReaction) (rows : Table)
      → IsTable rows
      → find slug user rows ≡ some p
      → find slug user (delete_id p.id rows) ≡ none
  unfolding find delete_id
  find-delete_id p [] v h = refl
  find-delete_id p (q ∷ rows) v h = elim (Bool-cases (by_user slug user q)) [
    | inl mine ↦
        let same = eqb_iff q.post_slug slug in
        let post : q.post_slug ≡ slug = ground arith in
        let who : q.user_id ≡ user = ground arith in
        let none' : any (by_user slug user) rows ≡ false = rw (post, who) at v.0 in
        ground (arith, find-none rows none', delete_id-none q.id rows v.1)
    | inr other ↦ ground (arith, find-delete_id p rows, find-has p rows)
  ]

  find-set_type :
      (p : PostReaction) (now : ℕ) (t : Text) (rows : Table)
      → find slug user rows ≡ some p
      → find slug user (set_type (has_id p.id) now t rows)
        ≡ some (record p { reaction_type = t; created_at = now })
  unfolding find set_type
  find-set_type p now t [] h = cc
  find-set_type p now t (q ∷ rows) h = ground (arith, find-set_type p now t rows)

  find-append :
      (p : PostReaction) (rows : Table)
      → find slug user rows ≡ none
      → by_user slug user p ≡ true
      → find slug user (rows ++ p ∷ []) ≡ some p
  unfolding find
  find-append p [] h k = ground arith
  find-append p (q ∷ rows) h k = ground (arith, find-append p rows)

  pub any-find : (rows : Table) → find slug user rows ≡ none → any (by_user slug user) rows ≡ false
  unfolding find
  any-find [] h = refl
  any-find (q ∷ rows) h = ground (arith, any-find rows)

abbrev pub toggled : Text → Option Text → Option Text
toggled t none = some t
toggled t (some u) = if eqb u t then none else some t

-- If its query for the old row does not fail, a transaction that succeeds removes the user's reaction
-- if it is of the type asked for, and otherwise makes it that type; `active` says which.
pub toggle_rows_lem :
    (e : Env) (id : ℕ) (slug t : Text) (user : ℕ) (rows rows' : Table) (active : Bool)
    → IsTable rows
    → e.fails 1 ≡ false
    → toggle_rows e id slug t user rows ≡ ok (active, rows')
    → (reaction_of slug user rows' ≡ toggled t (reaction_of slug user rows))
      × (reaction_of slug user rows' ≡ (if active then some t else none))
unfolding toggle_rows
toggle_rows_lem e id slug t user rows rows' active v up h =
    elim (Option-cases (find slug user rows)) [
      | inr (p, old) ↦
          let off = find-delete_id slug user p rows v old in
          let on = find-set_type slug user p (e.clock 0) t rows old in (ground arith, ground arith)
      | inl fresh ↦
          let row : PostReaction = record {
            created_at = e.clock 0;
            post_slug = slug;
            reaction_type = t;
            id = id;
            user_id = user;
          } in
          let out = any-find slug user rows fresh in
          let mine = eqb_iff slug slug in
          let on = find-append slug user row rows fresh (ground arith) in
          (ground arith, ground arith)
    ]
