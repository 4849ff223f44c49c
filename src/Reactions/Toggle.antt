-- ===== src/Reactions/Toggle.antt =====
-- internal/service/reaction.go and internal/repository/reaction.go: `ToggleReaction` as a whole. It
-- keeps the table, touches nobody else's reaction, and does what it says.
use realm_api.Common.{
  ℕ, ◌≡◌, refl, Bool, true, false, ◌&&◌, none, some, [], ◌∷◌, ◌++◌, Text, any, eqb, eqb_iff, ◌==◌,
  if◌then◌else◌, arith, Option-cases, Bool-cases, inl, inr,
}
use realm_api.Errors.{ok, Result-cases}
use realm_api.Env.{Env}
use realm_api.Reactions.{
  PostReaction, Table, ToggleReactionResponse, by_user, find, has_id, delete_id, set_type,
  toggle_rows, toggle_in_table, get_reactions_by_slug,
}
use realm_api.Reactions.Laws.{
  IsTable, reaction_of, toggled, find-has, delete_id-none, any-find, toggle_rows_lem,
}

-- Another post or another user.
module _ (slug slug' : Text) (user user' : ℕ)
    (apart : eqb slug slug' && user == user' ≡ false) where
  not-both : (q : PostReaction) → by_user slug user q ≡ true → by_user slug' user' q ≡ false
  not-both q h =
      let same = eqb_iff q.post_slug slug in
      let post : q.post_slug ≡ slug = ground arith in
      let who : q.user_id ≡ user = ground arith in rw (post, who) apart

  find-delete_id_other :
      (p : PostReaction) (rows : Table)
      → IsTable rows
      → find slug user rows ≡ some p
      → find slug' user' (delete_id p.id rows) ≡ find slug' user' rows
  unfolding find delete_id
  find-delete_id_other p [] v h = refl
  find-delete_id_other p (q ∷ rows) v h = elim (Bool-cases (by_user slug user q)) [
    | inl mine ↦ ground (arith, not-both q mine, delete_id-none slug user q.id rows v.1)
    | inr other ↦ ground (arith, find-delete_id_other p rows, find-has slug user p rows)
  ]

  find-set_type_other :
      (p : PostReaction) (now : ℕ) (t : Text) (rows : Table)
      → IsTable rows
      → find slug user rows ≡ some p
      → reaction_of slug' user' (set_type (has_id p.id) now t rows) ≡ reaction_of slug' user' rows
  unfolding find set_type
  find-set_type_other p now t [] v h = refl
  find-set_type_other p now t (q ∷ rows) v h = elim (Bool-cases (by_user slug user q)) [
    | inl mine ↦
        let same : q ≡ p = ground arith in
        ground (arith, not-both q mine, set_type-none q.id now t rows v.1)
    | inr other ↦ ground (arith, find-set_type_other p now t rows, find-has slug user p rows)
  ]
    where
      set_type-none :
          (id now : ℕ) (t : Text) (rows : Table)
          → any (has_id id) rows ≡ false
          → set_type (has_id id) now t rows ≡ rows
      set_type-none id now t [] k = refl
      set_type-none id now t (r ∷ rows) k = ground (arith, set_type-none id now t rows)

  find-append_other :
      (p : PostReaction) (rows : Table)
      → by_user slug user p ≡ true
      → find slug' user' (rows ++ p ∷ []) ≡ find slug' user' rows
  unfolding find
  find-append_other p [] k = ground (arith, not-both p k)
  find-append_other p (q ∷ rows) k = ground (arith, find-append_other p rows k)

  -- The same transaction leaves every other reaction as it is.
  toggle_rows_other :
      (e : Env) (id : ℕ) (t : Text) (rows rows' : Table) (active : Bool)
      → IsTable rows
      → e.fails 1 ≡ false
      → toggle_rows e id slug t user rows ≡ ok (active, rows')
      → reaction_of slug' user' rows' ≡ reaction_of slug' user' rows
  unfolding toggle_rows
  toggle_rows_other e id t rows rows' active v up h = elim (Option-cases (find slug user rows)) [
    | inr (p, old) ↦
        let off = find-delete_id_other p rows v old in
        let on = find-set_type_other p (e.clock 0) t rows v old in ground arith
    | inl fresh ↦
        let row : PostReaction = record {
          created_at = e.clock 0;
          post_slug = slug;
          reaction_type = t;
          id = id;
          user_id = user;
        } in
        let out = any-find slug user rows fresh in
        let mine = eqb_iff slug slug in
        let on = find-append_other row rows (ground arith) in ground arith
  ]

-- What of the response is read here.
toggle-eq-ok :
    (e : Env) (id : ℕ) (slug t : Text) (user : ℕ) (rows : Table) (res : ToggleReactionResponse)
    → (toggle_in_table e id slug t user rows).0 ≡ ok res
    → toggle_rows e id slug t user rows ≡ ok (res.active, (toggle_in_table e id slug t user rows).1)
unfolding toggle_in_table
toggle-eq-ok e id slug t user rows res h = elim (Result-cases (toggle_rows e id slug t user rows)) [
  | inr (x, bad) ↦ ground arith
  | inl ((active, rows'), good) ↦
      elim (Result-cases (get_reactions_by_slug (e.fails 4) (e.fails 5) slug (some user) rows')) [
        | inr (x, bad) ↦ ground arith
        | inl (s, shown) ↦ ground arith
      ]
]

-- On a table with one row for a post and a user, a toggle that succeeds, and whose query for the old
-- row does not fail, removes the user's reaction to the post if it is of the type asked for, and
-- otherwise makes it of that type; `active` says which; and each reaction to another post or of
-- another user stays as it was.
pub toggle_in_table_lem :
    (e : Env) (id : ℕ) (slug t slug' : Text) (user user' : ℕ) (rows : Table)
    (res : ToggleReactionResponse)
    → IsTable rows
    → e.fails 1 ≡ false
    → (toggle_in_table e id slug t user rows).0 ≡ ok res
    → eqb slug slug' && user == user' ≡ false
    → (reaction_of slug user (toggle_in_table e id slug t user rows).1
        ≡ toggled t (reaction_of slug user rows))
      × (reaction_of slug user (toggle_in_table e id slug t user rows).1
          ≡ (if res.active then some t else none))
      × (reaction_of slug' user' (toggle_in_table e id slug t user rows).1
          ≡ reaction_of slug' user' rows)
toggle_in_table_lem e id slug t slug' user user' rows res v up h apart =
    let done = toggle-eq-ok e id slug t user rows res h in
    let after = (toggle_in_table e id slug t user rows).1 in
    let (own, active) = toggle_rows_lem e id slug t user rows after res.active v up done in
    (
      own,
      active,
      toggle_rows_other slug slug' user user' apart e id t rows after res.active v up done,
    )
