-- ===== src/Reactions/Keys.antt =====
-- Proofs about the keys of the table in internal/service/reaction.go.
use realm_api.Common.{
  ℕ, ◌≡◌, refl, Bool, false, ◌||◌, not, none, some, [], ◌∷◌, ◌++◌, Text, any, any-append, eqb_iff,
  is_empty, trim_space, to_lower, if◌then◌else◌, arith, Option-cases, Bool-cases, inl, inr,
}
use realm_api.Errors.{ok, Result-cases}
use realm_api.Env.{Env}
use realm_api.Reactions.{
  PostReaction, Table, by_user, find, has_id, delete_id, set_type, toggle_rows, toggle_in_table,
  toggle_reaction, get_reactions_by_slug, allowed_reaction_types,
}
use realm_api.Reactions.Laws.{IsTable}

any-delete_id :
    (q : PostReaction → Bool) (id : ℕ) (rows : Table)
    → any q rows ≡ false
    → any q (delete_id id rows) ≡ false
unfolding delete_id
any-delete_id q id [] h = refl
any-delete_id q id (p ∷ rows) h = ground (arith, any-delete_id q id rows)

delete_id-IsTable : (id : ℕ) (rows : Table) → IsTable rows → IsTable (delete_id id rows)
unfolding delete_id
delete_id-IsTable id [] v = tt
delete_id-IsTable id (p ∷ rows) v =
    let users = any-delete_id (by_user p.post_slug p.user_id) id rows v.0 in
    let ids = any-delete_id (has_id p.id) id rows v.1 in
    elim (Bool-cases (has_id id p)) [
      | inl out ↦ rw out (delete_id-IsTable id rows v.2)
      | inr stays ↦ rw stays (users, ids, delete_id-IsTable id rows v.2)
    ]

module _ (hit : PostReaction → Bool) (now : ℕ) (t : Text) where
  any-set_type :
      (q : PostReaction → Bool)
      → ((p : PostReaction) → q (record p { reaction_type = t; created_at = now }) ≡ q p)
      → (rows : Table) → any q (set_type hit now t rows) ≡ any q rows
  unfolding set_type
  any-set_type q h [] = refl
  any-set_type q h (p ∷ rows) = ground (arith, h p, any-set_type q h rows)

  set_type-IsTable : (rows : Table) → IsTable rows → IsTable (set_type hit now t rows)
  unfolding set_type
  set_type-IsTable [] v = tt
  set_type-IsTable (p ∷ rows) v =
      let users = any-set_type (by_user p.post_slug p.user_id) (λ q. refl) rows in
      let ids = any-set_type (has_id p.id) (λ q. refl) rows in
      let rest = set_type-IsTable rows v.2 in
      elim (Bool-cases (hit p)) [
        | inl new ↦ rw (new, users, ids) (v.0, v.1, rest)
        | inr old ↦ rw (old, users, ids) (v.0, v.1, rest)
      ]

append-IsTable :
    (p : PostReaction) (rows : Table)
    → IsTable rows
    → any (by_user p.post_slug p.user_id) rows ≡ false
    → any (has_id p.id) rows ≡ false
    → IsTable (rows ++ p ∷ [])
append-IsTable p [] v a b = (refl, refl, tt)
append-IsTable p (q ∷ rows) v a b =
    let users = any-append (by_user q.post_slug q.user_id) rows (p ∷ []) in
    let ids = any-append (has_id q.id) rows (p ∷ []) in
    let there = eqb_iff q.post_slug p.post_slug in
    let back = eqb_iff p.post_slug q.post_slug in
    (ground arith, ground arith, append-IsTable p rows v.2 (ground arith) (ground arith))

toggle_rows-IsTable :
    (e : Env) (id : ℕ) (slug t : Text) (user : ℕ) (rows rows' : Table) (active : Bool)
    → IsTable rows
    → any (has_id id) rows ≡ false
    → toggle_rows e id slug t user rows ≡ ok (active, rows')
    → IsTable rows'
unfolding toggle_rows
toggle_rows-IsTable e id slug t user rows rows' active v new h =
    elim (Option-cases (if e.fails 1 then none else find slug user rows)) [
      | inr (p, old) ↦
          let off = delete_id-IsTable p.id rows v in
          let on = set_type-IsTable (has_id p.id) (e.clock 0) t rows v in ground arith
      | inl fresh ↦
          let row : PostReaction = record {
            created_at = e.clock 0;
            post_slug = slug;
            reaction_type = t;
            id = id;
            user_id = user;
          } in
          let on = set_type-IsTable (by_user slug user) (e.clock 0) t rows v in
          let more = append-IsTable row rows v in ground (arith, more)
    ]

toggle_in_table-IsTable :
    (e : Env) (id : ℕ) (slug t : Text) (user : ℕ) (rows : Table)
    → IsTable rows
    → any (has_id id) rows ≡ false
    → IsTable (toggle_in_table e id slug t user rows).1
unfolding toggle_in_table
toggle_in_table-IsTable e id slug t user rows v new =
    elim (Result-cases (toggle_rows e id slug t user rows)) [
      | inr (x, bad) ↦ ground arith
      | inl ((active, rows'), good) ↦
          let kept = toggle_rows-IsTable e id slug t user rows rows' active v new good in
          elim (Result-cases
            (get_reactions_by_slug (e.fails 4) (e.fails 5) slug (some user) rows')) [
              | inr (x, bad) ↦ ground arith
              | inl (s, shown) ↦ ground arith
            ]
    ]

-- A toggle, with any failures of the database, leaves at most one row for a post and a user and for an
-- identifier, if the table chooses an identifier for the new row that is not in use.
pub toggle_reaction-IsTable :
    (table : ℕ → ℕ) (e : Env) (id : ℕ) (raw_slug raw_type : Text) (user : ℕ) (rows : Table)
    → IsTable rows
    → any (has_id id) rows ≡ false
    → (after : Table) × ((toggle_reaction table e id raw_slug raw_type user (some rows)).1
        ≡ some after)
      × IsTable after
unfolding toggle_reaction
toggle_reaction-IsTable table e id raw_slug raw_type user rows v new =
    let slug : Text = trim_space raw_slug in
    let t : Text = to_lower table (trim_space raw_type) in
    let kept = toggle_in_table-IsTable e id slug t user rows v new in
    elim (Bool-cases (is_empty slug || not (allowed_reaction_types t))) [
      | inl bad ↦ (rows, ground arith, v)
      | inr good ↦ ((toggle_in_table e id slug t user rows).1, ground arith, kept)
    ]
