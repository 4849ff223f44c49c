-- ===== src/Reactions/History.antt =====
-- Proofs about sequences of `ToggleReaction` and `DeleteReaction` of internal/service/reaction.go.
use realm_api.Common.{
  ℕ, ◌≡◌, Bool, true, false, not, Option, none, some, [], ◌∷◌, Text, any, any-keep, keep, arith,
  Bool-cases, inl, inr,
}
use realm_api.Errors.{ok}
use realm_api.Env.{Env}
use realm_api.Reactions.{PostReaction, Table, by_user, has_id, toggle_reaction}
use realm_api.Reactions.Deletion.{is_target, delete_reaction}
use realm_api.Reactions.Laws.{IsTable}
use realm_api.Reactions.Keys.{toggle_reaction-IsTable}

keep-IsTable : (q : PostReaction → Bool) (rows : Table) → IsTable rows → IsTable (keep q rows)
keep-IsTable q [] v = tt
keep-IsTable q (p ∷ rows) v =
    let rest = keep-IsTable q rows v.2 in
    let users = any-keep (by_user p.post_slug p.user_id) q rows v.0 in
    let ids = any-keep (has_id p.id) q rows v.1 in
    elim (Bool-cases (q p)) [ inl stays ↦ rw stays (users, ids, rest) | inr out ↦ rw out rest ]

-- A toggle may fail; the table gives a row an identifier that is not in use.
pub data Step : Option Table → Option Table → Type 0 where
  flipped :
      (table : ℕ → ℕ) (e : Env) (id : ℕ) (raw_slug raw_type : Text) (user : ℕ) (rows : Table)
      → any (has_id id) rows ≡ false
      → Step (some rows) (toggle_reaction table e id raw_slug raw_type user (some rows)).1
  deleted :
      (fails : Bool) (slug : Text) (user : Option ℕ) {s t : Option Table}
      → delete_reaction fails slug user s ≡ ok t
      → Step s t

pub data Reach (s : Option Table) : Option Table → Type 0 where
  here : Reach s s
  next : {t u : Option Table} → Reach s t → Step t u → Reach s u

-- the keys, where there is a database
abbrev pub IsKeyed : Option Table → Type 0
IsKeyed none = Unit
IsKeyed (some rows) = IsTable rows

delete_reaction-IsKeyed :
    (fails : Bool) (slug : Text) (user : Option ℕ) (s t : Option Table)
    → delete_reaction fails slug user s ≡ ok t
    → IsKeyed s
    → IsKeyed t
unfolding delete_reaction
delete_reaction-IsKeyed fails slug user none t h k =
    let same : none ≡ t = ground arith in rw (← same) tt
delete_reaction-IsKeyed true slug user (some rows) t h k = cc
delete_reaction-IsKeyed false slug user (some rows) t h k =
    let left : Table = keep (λ p. not (is_target slug user p)) rows in
    let same : some left ≡ t = ground arith in
    rw (← same) (keep-IsTable (λ p. not (is_target slug user p)) rows k)

Step-IsKeyed : {s t : Option Table} → Step s t → IsKeyed s → IsKeyed t
Step-IsKeyed (flipped table e id raw_slug raw_type user rows fresh) k =
    let (after, same, keyed) =
      toggle_reaction-IsTable table e id raw_slug raw_type user rows k fresh in
    rw same keyed
Step-IsKeyed {s} {t} (deleted fails slug user h) k = delete_reaction-IsKeyed fails slug user s t h k

-- From a table with at most one row for a post and a user and for an identifier, no sequence of toggles,
-- with any failures of the database, and of deletions leads to one with more, if the table chooses for
-- each new row an identifier that is not in use.
pub Reach-IsKeyed : {s t : Option Table} → IsKeyed s → Reach s t → IsKeyed t
Reach-IsKeyed k here = k
Reach-IsKeyed k (next r st) = Step-IsKeyed st (Reach-IsKeyed k r)
