-- ===== src/Comments/Invariant.antt =====
-- internal/service/comment.go: every operation keeps the threads of the table well formed, and
-- what `GetComments` then shows.
use realm_api.Common.{
  ℕ, ◌≡◌, ◌≢◌, refl, Bool, true, false, ◌&&◌, not, Option, none, some, [], ◌∷◌, ◌++◌, Text, any,
  length, is_empty, leb, trim_space, ◌==◌, arith, Option-cases, Bool-cases, inl, inr,
}
use realm_api.Env.{Env}
use realm_api.Comments.{PostComment}
use realm_api.Comments.Repo
use realm_api.Comments.Repo.{Table, has_id, find, refers, cascade, owned, update_rows, edited}
use realm_api.Comments.Service
use realm_api.Comments.Service.{Store, content_error, parent_error}
use realm_api.Comments.Threads.{
  IsThreads, are_threads, fits, is_parent, are_threads-append, are_threads-update_rows,
  are_threads-cascade,
}

abbrev pub IsStore : Store → Type 0
IsStore none = Unit
IsStore (some rows) = IsThreads rows

content_error-eq-none :
    (content : Text)
    → content_error content ≡ none
    → not (is_empty content) && leb (length content) 2000 ≡ true
unfolding content_error
content_error-eq-none content h = ground arith

ids-positive : (before rows : Table) → are_threads before rows ≡ true → any (has_id 0) rows ≡ false
unfolding are_threads fits
ids-positive before [] h = refl
ids-positive before (c ∷ rows) h =
    let later = ids-positive (before ++ c ∷ []) rows (ground arith) in ground arith

pub find-hit :
    (hit : PostComment → Bool) (c : PostComment) (rows : Table)
    → find hit rows ≡ some c
    → hit c ≡ true
unfolding find
find-hit hit c [] h = cc
find-hit hit c (d ∷ rows) h = ground (arith, find-hit hit c rows)

find-any :
    (hit q : PostComment → Bool) (c : PostComment) (rows : Table)
    → find hit rows ≡ some c
    → q c ≡ true
    → any q rows ≡ true
unfolding find
find-any hit q c [] h k = cc
find-any hit q c (d ∷ rows) h k = ground (arith, find-any hit q c rows)

-- The tests of the service, and the foreign key where they are left out, make the new row fit.
parent-fits :
    (fails : Bool) (id : ℕ) (slug : Text) (p : ℕ) (rows : Table)
    → IsThreads rows
    → id ≢ 0
    → parent_error fails slug (some p) rows ≡ none
    → refers id (some p) rows ≡ true
    → any (is_parent p slug) rows ≡ true
unfolding parent_error refers Repo.get_comment_by_id
parent-fits fails id slug p rows t pos good ref =
    let none_0 = ids-positive [] rows t in
    elim (Bool-cases (p == 0)) [
      | inl nil ↦ absurd (ground arith)
      | inr real ↦ elim (Option-cases (find (has_id p) rows)) [
        | inl missing ↦ absurd (ground arith)
        | inr (c, found) ↦
            let here = find-hit (has_id p) c rows found in
            find-any (has_id p) (is_parent p slug) c rows found (ground arith)
      ]
    ]

new-fits :
    (fails : Bool) (id now : ℕ) (slug : Text) (user : ℕ) (parent : Option ℕ) (content : Text)
    (rows : Table)
    → IsThreads rows
    → id ≢ 0
    → content_error content ≡ none
    → parent_error fails slug parent rows ≡ none
    → refers id parent rows ≡ true
    → any (has_id id) rows ≡ false
    → fits rows (record {
      created_at = now;
      updated_at = now;
      parent_id = parent;
      post_slug = slug;
      content = content;
      id = id;
      user_id = user;
      is_edited = false;
    })
      ≡ true
unfolding fits
new-fits fails id now slug user none content rows t pos short good ref new =
    let bounds = content_error-eq-none content short in ground arith
new-fits fails id now slug user (some p) content rows t pos short good ref new =
    let bounds = content_error-eq-none content short in
    let up = parent-fits fails id slug p rows t pos good ref in ground arith

create-rows :
    (fails : Bool) (id now : ℕ) (slug : Text) (user : ℕ) (parent : Option ℕ) (content : Text)
    (rows : Table)
    → IsThreads rows
    → (refers id parent rows ≡ true
        → any (has_id id) rows ≡ false
        → fits rows (record {
          created_at = now;
          updated_at = now;
          parent_id = parent;
          post_slug = slug;
          content = content;
          id = id;
          user_id = user;
          is_edited = false;
        })
          ≡ true)
    → IsThreads (Repo.create_comment fails id now slug user parent content rows).1
unfolding Repo.create_comment
create-rows fails id now slug user parent content rows t new =
    let row : PostComment = record {
      created_at = now;
      updated_at = now;
      parent_id = parent;
      post_slug = slug;
      content = content;
      id = id;
      user_id = user;
      is_edited = false;
    } in
    ground (arith, are_threads-append [] rows row)

module _ (e : Env) where
  create_comment-IsStore :
      (id : ℕ) (raw_slug : Text) (user : ℕ) (raw_content : Text) (parent : Option ℕ) (s : Store)
      → id ≢ 0
      → IsStore s
      → IsStore (Service.create_comment e id raw_slug user raw_content parent s).1
  unfolding Service.create_comment
  create_comment-IsStore id raw_slug user raw_content parent none pos t =
      elim (Option-cases (content_error (trim_space raw_content))) [
        | inl short ↦ ground arith
        | inr (x, bad) ↦ ground arith
      ]
  create_comment-IsStore id raw_slug user raw_content parent (some rows) pos t =
      let slug : Text = trim_space raw_slug in
      let content : Text = trim_space raw_content in
      elim (Option-cases (content_error content)) [
        | inr (x, bad) ↦ ground arith
        | inl short ↦ elim (Option-cases (parent_error (e.fails 0) slug parent rows)) [
          | inr (x, bad) ↦ ground arith
          | inl good ↦
              let done = create-rows (e.fails 1) id (e.clock 0) slug user parent content rows t (
                new-fits (e.fails 0) id (e.clock 0) slug user parent content rows t pos short
                  good) in
              ground arith
        ]
      ]

  update_comment-IsStore :
      (id user : ℕ) (raw_content : Text) (s : Store)
      → IsStore s
      → IsStore (Service.update_comment e id user raw_content s).1
  unfolding Service.update_comment Repo.update_comment update_rows
  update_comment-IsStore id user raw_content none t =
      elim (Option-cases (content_error (trim_space raw_content))) [
        | inl short ↦ ground arith
        | inr (x, bad) ↦ ground arith
      ]
  update_comment-IsStore id user raw_content (some rows) t =
      let content : Text = trim_space raw_content in
      elim (Option-cases (content_error content)) [
        | inr (x, bad) ↦ ground arith
        | inl short ↦
            let done =
              are_threads-update_rows (owned id user) (e.clock 0) content [] rows
                (content_error-eq-none content short) t in
            ground arith
      ]

  admin_update_comment-IsStore :
      (id : ℕ) (raw_content : Text) (s : Store)
      → IsStore s
      → IsStore (Service.admin_update_comment e id raw_content s).1
  unfolding Service.admin_update_comment Repo.admin_update update_rows
  admin_update_comment-IsStore id raw_content none t =
      elim (Option-cases (content_error (trim_space raw_content))) [
        | inl short ↦ ground arith
        | inr (x, bad) ↦ ground arith
      ]
  admin_update_comment-IsStore id raw_content (some rows) t =
      let content : Text = trim_space raw_content in
      elim (Option-cases (content_error content)) [
        | inr (x, bad) ↦ ground arith
        | inl short ↦
            let done =
              are_threads-update_rows (has_id id) (e.clock 0) content [] rows
                (content_error-eq-none content short) t in
            ground arith
      ]

  cascade-IsThreads :
      (hit : PostComment → Bool) (rows : Table) → IsThreads rows → IsThreads (cascade hit [] rows)
  cascade-IsThreads hit rows t =
      are_threads-cascade hit [] [] [] rows (λ id h. h, λ p slug h k. h) t

  delete_comment-IsStore :
      (id user : ℕ) (s : Store) → IsStore s → IsStore (Service.delete_comment e id user s).1
  unfolding Service.delete_comment Repo.delete_comment
  delete_comment-IsStore id user none t = tt
  delete_comment-IsStore id user (some rows) t =
      ground (arith, cascade-IsThreads (owned id user) rows)

  admin_delete_comment-IsStore :
      (id : ℕ) (s : Store) → IsStore s → IsStore (Service.admin_delete_comment e id s).1
  unfolding Service.admin_delete_comment Repo.admin_delete
  admin_delete_comment-IsStore id none t = tt
  admin_delete_comment-IsStore id (some rows) t = ground (arith, cascade-IsThreads (has_id id) rows)

-- One operation of the service; the table never chooses the nil UUID for a new row.
pub data Step : Store → Store → Type 0 where
  created :
      (e : Env) (id : ℕ) (slug : Text) (user : ℕ) (content : Text) (parent : Option ℕ) (s : Store)
      → id ≢ 0
      → Step s (Service.create_comment e id slug user content parent s).1
  updated :
      (e : Env) (id user : ℕ) (content : Text) (s : Store)
      → Step s (Service.update_comment e id user content s).1
  deleted : (e : Env) (id user : ℕ) (s : Store) → Step s (Service.delete_comment e id user s).1
  admin_updated :
      (e : Env) (id : ℕ) (content : Text) (s : Store)
      → Step s (Service.admin_update_comment e id content s).1
  admin_deleted : (e : Env) (id : ℕ) (s : Store) → Step s (Service.admin_delete_comment e id s).1

pub data Reach (s : Store) : Store → Type 0 where
  here : Reach s s
  next : {t u : Store} → Reach s t → Step t u → Reach s u

Step-IsStore : {s t : Store} → Step s t → IsStore s → IsStore t
Step-IsStore (created e id slug user content parent s pos) t =
    create_comment-IsStore e id slug user content parent s pos t
Step-IsStore (updated e id user content s) t = update_comment-IsStore e id user content s t
Step-IsStore (deleted e id user s) t = delete_comment-IsStore e id user s t
Step-IsStore (admin_updated e id content s) t = admin_update_comment-IsStore e id content s t
Step-IsStore (admin_deleted e id s) t = admin_delete_comment-IsStore e id s t

-- Any sequence of operations, with any failures of the database, keeps the table in threads:
-- identifiers are distinct and not nil, every content has 1 to 2000 characters, and a comment that
-- answers another one comes after it, in the same post.
pub Reach-IsStore : {s t : Store} → IsStore s → Reach s t → IsStore t
Reach-IsStore t here = t
Reach-IsStore t (next r st) = Step-IsStore st (Reach-IsStore t r)
