-- ===== src/Posts/Service/History.antt =====
-- Proofs about sequences of the operations of internal/service/post.go.
use realm_api.Common.{
  ℕ, ◌≡◌, ◌⊎◌, inl, inr, refl, Bool, true, false, not, some, [], ◌∷◌, ◌++◌, Text, keep, is_empty,
  trim_space, arith, Bool-cases, Option-cases,
}
use realm_api.Errors.{ok, Result-cases}
use realm_api.Env.{Env}
use realm_api.Posts.{Post, CreatePostRequest, UpdatePostRequest, slugify, minutes}
use realm_api.Posts.Slugs.{IsSlug, slugify-IsSlug}
use realm_api.Posts.Repo
use realm_api.Posts.Repo.{Table, has_slug, find, changed, update_rows, is_blank}
use realm_api.Posts.Service.{create_post, update_post, delete_post, clean_slug, draft}
use realm_api.Posts.Service.Laws.{create_post-eq-ok}

-- An operation that fails leaves the table as it is; these have succeeded.
pub data Step (table : ℕ → ℕ) : Table → Table → Type 0 where
  created :
      (e : Env) (id : ℕ) (r : CreatePostRequest) (p : Post) {rows rows' : Table}
      → create_post table e id r rows ≡ ok (p, rows')
      → Step table rows rows'
  changed_post :
      (e : Env) (slug : Text) (r : UpdatePostRequest) (p : Post) {rows rows' : Table}
      → update_post table e slug r rows ≡ ok (p, rows')
      → Step table rows rows'
  deleted :
      (e : Env) (slug : Text) {rows rows' : Table}
      → delete_post e slug rows ≡ ok rows'
      → Step table rows rows'

pub data Reach (table : ℕ → ℕ) (s : Table) : Table → Type 0 where
  here : Reach table s s
  next : {t u : Table} → Reach table s t → Step table t u → Reach table s u

module _ (table : ℕ → ℕ) where
  -- a clean slug that is not empty, or a text of which `slugify` leaves nothing
  abbrev pub IsSlugLike : Text → Type 0
  IsSlugLike t = (IsSlug t × (is_empty t ≡ false)) ⊎ (slugify table t ≡ [])

  pub record IsWritten (p : Post) : Type 0 where
    pub reading_time : p.reading_time ≡ minutes p.content
    pub slug : IsSlugLike p.slug

  abbrev pub AreWritten : Table → Type 0
  AreWritten [] = Unit
  AreWritten (p ∷ rows) = IsWritten p × AreWritten rows

  append-AreWritten :
      (p : Post) (rows : Table) → IsWritten p → AreWritten rows → AreWritten (rows ++ p ∷ [])
  append-AreWritten p [] w v = (w, tt)
  append-AreWritten p (q ∷ rows) w v = (v.0, append-AreWritten p rows w v.1)

  keep-AreWritten : (q : Post → Bool) (rows : Table) → AreWritten rows → AreWritten (keep q rows)
  keep-AreWritten q [] v = tt
  keep-AreWritten q (p ∷ rows) v =
      let rest = keep-AreWritten q rows v.1 in
      elim (Bool-cases (q p)) [ inl stays ↦ rw stays (v.0, rest) | inr out ↦ rw out rest ]

  update_rows-AreWritten :
      (slug : Text) (change : Post → Post)
      → ((p : Post) → IsWritten p → IsWritten (change p))
      → (rows : Table) → AreWritten rows
      → AreWritten (update_rows slug change rows)
  unfolding update_rows
  update_rows-AreWritten slug change keeps [] v = tt
  update_rows-AreWritten slug change keeps (p ∷ rows) v =
      let rest = update_rows-AreWritten slug change keeps rows v.1 in
      elim (Bool-cases (has_slug slug p)) [
        | inl hit ↦ rw hit (keeps p v.0, rest)
        | inr other ↦ rw other (v.0, rest)
      ]

  empty_text : (t : Text) → is_empty t ≡ true → t ≡ []
  empty_text [] h = refl
  empty_text (c ∷ t) h = cc

  -- the slug that `UpdatePost` goes on with
  clean_slug-IsSlugLike :
      (r : UpdatePostRequest) (s : Text) → (clean_slug table r).slug ≡ some s → IsSlugLike s
  clean_slug-IsSlugLike r s h = elim (Option-cases r.slug) [
    | inl same ↦ absurd (ground arith)
    | inr (given, asked) ↦ elim (Bool-cases (is_empty (slugify table given))) [
      | inl nothing ↦
          let same : given ≡ s = ground arith in
          rw (← same) (inr (empty_text (slugify table given) nothing))
      | inr something ↦
          let same : slugify table given ≡ s = ground arith in
          rw (← same) (inl (slugify-IsSlug table given, something))
    ]
  ]

  changed-IsWritten :
      (now : ℕ) (r : UpdatePostRequest) (p : Post)
      → ((s : Text) → r.slug ≡ some s → IsSlugLike s)
      → IsWritten p
      → IsWritten (changed now r p)
  unfolding changed
  changed-IsWritten now r p clean w = record {
    reading_time = elim (Option-cases r.content) [
      | inl same ↦ rw same w.reading_time
      | inr (content, given) ↦ rw given refl
    ];
    slug = elim (Option-cases r.slug) [
      | inl same ↦ rw same w.slug
      | inr (s, given) ↦ rw given (clean s given)
    ];
  }

  update_post-AreWritten :
      (fails : Bool) (now : ℕ) (slug : Text) (r : UpdatePostRequest) (rows rows' : Table) (p : Post)
      → ((s : Text) → r.slug ≡ some s → IsSlugLike s)
      → AreWritten rows
      → Repo.update_post fails now slug r rows ≡ ok (p, rows')
      → AreWritten rows'
  unfolding Repo.update_post
  update_post-AreWritten fails now slug r rows rows' p clean v h = elim (Bool-cases (is_blank r)) [
    | inl blank ↦ elim (Result-cases (Repo.get_post_by_slug fails slug false rows)) [
      | inr (x, bad) ↦ absurd (ground arith)
      | inl (q, found) ↦ let same : rows ≡ rows' = ground arith in rw (← same) v
    ]
    | inr asked ↦ elim (Option-cases (find (has_slug slug) rows)) [
      | inl missing ↦ absurd (ground arith)
      | inr (q, found) ↦
          let same : update_rows slug (changed now r) rows ≡ rows' = ground arith in
          rw (← same) (
            update_rows-AreWritten slug (changed now r) (λ u. changed-IsWritten now r u clean) rows
              v)
    ]
  ]

  draft-reading_time :
      (e : Env) (id : ℕ) (r : CreatePostRequest)
      → (draft table e id r).reading_time ≡ minutes (draft table e id r).content
  unfolding draft
  draft-reading_time e id r = refl

  Step-AreWritten : {s t : Table} → Step table s t → AreWritten s → AreWritten t
  unfolding update_post delete_post Repo.delete_post
  Step-AreWritten {s} {t} (created e id r p h) v =
      let (row, after, new, full, slug) = create_post-eq-ok table e id r s t p h in
      rw after (
        append-AreWritten p s
          (record { reading_time = rw row (draft-reading_time e id r); slug = inl (slug, full) }) v)
  Step-AreWritten {s} {t} (changed_post e slug r p h) v =
      update_post-AreWritten (e.fails 0) (e.clock 0) (trim_space slug) (clean_slug table r) s t p
        (clean_slug-IsSlugLike r) v (ground arith)
  Step-AreWritten {s} {t} (deleted e slug h) v =
      let kept : Post → Bool = λ p. not (has_slug (trim_space slug) p) in
      let same : keep kept s ≡ t = ground arith in rw (← same) (keep-AreWritten kept s v)

  -- In a table that any sequence of successful calls of `CreatePost`, `UpdatePost` and `DeletePost`
  -- leads to, the reading time of each post is that of its content, and its slug is not empty, of the
  -- runes that a slug may have, with no hyphen at either end, or else a text of which `slugify` leaves
  -- nothing. The table at the start must be of this kind.
  pub Reach-AreWritten : {s t : Table} → AreWritten s → Reach table s t → AreWritten t
  Reach-AreWritten v here = v
  Reach-AreWritten v (next r st) = Step-AreWritten st (Reach-AreWritten v r)
