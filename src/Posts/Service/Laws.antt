-- ===== src/Posts/Service/Laws.antt =====
-- Proofs about `CreatePost` and `GetPostBySlug` of internal/service/post.go.
use realm_api.Common.{
  ℕ, ◌≡◌, inl, inr, refl, Bool, true, false, ◌||◌, not, some, [], ◌∷◌, ◌++◌, any, eqb_iff, is_empty,
  trim_space, trim_space_of_solid, arith, Bool-cases,
}
use realm_api.Errors.{ok}
use realm_api.Env.{Env}
use realm_api.Posts.{Post, CreatePostRequest}
use realm_api.Posts.Slugs.{IsSlug, slugify-IsSlug, runes-IsSolid}
use realm_api.Posts.Repo
use realm_api.Posts.Repo.{
  Table, has_slug, is_shown, find, clashes, changed, update_rows, takes_slug, is_blank,
}
use realm_api.Posts.Service.{slug_of, draft, create_post, get_post_by_slug}

find-append :
    (hit : Post → Bool) (rows : Table) (p : Post)
    → any hit rows ≡ false
    → hit p ≡ true
    → find hit (rows ++ p ∷ []) ≡ some p
unfolding find
find-append hit [] p h k = ground arith
find-append hit (q ∷ rows) p h k = ground (arith, find-append hit rows p)

-- No row has the slug of a row that clashes with none.
unshown :
    (p : Post) (only : Bool) (rows : Table)
    → any (clashes p) rows ≡ false
    → any (is_shown p.slug only) rows ≡ false
unshown p only [] h = refl
unshown p only (q ∷ rows) h =
    ground (arith, unshown p only rows, eqb_iff p.slug q.slug, eqb_iff q.slug p.slug)

module _ (table : ℕ → ℕ) (e : Env) where
  pub create_post-eq-ok :
      (id : ℕ) (r : CreatePostRequest) (rows rows' : Table) (p : Post)
      → create_post table e id r rows ≡ ok (p, rows')
      → (p ≡ draft table e id r)
        × (rows' ≡ rows ++ p ∷ [])
        × (any (clashes p) rows ≡ false)
        × (is_empty p.slug ≡ false)
        × IsSlug p.slug
  unfolding create_post draft slug_of Repo.create_post
  create_post-eq-ok id r rows rows' p h =
      let same : draft table e id r ≡ p = ground arith in
      let slug : IsSlug (slug_of table r) = elim (Bool-cases (is_empty (trim_space r.slug))) [
        | inl blank ↦ rw blank (slugify-IsSlug table (trim_space r.title))
        | inr given ↦ rw given (slugify-IsSlug table (trim_space r.slug))
      ] in
      rw (← same) (refl, ground arith, ground arith, ground arith, slug)

  -- A post that is created has a slug that is not empty, of the runes that a slug may have, with no
  -- hyphen at either end; a reader who asks for the slug is given exactly this post, unless only
  -- published ones are asked for and it is a draft. The query must not fail.
  pub get_post_by_slug-create_post :
      (f : Env) (id : ℕ) (only : Bool) (r : CreatePostRequest) (rows rows' : Table) (p : Post)
      → create_post table e id r rows ≡ ok (p, rows')
      → f.fails 0 ≡ false
      → not only || p.is_published ≡ true
      → (is_empty p.slug ≡ false) × IsSlug p.slug × (get_post_by_slug f p.slug only rows' ≡ ok p)
  unfolding get_post_by_slug Repo.get_post_by_slug
  get_post_by_slug-create_post f id only r rows rows' p h reads shown =
      let (row, after, new, full, slug) = create_post-eq-ok id r rows rows' p h in
      let found =
        find-append (is_shown p.slug only) rows p (unshown p only rows new)
          (ground (arith, eqb_iff p.slug p.slug)) in
      (
        full,
        slug,
        rw (trim_space_of_solid p.slug (runes-IsSolid p.slug slug.runes))
            (rw (full, reads, after, found)),
      )
