-- ===== src/Posts/Repo.antt =====
-- internal/repository/post.go: the table `posts`, in which the columns `id` and `slug` are unique each
-- (internal/database/database.go).
use realm_api.Common.{
  ℕ, Bool, true, false, ◌&&◌, ◌||◌, not, Option, none, some, List, [], ◌∷◌, ◌++◌, Text, any, keep,
  eqb, ◌==◌, if◌then◌else◌,
}
use realm_api.Errors.{Result, ok, err, sentinel, wrap, driver, err_post_not_found}
use realm_api.Posts.{Post, UpdatePostRequest, minutes}

abbrev pub Table : Type 0
Table = List Post

abbrev pub has_slug : Text → Post → Bool
has_slug slug p = eqb p.slug slug

unfoldable pub find : (Post → Bool) → Table → Option Post
find hit [] = none
find hit (p ∷ rows) = if hit p then some p else find hit rows

-- The row that a reader may see: drafts only if they are asked for.
abbrev pub is_shown : Text → Bool → Post → Bool
is_shown slug published_only p = has_slug slug p && (not published_only || p.is_published)

unfoldable pub get_post_by_slug : Bool → Text → Bool → Table → Result Post
get_post_by_slug fails slug published_only rows =
    if fails
    then err (wrap "failed to get post by slug" driver)
    else elim (find (is_shown slug published_only) rows) [
      | none ↦ err (sentinel err_post_not_found)
      | some p ↦ ok p
    ]

-- a row with the same key
abbrev pub clashes : Post → Post → Bool
clashes p q = p.id == q.id || eqb p.slug q.slug

unfoldable pub create_post : Bool → Post → Table → Result (Post × Table)
create_post fails p rows =
    if fails || any (clashes p) rows
    then err (wrap "failed to create post" driver)
    else ok (p, rows ++ p ∷ [])

abbrev pub is_absent {ℓ} : {A : Type ℓ} → Option A → Bool
is_absent none = true
is_absent (some v) = false

abbrev pub given_or {ℓ} : {A : Type ℓ} → A → Option A → A
given_or v none = v
given_or v (some w) = w

-- No column is asked for: `len(sets) == 1`.
abbrev pub is_blank : UpdatePostRequest → Bool
is_blank r =
    is_absent r.slug
    && is_absent r.title
    && is_absent r.description
    && is_absent r.content
    && is_absent r.tags
    && is_absent r.cover_image
    && is_absent r.is_published
    && is_absent r.published_at

-- the row after `UPDATE`
unfoldable pub changed : ℕ → UpdatePostRequest → Post → Post
changed now r p = record {
  published_at = given_or p.published_at r.published_at;
  created_at = p.created_at;
  updated_at = now;
  cover_image = elim r.cover_image [ none ↦ p.cover_image | some c ↦ some c ];
  slug = given_or p.slug r.slug;
  title = given_or p.title r.title;
  description = given_or p.description r.description;
  content = given_or p.content r.content;
  tags = given_or p.tags r.tags;
  reading_time = elim r.content [ none ↦ p.reading_time | some c ↦ minutes c ];
  id = p.id;
  is_published = given_or p.is_published r.is_published;
}

unfoldable pub update_rows : Text → (Post → Post) → Table → Table
update_rows slug change [] = []
update_rows slug change (p ∷ rows) =
    (if has_slug slug p then change p else p) ∷ update_rows slug change rows

-- The new slug is that of another row.
abbrev pub takes_slug : Text → Post → Post → Bool
takes_slug slug p q = not (has_slug slug q) && eqb q.slug p.slug

unfoldable pub update_post : Bool → ℕ → Text → UpdatePostRequest → Table → Result (Post × Table)
unfolding changed update_rows
update_post fails now slug r rows =
    if is_blank r
    then elim (get_post_by_slug fails slug false rows) [ err x ↦ err x | ok p ↦ ok (p, rows) ]
    else if fails
    then err (wrap "failed to update post" driver)
    else elim (find (has_slug slug) rows) [
      | none ↦ err (sentinel err_post_not_found)
      | some p ↦
          if any (takes_slug slug (changed now r p)) rows
          then err (wrap "failed to update post" driver)
          else ok (changed now r p, update_rows slug (changed now r) rows)
    ]

unfoldable pub delete_post : Bool → Text → Table → Result Table
delete_post fails slug rows =
    if fails
    then err (wrap "failed to delete post" driver)
    else if any (has_slug slug) rows
    then ok (keep (λ p. not (has_slug slug p)) rows)
    else err (sentinel err_post_not_found)
