-- ===== src/Posts/Service.antt =====
-- internal/service/post.go. `table` is the case table of package unicode.
pub mod Laws
pub mod History
use realm_api.Common.{
  ℕ, Bool, true, false, ◌&&◌, ◌||◌, not, Option, none, some, List, [], ◌∷◌, Text, is_empty,
  trim_space, ◌==◌, if◌then◌else◌,
}
use realm_api.Errors.{Result, ok, err, sentinel, err_empty_title, err_empty_slug}
use realm_api.Env.{Env}
use realm_api.Posts.{Post, CreatePostRequest, UpdatePostRequest, slugify, minutes}
use realm_api.Posts.Repo
use realm_api.Posts.Repo.{Table, given_or}

-- `req.PublishedAt != nil && !req.PublishedAt.IsZero()`
abbrev pub publication : ℕ → Option ℕ → ℕ
publication now none = now
publication now (some t) = if t == 0 then now else t

unfoldable pub get_post_by_slug : Env → Text → Bool → Table → Result Post
get_post_by_slug e slug published_only rows =
    if is_empty (trim_space slug)
    then err (sentinel err_empty_slug)
    else Repo.get_post_by_slug (e.fails 0) (trim_space slug) published_only rows

unfoldable pub delete_post : Env → Text → Table → Result Table
delete_post e slug rows =
    if is_empty (trim_space slug)
    then err (sentinel err_empty_slug)
    else Repo.delete_post (e.fails 0) (trim_space slug) rows

module _ (table : ℕ → ℕ) where
  -- the slug of the request, or else the title's
  unfoldable pub slug_of : CreatePostRequest → Text
  slug_of r =
      if is_empty (trim_space r.slug)
      then slugify table (trim_space r.title)
      else slugify table (trim_space r.slug)

  -- `id` and the creation time are the defaults of the table.
  unfoldable pub draft : Env → ℕ → CreatePostRequest → Post
  unfolding slug_of
  draft e id r = record {
    published_at = publication (e.clock 0) r.published_at;
    created_at = e.clock 1;
    updated_at = e.clock 1;
    cover_image = r.cover_image;
    slug = slug_of r;
    title = trim_space r.title;
    description = trim_space r.description;
    content = trim_space r.content;
    tags = r.tags;
    reading_time = minutes (trim_space r.content);
    id = id;
    is_published = given_or true r.is_published;
  }

  unfoldable pub create_post : Env → ℕ → CreatePostRequest → Table → Result (Post × Table)
  unfolding draft slug_of
  create_post e id r rows =
      if is_empty (trim_space r.title)
      then err (sentinel err_empty_title)
      else if is_empty (slug_of r)
      then err (sentinel err_empty_slug)
      else Repo.create_post (e.fails 0) (draft e id r) rows

  -- A slug of which nothing is left goes on as it was given.
  abbrev pub clean_slug : UpdatePostRequest → UpdatePostRequest
  clean_slug r = elim r.slug [
    | none ↦ r
    | some s ↦ if is_empty (slugify table s) then r else record r { slug = some (slugify table s) }
  ]

  unfoldable pub update_post : Env → Text → UpdatePostRequest → Table → Result (Post × Table)
  update_post e slug r rows =
      if is_empty (trim_space slug)
      then err (sentinel err_empty_slug)
      else Repo.update_post (e.fails 0) (e.clock 0) (trim_space slug) (clean_slug r) rows
