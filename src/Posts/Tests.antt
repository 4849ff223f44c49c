-- ===== src/Posts/Tests.antt =====
-- Posts with a slug of their own and with their title's.
use realm_api.Common.{
  ◌/◌, ◌*◌, ℕ, ◌≡◌, refl, true, false, Option, none, some, List, [], ◌∷◌, Text, txt, is_empty,
  Distinct,
}
use realm_api.Env.{Env}
use realm_api.Errors.{ok}
use realm_api.Posts.{Post, CreatePostRequest, UpdatePostRequest, slugify, minutes}
use realm_api.Posts.Slugs.{IsSlug}
use realm_api.Posts.Repo.{Table, clashes}
use realm_api.Posts.Service.{create_post, get_post_by_slug, update_post, delete_post}
use realm_api.Posts.Service.Laws.{get_post_by_slug-create_post}
use realm_api.Posts.Service.History.{
  Reach, here, next, created, changed_post, AreWritten, Reach-AreWritten,
}

abbrev table : ℕ → ℕ
table = λ c. c

abbrev env : Env
env = record {
  clock = λ n. 1000;
  fails = λ n. false;
  choice = λ n. 0;
  column = λ t. t / 1000 * 1000;
}

title_slug : slugify table (txt " -Hello, World_2! ") ≡ txt "hello-world_2"
unfolding slugify realm_api.Common.to_lower realm_api.Common.trim_space
title_slug = refl

two_minutes : minutes (txt "a b  c") ≡ 1
unfolding minutes realm_api.Common.is_space
two_minutes = refl

abbrev request : CreatePostRequest
request = record {
  cover_image = none;
  is_published = some false;
  published_at = none;
  slug = [];
  title = txt "My Post";
  description = [];
  content = txt "Some words";
  tags = txt "go" ∷ [];
}

abbrev post : Post
post = record {
  published_at = 1000;
  created_at = 1000;
  updated_at = 1000;
  cover_image = none;
  slug = txt "my-post";
  title = txt "My Post";
  description = [];
  content = txt "Some words";
  tags = txt "go" ∷ [];
  reading_time = 1;
  id = 4;
  is_published = false;
}

post-created : create_post table env 4 request [] ≡ ok (post, post ∷ [])
unfolding create_post realm_api.Common.trim_space slugify realm_api.Common.to_lower
    realm_api.Posts.Repo.create_post minutes
post-created = refl

get_post_by_slug-create_post_example :
    (is_empty post.slug ≡ false)
    × IsSlug post.slug
    × (get_post_by_slug env (txt "my-post") false (post ∷ []) ≡ ok post)
get_post_by_slug-create_post_example =
    get_post_by_slug-create_post table env env 4 false request [] (post ∷ []) post post-created refl
      refl

-- A slug of which nothing is left is stored as it is given.
abbrev rename : UpdatePostRequest
rename = record {
  slug = some (txt "/?");
  title = none;
  description = none;
  content = none;
  tags = none;
  cover_image = none;
  is_published = none;
  published_at = none;
}

post-renamed :
    update_post table env (txt "my-post") rename (post ∷ [])
    ≡ ok (record post { slug = txt "/?" }, record post { slug = txt "/?" } ∷ [])
unfolding update_post realm_api.Common.trim_space realm_api.Posts.Repo.update_post slugify
    realm_api.Common.to_lower realm_api.Posts.Repo.find realm_api.Common.eqb
    realm_api.Common.Text-discrete
post-renamed = refl

post-deleted : delete_post env (txt "my-post ") (post ∷ []) ≡ ok []
unfolding delete_post realm_api.Common.trim_space realm_api.Posts.Repo.delete_post
    realm_api.Common.eqb realm_api.Common.Text-discrete
post-deleted = refl

abbrev renamed : Table
renamed = record post { slug = txt "/?" } ∷ []

abbrev history : Reach table [] renamed
history =
    next (next here (created env 4 request post post-created))
      (changed_post env (txt "my-post") rename (record post { slug = txt "/?" }) post-renamed)

Reach-AreWritten_example : AreWritten table renamed
Reach-AreWritten_example = Reach-AreWritten table {s = []} {t = renamed} tt history
