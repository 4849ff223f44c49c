-- ===== src/Posts.antt =====
-- internal/model/post.go and the pure parts of internal/service/post.go: slugs and reading times.
pub mod Slugs
pub mod Repo
pub mod Service
mod Tests
use mathlib.Core.List.{reverse}
use realm_api.Common.{
  ℕ, ◌+◌, ◌/◌, Bool, true, false, ◌&&◌, ◌||◌, not, Option, none, some, List, [], ◌∷◌, Text, map,
  keep, ltb, leb, ◌==◌, is_space, trim_space, to_lower, if◌then◌else◌,
}

-- A row of the table `posts`. `reading_time` is the number in the text `%d min read` of the column.
pub record Post : Type 0 where
  pub published_at : ℕ
  pub created_at : ℕ
  pub updated_at : ℕ
  pub cover_image : Option Text
  pub slug : Text
  pub title : Text
  pub description : Text
  pub content : Text
  pub tags : List Text
  pub reading_time : ℕ
  pub id : ℕ
  pub is_published : Bool

-- The zero time is 0.
pub record CreatePostRequest : Type 0 where
  pub cover_image : Option Text
  pub is_published : Option Bool
  pub published_at : Option ℕ
  pub slug : Text
  pub title : Text
  pub description : Text
  pub content : Text
  pub tags : List Text

pub record UpdatePostRequest : Type 0 where
  pub slug : Option Text
  pub title : Option Text
  pub description : Option Text
  pub content : Option Text
  pub tags : Option (List Text)
  pub cover_image : Option Text
  pub is_published : Option Bool
  pub published_at : Option ℕ

-- `[a-z0-9\-_]`
unfoldable pub is_slug_rune : ℕ → Bool
is_slug_rune c = leb b'a' c && leb c b'z' || leb b'0' c && leb c b'9' || c == b'-' || c == b'_'

abbrev pub hyphen : ℕ → ℕ
hyphen c = if c == b' ' then b'-' else c

unfoldable pub drop_hyphens : Text → Text
drop_hyphens [] = []
drop_hyphens (c ∷ s) = if c == b'-' then drop_hyphens s else c ∷ s

-- `strings.Trim(s, "-")`
unfoldable pub trim_hyphens : Text → Text
unfolding drop_hyphens
trim_hyphens s = reverse (drop_hyphens (reverse (drop_hyphens s)))

-- `table` is the case table of package unicode.
unfoldable pub slugify : (ℕ → ℕ) → Text → Text
unfolding trim_hyphens is_slug_rune
slugify table input =
    trim_hyphens (keep is_slug_rune (map hyphen (to_lower table (trim_space input))))

-- `len(strings.Fields(s))`; `inside` tells whether the rune before is part of a word.
unfoldable pub words : Bool → Text → ℕ
words inside [] = 0
words inside (c ∷ s) = (if is_space c || inside then 0 else 1) + words (not (is_space c)) s

-- 120 words a minute, rounded up, and one minute at least
unfoldable pub minutes : Text → ℕ
unfolding words
minutes content = let mins : ℕ = (words false content + 119) / 120 in if ltb mins 1 then 1 else mins
