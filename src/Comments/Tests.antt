-- ===== src/Comments/Tests.antt =====
-- A thread of three rows, a comment, its reply, and a reply to the reply, and operations on it.
use realm_api.Common.{
  ◌/◌, ◌*◌, keep, ℕ, ◌≡◌, refl, true, false, Option, none, some, List, [], ◌∷◌, txt, map, length,
  any, trim_space, arith,
}
use realm_api.Env.{Env}
use realm_api.Errors.{ok}
use realm_api.Comments.{PostComment}
use realm_api.Comments.Nest.{nest}
use realm_api.Comments.Nest.Shape.{two_level, is_root, nest_lem}
use realm_api.Comments.Repo.{in_post}
use realm_api.Comments.Service
use realm_api.Comments.Service.{Store}
use realm_api.Comments.Threads.{IsThreads, are_threads, fits}
use realm_api.Comments.Invariant.{IsStore, here, next, created, deleted, Reach-IsStore}
use realm_api.Comments.Shown.{is_top, get_comments_lem}

abbrev env : Env
env = record {
  clock = λ n. 1000;
  fails = λ n. false;
  choice = λ n. 0;
  column = λ t. t / 1000 * 1000;
}

abbrev comment : ℕ → Option ℕ → PostComment
comment id parent = record {
  created_at = id;
  updated_at = id;
  parent_id = parent;
  post_slug = txt "p";
  content = txt "c";
  id = id;
  user_id = 1;
  is_edited = false;
}

abbrev rows : List PostComment
rows = comment 1 none ∷ comment 2 (some 1) ∷ comment 3 (some 2) ∷ []

nest_lem_example : nest (some 1) rows ≡ map (two_level (some 1) rows) (keep (is_root rows) rows)
nest_lem_example = nest_lem (some 1) rows (refl, (refl, (refl, tt)))

rows-IsThreads : IsThreads rows
unfolding are_threads fits realm_api.Common.eqb realm_api.Common.Text-discrete
rows-IsThreads = refl

get_comments_lem_example :
    Service.get_comments env (txt " p") (some 1) (some rows)
    ≡ ok (record {
      slug = trim_space (txt " p");
      total_count = length (keep (in_post (trim_space (txt " p"))) rows);
      comments =
          map
            (two_level (some 1) (keep (in_post (trim_space (txt " p"))) rows))
            (keep is_top (keep (in_post (trim_space (txt " p"))) rows));
    })
unfolding trim_space
get_comments_lem_example = get_comments_lem env (txt " p") (some 1) rows rows-IsThreads refl refl

-- an answer to comment 3, after which comment 2 is deleted with its answers
abbrev answered : Store
answered = (Service.create_comment env 4 (txt "p") 1 (txt "d") (some 3) (some rows)).1

Reach-IsStore_example : IsStore (Service.delete_comment env 2 1 answered).1
Reach-IsStore_example = Reach-IsStore rows-IsThreads (
    next (next here (created env 4 (txt "p") 1 (txt "d") (some 3) (some rows) (ground arith)))
      (deleted env 2 1 answered))
