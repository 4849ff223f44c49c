-- ===== src/Reactions/Tests.antt =====
-- A user changes a reaction, another one's stays, and the first is deleted.
use realm_api.Common.{
  ◌/◌, ◌*◌, ℕ, ◌≡◌, refl, true, false, Option, none, some, [], ◌∷◌, txt, if◌then◌else◌, to_lower,
  trim_space,
}
use realm_api.Env.{Env}
use realm_api.Errors.{ok}
use realm_api.Reactions.{Table, ToggleReactionResponse, count_of, toggle_in_table, toggle_reaction}
use realm_api.Reactions.Laws.{IsTable, reaction_of, toggled}
use realm_api.Reactions.Toggle.{toggle_in_table_lem}
use realm_api.Reactions.Deletion.{delete_reaction, get_reactions}
use realm_api.Reactions.History.{Reach, here, next, flipped, deleted, IsKeyed, Reach-IsKeyed}

abbrev env : Env
env = record {
  clock = λ n. 1000;
  fails = λ n. false;
  choice = λ n. 0;
  column = λ t. t / 1000 * 1000;
}

abbrev rows : Table
rows =
    record { created_at = 5; post_slug = txt "p"; reaction_type = txt "like"; id = 1; user_id = 7 }
    ∷ record {
      created_at = 6;
      post_slug = txt "p";
      reaction_type = txt "fire";
      id = 2;
      user_id = 8;
    }
    ∷ []

rows-IsTable : IsTable rows
unfolding realm_api.Common.eqb realm_api.Common.Text-discrete
rows-IsTable = (refl, refl, (refl, refl, tt))

abbrev after : Table
after =
    record {
      created_at = 1000;
      post_slug = txt "p";
      reaction_type = txt "love";
      id = 1;
      user_id = 7;
    }
    ∷ record {
      created_at = 6;
      post_slug = txt "p";
      reaction_type = txt "fire";
      id = 2;
      user_id = 8;
    }
    ∷ []

abbrev response : ToggleReactionResponse
response = record {
  summary = record {
    reactions = count_of (txt "p") after;
    user_reaction = some (txt "love");
    slug = txt "p";
    total_count = 2;
  };
  reaction = txt "love";
  active = true;
}

changed : (toggle_in_table env 3 (txt "p") (txt "love") 7 rows).0 ≡ ok response
unfolding toggle_in_table realm_api.Reactions.toggle_rows realm_api.Reactions.find
    realm_api.Common.eqb realm_api.Common.Text-discrete realm_api.Reactions.get_reactions_by_slug
    realm_api.Reactions.set_type
changed = refl

toggle_in_table_lem_example :
    (reaction_of (txt "p") 7 (toggle_in_table env 3 (txt "p") (txt "love") 7 rows).1
      ≡ toggled (txt "love") (reaction_of (txt "p") 7 rows))
    × (reaction_of (txt "p") 7 (toggle_in_table env 3 (txt "p") (txt "love") 7 rows).1
        ≡ (if response.active then some (txt "love") else none))
    × (reaction_of (txt "p") 8 (toggle_in_table env 3 (txt "p") (txt "love") 7 rows).1
        ≡ reaction_of (txt "p") 8 rows)
unfolding realm_api.Common.eqb realm_api.Common.Text-discrete
toggle_in_table_lem_example =
    toggle_in_table_lem env 3 (txt "p") (txt "love") (txt "p") 7 8 rows response rows-IsTable refl
      changed refl

abbrev fire : Table
fire =
    record { created_at = 6; post_slug = txt "p"; reaction_type = txt "fire"; id = 2; user_id = 8 }
    ∷ []

fire-left : delete_reaction false (txt "p") (some 7) (some after) ≡ ok (some fire)
unfolding delete_reaction realm_api.Reactions.Deletion.is_target realm_api.Common.eqb
    realm_api.Common.Text-discrete
fire-left = refl

-- The slug of a deletion is not trimmed.
all-left : delete_reaction false (txt " p") none (some after) ≡ ok (some after)
unfolding delete_reaction realm_api.Reactions.Deletion.is_target realm_api.Common.eqb
    realm_api.Common.Text-discrete
all-left = refl

abbrev toggled_rows : Option Table
toggled_rows = (toggle_reaction (λ c. c) env 3 (txt "p ") (txt " Love") 7 (some rows)).1

toggled_rows-after : toggled_rows ≡ some after
unfolding toggle_reaction trim_space realm_api.Reactions.allowed_reaction_types realm_api.Common.eqb
    realm_api.Common.Text-discrete to_lower toggle_in_table realm_api.Reactions.toggle_rows
    realm_api.Reactions.find realm_api.Reactions.get_reactions_by_slug realm_api.Reactions.set_type
toggled_rows-after = refl

abbrev history : Reach (some rows) (some fire)
unfolding toggle_reaction trim_space realm_api.Reactions.allowed_reaction_types realm_api.Common.eqb
    realm_api.Common.Text-discrete to_lower toggle_in_table realm_api.Reactions.toggle_rows
    realm_api.Reactions.find realm_api.Reactions.get_reactions_by_slug realm_api.Reactions.set_type
history =
    next (next here (flipped (λ c. c) env 3 (txt "p ") (txt " Love") 7 rows refl))
      (deleted false (txt "p") (some 7) {s = toggled_rows} {t = some fire} fire-left)

Reach-IsKeyed_example : IsKeyed (some fire)
Reach-IsKeyed_example = Reach-IsKeyed {s = some rows} {t = some fire} rows-IsTable history
