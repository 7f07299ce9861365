-- ===== src/Examples/Queries.antt =====
-- backend/queries.py on a small graph.
use reli.Prelude.{
  ℕ, ◌≤◌, ◌≡◌, ◌↔◌, refl, inl, String, true, none, some, Option, List, [], ◌∷◌, arith, In, All, map,
  length, text_le, text_le_total, text_le_trans,
}
use reli.DbModels.{
  ThingRecord, RelationshipRecord, JournalRecord, Actor, user, claude_interactive, finite, pos,
  child_of, blocks, related_to, preference_tag, needs_input_tag,
}
use reli.DbModels
use reli.Database.Tables.{Graph}
use reli.Examples.Graph.{small_env, captures, captured, evaluated}
use reli.Queries.Order.{Collation, any_tag, priority_then_title}
use reli.Queries.Standing.{Filters, passes, find_things}
use reli.Queries.Tree.{TreeNode, tree_level}
use reli.Queries.Related.{RelatedThing, WalkRow, related, rounds, first_rows, all_types}
use reli.Queries.Related.Rounds.Walks.{rounds_end}
use reli.Queries.Related.Answer.{IsNeighbourhood, related-IsNeighbourhood}
use reli.Queries.Paging.{matching, read_pages}
use reli.Queries.Paging.Served.{serve-read_pages}
use reli.Queries.Listing.{IsTop}
use reli.Queries.Listing.Filtered.{Matches, find_things_lem}
use reli.Queries.Listing.Standing.{Lists}
use reli.Queries.Tree.Levels.{IsAt, tree_level_lem}
use reli.Queries.Tree.Reached.{Shown, serve-Shown}
use reli.Queries.UserModel.{Lowering}

abbrev by_code_point : Collation
by_code_point = record {
  title_le = text_le;
  title_total = text_le_total;
  title_trans = text_le_trans;
}

abbrev as_is : Lowering
as_is = record { sql_lower = λ s. s; lower = λ s. s }

abbrev named : ℕ → String → List String → Option ℕ → ThingRecord
named id title tags date = record {
  id = id;
  title = title;
  description = none;
  notes = ("scope", "garden") ∷ [];
  tags = tags;
  urls = [];
  checkin_date = date;
  priority = finite (pos id);
  active = true;
  created_at = 0;
  updated_at = 0;
}

abbrev edge : ℕ → ℕ → ℕ → DbModels.RelationshipType → RelationshipRecord
edge id source target type = record {
  id = id;
  source_thing_id = source;
  target_thing_id = target;
  relationship_type = type;
  context = none;
  created_at = id;
}

-- The anchor 1, a preference 2 with its evidence 3, and the tasks 4 and 5 of the project 3.
abbrev garden_graph : Graph
garden_graph = record {
  rows = record {
    things =
        named 1 "User" [] none
        ∷ named 2 "Mornings" (preference_tag ∷ []) none
        ∷ named 3 "Garden" [] none
        ∷ named 4 "Dig" (needs_input_tag ∷ []) (some 20)
        ∷ named 5 "Sow" [] (some 30)
        ∷ [];
    relationships =
        edge 10 1 2 related_to
        ∷ edge 11 3 2 DbModels.evidence_for
        ∷ edge 12 3 4 child_of
        ∷ edge 13 3 5 child_of
        ∷ edge 14 5 4 blocks
        ∷ [];
  };
  journal = [];
}

related-IsNeighbourhood_example :
    (results : List RelatedThing) × (related garden_graph 4 none 7 ≡ some results)
    × IsNeighbourhood garden_graph 4 all_types 5 results
related-IsNeighbourhood_example = related-IsNeighbourhood garden_graph 4 none 7

rounds_end_example :
    (rows : List WalkRow) × (rounds 4 all_types 5 garden_graph.relationships 5
        (first_rows 4 all_types 5 garden_graph.relationships)
      ≡ some rows)
rounds_end_example = rounds_end 4 all_types 5 garden_graph.relationships (omega arith)

abbrev all_active : Filters
all_active = record {
  tags = needs_input_tag ∷ [];
  match = any_tag;
  active = some true;
  checkin_from = some 10;
  checkin_to = some 25;
  priority_min = some (finite (pos 2));
  priority_max = none;
}

find_things_lem_example :
    IsTop
      (priority_then_title by_code_point)
      (passes all_active)
      2
      garden_graph.things
      (find_things by_code_point garden_graph all_active 2)
    × ((row : ThingRecord) → (passes all_active row ≡ true) ↔ Matches all_active row)
find_things_lem_example = find_things_lem by_code_point garden_graph all_active 2

tree_level_lem_example :
    Lists
      (priority_then_title by_code_point)
      (IsAt garden_graph (some 3) [])
      garden_graph.things
      (map (λ (node : TreeNode). node.thing) (tree_level by_code_point garden_graph (some 3) []))
    × All
        (λ (node : TreeNode).
          node.child_count ≡ length (tree_level by_code_point garden_graph (some node.thing.id) []))
        (tree_level by_code_point garden_graph (some 3) [])
tree_level_lem_example =
    tree_level_lem by_code_point garden_graph (some 3) [] (refl, (refl, (refl, (refl, (refl, tt)))))

two_entries : length (matching captured.committed (some (user ∷ claude_interactive ∷ [])) 1 0) ≤ 2
unfolding evaluated
two_entries = omega arith

-- Two pages of one entry each.
serve-read_pages_example :
    read_pages captured.committed (some (user ∷ claude_interactive ∷ [])) 1 2 0
    ≡ matching captured.committed (some (user ∷ claude_interactive ∷ [])) 1 0
serve-read_pages_example =
    serve-read_pages small_env captures (some (user ∷ claude_interactive ∷ [])) 1 2 0 (omega arith)
      two_entries

captured_thing : (row : ThingRecord) × In row captured.committed.things × (row.active ≡ true)
unfolding evaluated
captured_thing = (_, inl refl, refl)

serve-Shown_example : Shown by_code_point captured.committed captured_thing.0
serve-Shown_example =
    serve-Shown by_code_point small_env captures captured_thing.0 captured_thing.1 captured_thing.2
