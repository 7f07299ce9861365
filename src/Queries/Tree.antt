-- ===== src/Queries/Tree.antt =====
-- The `ChildOf` tree and the edges of one Thing in backend/queries.py.
pub mod Counts
pub mod Levels
pub mod Reached
use reli.Prelude.{
  ℕ, String, Bool, ◌&&◌, ◌||◌, not, Option, none, some, List, [], ◌∷◌, ◌++◌, map, ◌==◌, ℕ_equals,
  if◌then◌else◌, any, filter, contains, length, ltb, sort,
}
use reli.DbModels.{ThingRecord, RelationshipRecord, RelationshipType_equals, child_of}
use reli.Database.Tables.{Graph, joins}
use reli.Queries.Order.{
  Collation, priority_first, priority_then_title, attached_first, any_tag, tagged,
}
use reli.Queries.Standing.{is_active_thing}

-- The rows of a join with the edges: a Thing once for every edge that joins it.
abbrev pub joined :
    (ThingRecord → RelationshipRecord → Bool)
    → List ThingRecord
    → List RelationshipRecord
    → List ThingRecord
joined on [] rs = []
joined on (row ∷ rows) rs = map (λ _. row) (filter (on row) rs) ++ joined on rows rs

abbrev pub is_child_edge : ℕ → ThingRecord → RelationshipRecord → Bool
is_child_edge parent row r = joins parent row.id child_of r

unfoldable pub children : Graph → ℕ → List ThingRecord
children g thing_id = sort priority_first (joined (is_child_edge thing_id) g.things g.relationships)

-- The named Things; an id with no Thing is absent.
unfoldable pub things_by_id : Graph → List ℕ → List ThingRecord
things_by_id g ids = filter (λ row. contains row.id ids) g.things

-- Each element once.
abbrev pub distinct : List ℕ → List ℕ
distinct [] = []
distinct (x ∷ xs) = let rest = distinct xs in if contains x rest then rest else x ∷ rest

-- `ChildOf` edges of a parent to an active Thing.
abbrev pub is_active_child_edge : List ThingRecord → ℕ → RelationshipRecord → Bool
is_active_child_edge things parent r =
    r.source_thing_id == parent
    && r.relationship_type == child_of
    && is_active_thing r.target_thing_id things

abbrev pub active_child_count : Graph → ℕ → ℕ
active_child_count g parent = length (
    distinct (
      map (λ r. r.target_thing_id) (filter (is_active_child_edge g.things parent) g.relationships)))

-- The groups of the count: a parent with no active child has none.
unfoldable pub active_child_counts : Graph → List ℕ → List (ℕ × ℕ)
active_child_counts g parent_ids =
    map (λ id. (id, active_child_count g id))
      (filter (λ id. ltb 0 (active_child_count g id)) (distinct parent_ids))

-- `counts.get(id, 0)`
abbrev pub get_count : ℕ → List (ℕ × ℕ) → ℕ
get_count id [] = 0
get_count id ((key, count) ∷ counts) = if key == id then count else get_count id counts

pub record TreeNode : Type 0 where
  pub thing : ThingRecord
  pub child_count : ℕ

abbrev pub is_shown : List String → ThingRecord → Bool
is_shown exclude_tags row = row.active && not (tagged exclude_tags any_tag row)

-- Some active Thing has it as a child.
abbrev pub is_claimed : Graph → ThingRecord → Bool
is_claimed g row =
    any
      (λ r.
        r.target_thing_id == row.id
        && r.relationship_type == child_of
        && is_active_thing r.source_thing_id g.things)
      g.relationships

abbrev pub stands_at : Graph → Option ℕ → ThingRecord → Bool
stands_at g none row = not (is_claimed g row)
stands_at g (some parent) row = any (is_child_edge parent row) g.relationships

abbrev pub level_things : Collation → Graph → Option ℕ → List String → List ThingRecord
level_things c g parent_id exclude_tags =
    sort (priority_then_title c)
      (filter (λ row. is_shown exclude_tags row && stands_at g parent_id row) g.things)

unfoldable pub tree_level : Collation → Graph → Option ℕ → List String → List TreeNode
unfolding active_child_counts
tree_level c g parent_id exclude_tags =
    let things = level_things c g parent_id exclude_tags in
    let counts = active_child_counts g (map (λ row. row.id) things) in
    map (λ row. record { thing = row; child_count = get_count row.id counts }) things

abbrev pub touches : ℕ → RelationshipRecord → Bool
touches thing_id r = r.source_thing_id == thing_id || r.target_thing_id == thing_id

unfoldable pub relationships_for : Graph → ℕ → List RelationshipRecord
relationships_for g thing_id = sort attached_first (filter (touches thing_id) g.relationships)
