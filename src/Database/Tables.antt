-- ===== src/Database/Tables.antt =====
-- The rows of the three tables in the order of their insertion, and the lookups by key.
use reli.Prelude.{
  ℕ, Bool, ◌&&◌, Option, none, some, List, [], ◌∷◌, ◌==◌, ℕ_equals, any, filter, not, if◌then◌else◌,
}
use reli.DbModels.{
  ThingRecord, RelationshipRecord, JournalRecord, RelationshipType, RelationshipType_equals,
}

-- The two tables whose every mutation is journalled.
pub record Rows : Type 0 where
  pub things : List ThingRecord
  pub relationships : List RelationshipRecord

pub record Graph : Type 0 where
  pub rows : Rows
  pub open rows use *
  pub journal : List JournalRecord

abbrev pub empty_rows : Rows
empty_rows = record { things = []; relationships = [] }

abbrev pub empty_graph : Graph
empty_graph = record { rows = empty_rows; journal = [] }

abbrev pub find_thing : ℕ → List ThingRecord → Option ThingRecord
find_thing id [] = none
find_thing id (t ∷ ts) = if t.id == id then some t else find_thing id ts

abbrev pub has_thing : ℕ → List ThingRecord → Bool
has_thing id = any λ t. t.id == id

-- `UPDATE things … WHERE id = :id`
abbrev pub put_thing : ThingRecord → List ThingRecord → List ThingRecord
put_thing new [] = []
put_thing new (t ∷ ts) = (if t.id == new.id then new else t) ∷ put_thing new ts

abbrev pub find_relationship : ℕ → List RelationshipRecord → Option RelationshipRecord
find_relationship id [] = none
find_relationship id (r ∷ rs) = if r.id == id then some r else find_relationship id rs

abbrev pub has_relationship : ℕ → List RelationshipRecord → Bool
has_relationship id = any λ r. r.id == id

-- `DELETE FROM relationships WHERE id = :id`
abbrev pub remove_relationship : ℕ → List RelationshipRecord → List RelationshipRecord
remove_relationship id = filter λ r. not (r.id == id)

-- Whether an edge has these ends and this type.
abbrev pub joins : ℕ → ℕ → RelationshipType → RelationshipRecord → Bool
joins source target type r =
    r.source_thing_id == source && r.target_thing_id == target && r.relationship_type == type

-- `WHERE source_thing_id = … AND target_thing_id = … AND relationship_type = …`, the first row.
abbrev pub find_edge :
    ℕ → ℕ → RelationshipType → List RelationshipRecord → Option RelationshipRecord
find_edge source target type [] = none
find_edge source target type (r ∷ rs) =
    if joins source target type r then some r else find_edge source target type rs

abbrev pub has_edge : ℕ → ℕ → RelationshipType → List RelationshipRecord → Bool
has_edge source target type = any (joins source target type)
