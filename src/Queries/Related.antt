-- ===== src/Queries/Related.antt =====
-- `related` of backend/queries.py: the recursive walk over the edges, the nearest row for each Thing,
-- and the order of the answer. A depth below 1 is the depth 0 here.
pub mod Rounds
pub mod Nearest
pub mod Answer
use reli.Prelude.{
  ℕ, zero, suc, ◌+◌, String, Bool, true, false, ◌&&◌, ◌||◌, not, Option, none, some, List, [], ◌∷◌,
  ◌++◌, map, ◌==◌, ℕ_equals, if◌then◌else◌, filter, contains, leb, ltb, sort, text_le,
}
use reli.DbModels.{
  ThingRecord, RelationshipRecord, RelationshipType, RelationshipType_equals, child_of, blocks,
  related_to, evidence_for, references,
}
use reli.Database.Tables.{Graph}
use reli.Queries.Tree.{touches}

abbrev pub max_related_depth : ℕ
max_related_depth = 5

-- A row of `walk`.
pub record WalkRow : Type 0 where
  pub thing_id : ℕ
  pub depth : ℕ
  pub relationship_type : RelationshipType
  pub path : List ℕ

-- `CASE WHEN r.source_thing_id = x THEN r.target_thing_id ELSE r.source_thing_id END`
abbrev pub far_end : ℕ → RelationshipRecord → ℕ
far_end x r = if r.source_thing_id == x then r.target_thing_id else r.source_thing_id

module _ (origin : ℕ) (types : List RelationshipType) (max_depth : ℕ)
    (rs : List RelationshipRecord) where
  -- The non-recursive SELECT.
  abbrev pub is_first : RelationshipRecord → Bool
  is_first r = touches origin r && contains r.relationship_type types

  abbrev pub first_row : RelationshipRecord → WalkRow
  first_row r = record {
    thing_id = far_end origin r;
    depth = 1;
    relationship_type = r.relationship_type;
    path = origin ∷ [];
  }

  abbrev pub first_rows : List WalkRow
  first_rows = map first_row (filter is_first rs)

  -- The recursive SELECT.
  abbrev pub is_next : WalkRow → RelationshipRecord → Bool
  is_next w r =
      touches w.thing_id r
      && ltb w.depth max_depth
      && not (contains (far_end w.thing_id r) w.path)
      && contains r.relationship_type types

  abbrev pub next_row : WalkRow → RelationshipRecord → WalkRow
  next_row w r = record {
    thing_id = far_end w.thing_id r;
    depth = w.depth + 1;
    relationship_type = r.relationship_type;
    path = w.path ++ w.thing_id ∷ [];
  }

  abbrev pub next_rows : List WalkRow → List WalkRow
  next_rows [] = []
  next_rows (w ∷ ws) = map (next_row w) (filter (is_next w) rs) ++ next_rows ws

  -- The rounds of the recursive query, until one finds no row; none is the end of the fuel.
  unfoldable pub rounds : ℕ → List WalkRow → Option (List WalkRow)
  rounds zero [] = some []
  rounds zero (w ∷ ws) = none
  rounds (suc fuel) [] = some []
  rounds (suc fuel) (w ∷ ws) = elim (rounds fuel (next_rows (w ∷ ws))) [
    | none ↦ none
    | some rest ↦ some ((w ∷ ws) ++ rest)
  ]

-- `SELECT DISTINCT ON (thing_id) … ORDER BY thing_id, depth`: the row for this Thing.
abbrev pub nearer : WalkRow → Option WalkRow → WalkRow
nearer w none = w
nearer w (some v) = if leb w.depth v.depth then w else v

abbrev pub nearest_row : ℕ → List WalkRow → Option WalkRow
nearest_row id [] = none
nearest_row id (w ∷ ws) =
    let rest = nearest_row id ws in if w.thing_id == id then some (nearer w rest) else rest

abbrev pub found : ℕ → List WalkRow → ℕ → Option WalkRow
found origin rows id = if id == origin then none else nearest_row id rows

pub record RelatedThing : Type 0 where
  pub thing : ThingRecord
  pub depth : ℕ
  pub relationship_type : RelationshipType

abbrev pub found_things : (ℕ → Option WalkRow) → List ThingRecord → List RelatedThing
found_things row_of [] = []
found_things row_of (t ∷ ts) =
    let rest = found_things row_of ts in
    elim (row_of t.id) [
      | none ↦ rest
      | some w ↦
          record { thing = t; depth = w.depth; relationship_type = w.relationship_type } ∷ rest
    ]

-- `key=lambda r: (r.depth, r.thing.title)`
abbrev pub nearest_first : RelatedThing → RelatedThing → Bool
nearest_first a b = ltb a.depth b.depth || a.depth == b.depth && text_le a.thing.title b.thing.title

abbrev pub all_types : List RelationshipType
all_types = child_of ∷ blocks ∷ related_to ∷ evidence_for ∷ references ∷ []

abbrev pub wanted : Option (List RelationshipType) → List RelationshipType
wanted none = all_types
wanted (some types) = types

abbrev pub min : ℕ → ℕ → ℕ
min a b = if leb a b then a else b

abbrev pub results_of : Graph → ℕ → Option (List WalkRow) → Option (List RelatedThing)
results_of g thing_id none = none
results_of g thing_id (some rows) =
    some (sort nearest_first (found_things (found thing_id rows) g.things))

-- The fuel of the walk is its greatest depth.
unfoldable pub related : Graph → ℕ → Option (List RelationshipType) → ℕ → Option (List RelatedThing)
unfolding rounds
related g thing_id types zero = some []
related g thing_id types (suc n) =
    let depth = min (suc n) max_related_depth in
    elim (wanted types) [
      | [] ↦ some []
      | type ∷ others ↦
          let first = first_rows thing_id (type ∷ others) depth g.relationships in
          results_of g thing_id (rounds thing_id (type ∷ others) depth g.relationships depth first)
    ]
