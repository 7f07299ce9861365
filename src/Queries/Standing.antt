-- ===== src/Queries/Standing.antt =====
-- The standing questions of backend/queries.py, and the general listing.
use reli.Prelude.{
  ℕ, String, Bool, true, false, ◌&&◌, not, Option, none, some, List, [], ◌∷◌, ◌==◌, ℕ_equals, any,
  filter, take, length, leb, ltb, sort,
}
use reli.DbModels.{
  ThingRecord, RelationshipRecord, RelationshipType_equals, blocks, Float, internal_tags,
  needs_input_tag,
}
use reli.Database.Tables.{Graph}
use reli.Queries.Order.{
  Collation, float_le, priority_first, priority_then_title, TagMatch, any_tag, tagged,
}

-- `checkin_date <= as_of`, which no null is.
abbrev pub is_due : ℕ → ThingRecord → Bool
is_due as_of row = elim row.checkin_date [ none ↦ false | some date ↦ leb date as_of ]

abbrev pub is_due_for_checkin : ℕ → ThingRecord → Bool
is_due_for_checkin as_of row =
    row.active && is_due as_of row && not (tagged internal_tags any_tag row)

unfoldable pub due_for_checkin : Graph → ℕ → List ThingRecord
due_for_checkin g as_of = sort priority_first (filter (is_due_for_checkin as_of) g.things)

abbrev pub untouched_first : ThingRecord → ThingRecord → Bool
untouched_first a b = leb a.updated_at b.updated_at

abbrev pub is_stale : ℕ → ThingRecord → Bool
is_stale since row = row.active && ltb row.updated_at since

unfoldable pub stale : Graph → ℕ → List ThingRecord
stale g since = sort untouched_first (filter (is_stale since) g.things)

pub record NeedsInput : Type 0 where
  pub things : List ThingRecord
  pub total : ℕ

abbrev pub NeedsInput_truncated : NeedsInput → Bool
NeedsInput_truncated n = ltb (length n.things) n.total

abbrev pub waits_for_input : ThingRecord → Bool
waits_for_input row = row.active && tagged (needs_input_tag ∷ []) any_tag row

unfoldable pub needs_input : Collation → Graph → ℕ → NeedsInput
needs_input c g limit = record {
  things = take limit (sort (priority_then_title c) (filter waits_for_input g.things));
  total = length (filter waits_for_input g.things);
}

-- `JOIN things blocker ON blocker.id = target_thing_id … WHERE blocker.active`
abbrev pub is_active_thing : ℕ → List ThingRecord → Bool
is_active_thing id = any λ row. row.id == id && row.active

abbrev pub holds_up : List ThingRecord → ThingRecord → RelationshipRecord → Bool
holds_up things row r =
    r.source_thing_id == row.id
    && r.relationship_type == blocks
    && is_active_thing r.target_thing_id things

-- A distinct row of the join with the edges is a row that some edge joins.
unfoldable pub blocked : Graph → List ThingRecord
blocked g =
    sort priority_first (filter (λ row. any (holds_up g.things row) g.relationships) g.things)

-- The filters of `find_things`; `none` is not given.
pub record Filters : Type 0 where
  pub tags : List String
  pub match : TagMatch
  pub active : Option Bool
  pub checkin_from : Option ℕ
  pub checkin_to : Option ℕ
  pub priority_min : Option Float
  pub priority_max : Option Float

-- A condition that is only there if its value is given.
abbrev pub given {ℓ} : {A : Type ℓ} → Option A → (A → Bool) → Bool
given none test = true
given (some a) test = test a

-- `checkin_date >= from`, which no null is.
abbrev pub is_due_from : ℕ → ThingRecord → Bool
is_due_from from row = elim row.checkin_date [ none ↦ false | some date ↦ leb from date ]

abbrev pub is_active_as : Bool → ThingRecord → Bool
is_active_as true row = row.active
is_active_as false row = not row.active

abbrev pub tags_match : Filters → ThingRecord → Bool
tags_match f row = elim f.tags [ [] ↦ true | tag ∷ tags ↦ tagged (tag ∷ tags) f.match row ]

abbrev pub passes : Filters → ThingRecord → Bool
passes f row =
    tags_match f row
    && given f.active (λ active. is_active_as active row)
    && given f.checkin_from (λ from. is_due_from from row)
    && given f.checkin_to (λ to. is_due to row)
    && given f.priority_min (λ low. float_le low row.priority)
    && given f.priority_max (λ high. float_le row.priority high)

unfoldable pub find_things : Collation → Graph → Filters → ℕ → List ThingRecord
find_things c g f limit = take limit (sort (priority_then_title c) (filter (passes f) g.things))
