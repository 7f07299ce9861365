-- ===== src/Queries/UserModel.antt =====
-- The preferences and their evidence in backend/queries.py.
pub mod Evidence
pub mod Attached
pub mod Scoped
use reli.Prelude.{
  ℕ, String, Bool, true, false, ◌&&◌, not, Option, none, some, List, [], ◌∷◌, map, ◌==◌, ℕ_equals,
  String_equals, if◌then◌else◌, any, contains, filter, length, sort, strip, is_blank,
}
use reli.DbModels.{
  ThingRecord, RelationshipRecord, RelationshipType_equals, Mapping, child_of, related_to,
  preference_tag, rejected_tag, user_anchor_id,
}
use reli.DbModels
use reli.Database.Tables.{Graph, find_thing, joins}
use reli.Queries.Order.{Collation, priority_then_title, attached_first, all_tags, tagged}
use reli.Queries.Standing.{given}

-- `lower` of the database, and of Python.
pub record Lowering : Type 0 where
  pub sql_lower : String → String
  pub lower : String → String

pub record Preference : Type 0 where
  pub thing : ThingRecord
  pub evidence : List ThingRecord

-- `notes.get(key)`
abbrev pub get_note : String → Mapping → Option String
get_note key [] = none
get_note key ((k, v) ∷ notes) = if k == key then some v else get_note key notes

abbrev pub scope_of : ThingRecord → Option String
scope_of row = get_note "scope" row.notes

abbrev pub is_rejected : Preference → Bool
is_rejected p = contains rejected_tag p.thing.tags

abbrev pub evidence_count : Preference → ℕ
evidence_count p = length p.evidence

-- The edges that attach evidence to these Things, in the order in which they were attached.
abbrev pub is_evidence_edge : List ℕ → RelationshipRecord → Bool
is_evidence_edge preference_ids r =
    contains r.target_thing_id preference_ids && r.relationship_type == DbModels.evidence_for

abbrev pub evidence_edges_of : Graph → List ℕ → List RelationshipRecord
evidence_edges_of g preference_ids =
    sort attached_first (filter (is_evidence_edge preference_ids) g.relationships)

-- `found.setdefault(target, []).append(thing)` for every edge whose source is there.
abbrev pub sources_of : List ThingRecord → ℕ → List RelationshipRecord → List ThingRecord
sources_of things id [] = []
sources_of things id (r ∷ rs) =
    let rest = sources_of things id rs in
    if r.target_thing_id == id
    then elim (find_thing r.source_thing_id things) [ none ↦ rest | some row ↦ row ∷ rest ]
    else rest

abbrev pub entry_of : List ThingRecord → Option (List ThingRecord)
entry_of [] = none
entry_of (row ∷ rows) = some (row ∷ rows)

-- The evidence of each Thing of `preference_ids`; none is the key that is missing.
unfoldable pub evidence_by_preference : Graph → List ℕ → ℕ → Option (List ThingRecord)
evidence_by_preference g preference_ids id =
    entry_of (sources_of g.things id (evidence_edges_of g preference_ids))

-- `.get(thing_id, [])`
abbrev pub entry_or_empty : Option (List ThingRecord) → List ThingRecord
entry_or_empty none = []
entry_or_empty (some rows) = rows

unfoldable pub evidence_for : Graph → ℕ → List ThingRecord
unfolding evidence_by_preference
evidence_for g thing_id = entry_or_empty (evidence_by_preference g (thing_id ∷ []) thing_id)

unfoldable pub preference_of : Graph → ThingRecord → Preference
unfolding evidence_for
preference_of g row = record { thing = row; evidence = evidence_for g row.id }

abbrev pub has_scope : Lowering → String → ThingRecord → Bool
has_scope l scope row = elim (scope_of row) [
  | none ↦ false
  | some s ↦ l.sql_lower s == l.lower (strip scope)
]

-- The rows of the statement: a preference that the anchor points at.
abbrev pub is_preference_row : Lowering → Graph → Option String → Bool → ThingRecord → Bool
is_preference_row l g scope include_rejected row =
    any (joins user_anchor_id row.id related_to) g.relationships
    && tagged (preference_tag ∷ []) all_tags row
    && given scope (λ s. has_scope l s row)
    && (if include_rejected then true else not (contains rejected_tag row.tags))

abbrev pub preference_rows : Collation → Lowering → Graph → Option String → Bool → List ThingRecord
preference_rows c l g scope include_rejected =
    sort (priority_then_title c) (filter (is_preference_row l g scope include_rejected) g.things)

-- `(notes.get("scope") or "").strip()`
abbrev pub is_scoped : ThingRecord → Bool
is_scoped row = elim (scope_of row) [ none ↦ false | some s ↦ not (is_blank s) ]

-- The rows with evidence and a scope.
abbrev pub with_evidence : (ℕ → Option (List ThingRecord)) → List ThingRecord → List Preference
with_evidence evidence [] = []
with_evidence evidence (row ∷ rows) =
    let rest = with_evidence evidence rows in
    elim (evidence row.id) [
      | none ↦ rest
      | some found ↦ if is_scoped row then record { thing = row; evidence = found } ∷ rest else rest
    ]

unfoldable pub user_model : Collation → Lowering → Graph → Option String → Bool → List Preference
unfolding evidence_by_preference
user_model c l g scope include_rejected =
    let rows = preference_rows c l g scope include_rejected in
    with_evidence (evidence_by_preference g (map (λ row. row.id) rows)) rows
