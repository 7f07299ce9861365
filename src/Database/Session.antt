-- ===== src/Database/Session.antt =====
-- A SQLAlchemy session over the graph: what is committed, what the open transaction has written, and
-- what the outside world hands the code (random UUIDs, the clock, the owner's calendar).
use reli.Prelude.{ℕ, suc, String, Bool, ◌&&◌, List, [], ◌∷◌, ◌++◌, ◌==◌, if◌then◌else◌}
use reli.DbModels.{
  ThingRecord, RelationshipRecord, JournalRecord, RelationshipType, RelationshipType_equals,
  evidence_for,
}
use reli.Result.{ok, err}
use reli.Exec.{Exec}
use reli.Database.Tables.{
  Rows, Graph, has_thing, put_thing, has_relationship, remove_relationship, has_edge,
}

-- `uuid.uuid4()` and `datetime.now(UTC)` at their n-th call, and the date of an instant in
-- OWNER_TIMEZONE.
pub record Env : Type 0 where
  pub uuids : ℕ → ℕ
  pub times : ℕ → ℕ
  pub owner_date : ℕ → ℕ

-- `calls` counts the draws from the environment. `sequence` is the journal's id sequence, which a
-- rollback does not turn back.
pub record Session : Type 0 where
  pub env : Env
  pub committed : Graph
  pub pending : Graph
  pub calls : ℕ
  pub sequence : ℕ

pub data IntegrityError : Type 0 where
  primary_key foreign_key unique_index : IntegrityError

-- What backend/service.py raises, with the values that its message names.
pub data Error : Type 0 where
  thing_not_found relationship_not_found : ℕ → Error
  stale_write : ℕ → ℕ → Error
  naive_expected_updated_at : Error
  duplicate_relationship : RelationshipRecord → Error
  field_too_large : String → ℕ → Error
  priority_not_finite : Error
  heartbeat_archived heartbeat_untagged : ℕ → Error
  self_edge : RelationshipType → ℕ → Error
  closes_cycle : ℕ → ℕ → Error
  cannot_stand_as_evidence : ℕ → List String → Error
  no_scope no_evidence : Error
  not_a_preference : ℕ → Error
  integrity : IntegrityError → Error

unfoldable pub utcnow : Exec Session Error ℕ
utcnow s = (ok (s.env.times s.calls), record s { calls = suc s.calls })

unfoldable pub uuid4 : Exec Session Error ℕ
uuid4 s = (ok (s.env.uuids s.calls), record s { calls = suc s.calls })

abbrev with_rows : Session → Rows → Session
with_rows s rows = record s { pending = record s.pending { rows = rows } }

-- INSERT INTO things
unfoldable pub insert_thing_row : ThingRecord → Exec Session Error (Unit {0})
insert_thing_row t s =
    let rows = s.pending.rows in
    if has_thing t.id rows.things
    then (err (integrity primary_key), s)
    else (ok tt, with_rows s (record rows { things = rows.things ++ t ∷ [] }))

-- UPDATE things
unfoldable pub save_thing_row : ThingRecord → Exec Session Error (Unit {0})
save_thing_row t s =
    let rows = s.pending.rows in
    (ok tt, with_rows s (record rows { things = put_thing t rows.things }))

-- Whether EVIDENCE_FOR_UNIQUE_INDEX, a partial index, refuses the edge.
abbrev pub breaks_evidence_index : RelationshipRecord → List RelationshipRecord → Bool
breaks_evidence_index r rs =
    r.relationship_type == evidence_for
    && has_edge r.source_thing_id r.target_thing_id evidence_for rs

-- INSERT INTO relationships
unfoldable pub insert_relationship_row : RelationshipRecord → Exec Session Error (Unit {0})
insert_relationship_row r s =
    let rows = s.pending.rows in
    if has_relationship r.id rows.relationships
    then (err (integrity primary_key), s)
    else if breaks_evidence_index r rows.relationships
    then (err (integrity unique_index), s)
    else if has_thing r.source_thing_id rows.things && has_thing r.target_thing_id rows.things
    then (ok tt, with_rows s (record rows { relationships = rows.relationships ++ r ∷ [] }))
    else (err (integrity foreign_key), s)

-- DELETE FROM relationships
unfoldable pub delete_relationship_row : ℕ → Exec Session Error (Unit {0})
delete_relationship_row id s =
    let rows = s.pending.rows in
    (ok tt, with_rows s (record rows { relationships = remove_relationship id rows.relationships }))

-- INSERT INTO journal: the id comes from the sequence.
unfoldable pub add_journal_row : (ℕ → JournalRecord) → Exec Session Error (Unit {0})
add_journal_row entry s = (
  ok tt,
  record s {
    pending = record s.pending { journal = s.pending.journal ++ entry s.sequence ∷ [] };
    sequence = suc s.sequence;
  },
)

unfoldable pub commit : Exec Session Error (Unit {0})
commit s = (ok tt, record s { committed = s.pending })

unfoldable pub rollback : Exec Session Error (Unit {0})
rollback s = (ok tt, record s { pending = s.committed })
