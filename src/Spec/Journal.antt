-- ===== src/Spec/Journal.antt =====
-- The journal read back: the rows that its entries describe, oldest entry first.
use reli.Prelude.{ℕ, ◌≡◌, refl, Option, some, List, [], ◌∷◌, ◌++◌}
use reli.DbModels.{JournalRecord, Snapshot, of_thing, of_relationship, Operation}
use reli.Database.Tables.{Rows, empty_rows, put_thing, remove_relationship}

-- What one entry says was done to the rows. An entry that no operation writes does nothing.
abbrev pub replay_change : Operation → ℕ → Option Snapshot → Rows → Rows
replay_change Operation.create id (some (of_thing t)) rows = record rows {
  things = rows.things ++ t ∷ [];
}
replay_change Operation.update id (some (of_thing t)) rows = record rows {
  things = put_thing t rows.things;
}
replay_change Operation.relate id (some (of_relationship r)) rows = record rows {
  relationships = rows.relationships ++ r ∷ [];
}
replay_change Operation.unrelate id after rows = record rows {
  relationships = remove_relationship id rows.relationships;
}
replay_change _ id after rows = rows

abbrev replay_entry : Rows → JournalRecord → Rows
replay_entry rows e = replay_change e.operation e.entity_id e.after rows

abbrev replay_from : Rows → List JournalRecord → Rows
replay_from rows [] = rows
replay_from rows (e ∷ es) = replay_from (replay_entry rows e) es

-- The rows that a journal describes, from the empty database on.
unfoldable pub replay : List JournalRecord → Rows
replay = replay_from empty_rows

replay_from-append :
    (rows : Rows) (es : List JournalRecord) (e : JournalRecord)
    → replay_from rows (es ++ e ∷ []) ≡ replay_entry (replay_from rows es) e
replay_from-append rows [] e = refl
replay_from-append rows (x ∷ es) e = replay_from-append (replay_entry rows x) es e

-- One more entry is one more change.
pub replay-append :
    (es : List JournalRecord) (e : JournalRecord)
    → replay (es ++ e ∷ []) ≡ replay_change e.operation e.entity_id e.after (replay es)
unfolding replay
replay-append es e = replay_from-append empty_rows es e
