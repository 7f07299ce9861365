-- ===== src/Queries/JournalWindows.antt =====
-- The windows onto the journal in backend/queries.py.
use reli.Prelude.{
  ℕ, Bool, ◌&&◌, Option, List, ◌==◌, ℕ_equals, contains, filter, take, length, ltb, sort, reverse,
}
use reli.DbModels.{JournalRecord, Actor, Actor_equals}
use reli.Database.Tables.{Graph}
use reli.Queries.Order.{id_first, newest_first}
use reli.Queries.Standing.{given}

pub record History : Type 0 where
  pub entries : List JournalRecord
  pub total : ℕ

abbrev pub truncated : History → Bool
truncated h = ltb (length h.entries) h.total

abbrev pub is_of_entity : ℕ → JournalRecord → Bool
is_of_entity entity_id e = e.entity_id == entity_id

unfoldable pub history : Graph → ℕ → ℕ → History
history g entity_id limit = record {
  entries = reverse (take limit (sort newest_first (filter (is_of_entity entity_id) g.journal)));
  total = length (filter (is_of_entity entity_id) g.journal);
}

-- `actors` is none for every actor.
abbrev pub is_since : ℕ → Option (List Actor) → JournalRecord → Bool
is_since after_id actors e = ltb after_id e.id && given actors (λ actors. contains e.actor actors)

unfoldable pub journal_since : Graph → ℕ → Option (List Actor) → ℕ → History
journal_since g after_id actors limit = record {
  entries = take limit (sort id_first (filter (is_since after_id actors) g.journal));
  total = length (filter (is_since after_id actors) g.journal);
}
