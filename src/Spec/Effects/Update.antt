-- ===== src/Spec/Effects/Update.antt =====
-- `update_thing`: the replaced fields, the one journal entry, and the guard against a stale write.
use reli.Prelude.{ℕ, suc, ◌≡◌, Option, none, some}
use reli.DbModels.{ThingRecord, JournalRecord, Actor, Operation, EntityType, of_thing}
use reli.Database.Tables.{Graph, find_thing}
use reli.Database.Session.{Session}
use reli.Service.Bounds.Exact.{WithinBounds}
use reli.Service.Things.{ThingUpdate, Timestamp, aware, naive, updated_fields}
use reli.Spec.Step.{Records, after_update}

-- The version that the caller expects is the stored one, if it names one.
abbrev pub IsCurrent : Option Timestamp → ThingRecord → Type 0
IsCurrent none row = Unit
IsCurrent (some (aware v)) row = v ≡ row.updated_at
IsCurrent (some (naive v)) row = ⊥

-- The new value of a field: the one given, or else the old.
abbrev pub IsGiven : {A : Type 0} → Option A → A → A → Type 0
IsGiven none old new = new ≡ old
IsGiven (some value) old new = new ≡ value

-- The new value of a field that may be empty, which an update cannot empty.
abbrev pub IsGivenSome : {A : Type 0} → Option A → Option A → Option A → Type 0
IsGivenSome none old new = new ≡ old
IsGivenSome (some value) old new = new ≡ some value

-- A row with the fields of an update, at an instant.
pub record Replaces (u : ThingUpdate) (now : ℕ) (before after : ThingRecord) : Type 0 where
  pub same_id : after.id ≡ before.id
  pub title : IsGiven u.title before.title after.title
  pub description : IsGivenSome u.description before.description after.description
  pub notes : IsGiven u.notes before.notes after.notes
  pub tags : IsGiven u.tags before.tags after.tags
  pub urls : IsGiven u.urls before.urls after.urls
  pub checkin_date : IsGivenSome u.checkin_date before.checkin_date after.checkin_date
  pub priority : IsGiven u.priority before.priority after.priority
  pub active : IsGiven u.active before.active after.active
  pub same_created_at : after.created_at ≡ before.created_at
  pub updated : after.updated_at ≡ now

-- The stored row is replaced by itself with the fields of `u`, under one journal entry, and nothing
-- else of the graph changes.
pub record Updated (actor : Actor) (id : ℕ) (u : ThingUpdate) (g : Graph) (row : ThingRecord)
    (h : Graph) : Type 0 where
  pub before : ThingRecord
  pub now : ℕ
  pub entry : JournalRecord
  pub found : find_thing id g.things ≡ some before
  pub within : WithinBounds (updated_fields u)
  pub current : IsCurrent u.expected_updated_at before
  pub replaced : Replaces u now before row
  pub records :
      Records entry actor Operation.update EntityType.thing before.id
        (some (of_thing before))
        (some (of_thing row))
  pub graph : h ≡ after_update g row entry

-- The journal entry of the UPDATE of `before` by `after`, the first draw of the session.
abbrev pub update_entry : Actor → Session → ThingRecord → ThingRecord → JournalRecord
update_entry actor s before after = record {
  id = s.sequence;
  occurred_at = s.env.times (suc s.calls);
  actor = actor;
  operation = Operation.update;
  entity_type = EntityType.thing;
  entity_id = after.id;
  before = some (of_thing before);
  after = some (of_thing after);
}
