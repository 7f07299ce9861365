-- ===== src/Spec/Step.antt =====
-- The admissible changes of the graph, and their sequences.
use reli.Prelude.{
  ℕ, ◌≡◌, ◌≢◌, refl, true, false, Option, none, some, [], ◌∷◌, ◌++◌, contains, String_equals,
}
use reli.DbModels.{
  ThingRecord, RelationshipRecord, JournalRecord, Snapshot, of_thing, of_relationship, Actor,
  Operation, EntityType, child_of, evidence_for, scheduled_task_tag,
}
use reli.Database.Tables.{
  Rows, Graph, find_thing, has_thing, put_thing, find_relationship, has_relationship,
  remove_relationship, has_edge,
}
use reli.Service.ChildOf.{child_of_reaches}
use reli.Service.Writes.{barred_tags}

-- The entry that stands in the journal for one change.
pub record Records (e : JournalRecord) (actor : Actor) (operation : Operation)
    (entity_type : EntityType) (entity_id : ℕ) (before after : Option Snapshot) : Type 0 where
  pub by : e.actor ≡ actor
  pub did : e.operation ≡ operation
  pub to : e.entity_type ≡ entity_type
  pub which : e.entity_id ≡ entity_id
  pub from_state : e.before ≡ before
  pub to_state : e.after ≡ after

pub Records-self :
    (e : JournalRecord) → Records e e.actor e.operation e.entity_type e.entity_id e.before e.after
Records-self e = record {
  by = refl;
  did = refl;
  to = refl;
  which = refl;
  from_state = refl;
  to_state = refl;
}

-- What an update may do to a row: it keeps the id and the creation time, and a heartbeat keeps its
-- tag and does not leave the active Things.
pub record Updates (before after : ThingRecord) : Type 0 where
  pub same_id : after.id ≡ before.id
  pub same_creation : after.created_at ≡ before.created_at
  pub keeps_heartbeat :
      contains scheduled_task_tag before.tags ≡ true → contains scheduled_task_tag after.tags ≡ true
  pub keeps_active :
      contains scheduled_task_tag before.tags ≡ true → before.active ≡ true → after.active ≡ true

-- An edge that may be added to the rows.
pub record Admissible (rows : Rows) (r : RelationshipRecord) : Type 0 where
  pub fresh : has_relationship r.id rows.relationships ≡ false
  pub no_loop : r.source_thing_id ≢ r.target_thing_id
  pub source_exists : has_thing r.source_thing_id rows.things ≡ true
  pub target_exists : has_thing r.target_thing_id rows.things ≡ true
  pub no_cycle :
      r.relationship_type ≡ child_of
      → child_of_reaches rows.relationships r.target_thing_id r.source_thing_id ≡ false
  pub no_duplicate :
      r.relationship_type ≡ evidence_for
      → has_edge r.source_thing_id r.target_thing_id evidence_for rows.relationships ≡ false
  pub real_evidence :
      (source : ThingRecord)
      → r.relationship_type ≡ evidence_for
      → find_thing r.source_thing_id rows.things ≡ some source
      → barred_tags source ≡ []

abbrev pub after_create : Graph → ThingRecord → JournalRecord → Graph
after_create g t e = record {
  rows = record g.rows { things = g.rows.things ++ t ∷ [] };
  journal = g.journal ++ e ∷ [];
}

abbrev pub after_update : Graph → ThingRecord → JournalRecord → Graph
after_update g t e = record {
  rows = record g.rows { things = put_thing t g.rows.things };
  journal = g.journal ++ e ∷ [];
}

abbrev pub after_relate : Graph → RelationshipRecord → JournalRecord → Graph
after_relate g r e = record {
  rows = record g.rows { relationships = g.rows.relationships ++ r ∷ [] };
  journal = g.journal ++ e ∷ [];
}

abbrev pub after_unrelate : Graph → ℕ → JournalRecord → Graph
after_unrelate g id e = record {
  rows = record g.rows { relationships = remove_relationship id g.rows.relationships };
  journal = g.journal ++ e ∷ [];
}

-- One change, by one actor.
pub data Step (actor : Actor) : Graph → Graph → Type 0 where
  created :
      (g : Graph) (t : ThingRecord) (e : JournalRecord)
      → has_thing t.id g.rows.things ≡ false
      → Records e actor Operation.create EntityType.thing t.id none (some (of_thing t))
      → Step actor g (after_create g t e)
  updated :
      (g : Graph) (before t : ThingRecord) (e : JournalRecord)
      → find_thing t.id g.rows.things ≡ some before
      → Updates before t
      → Records e actor Operation.update EntityType.thing t.id
          (some (of_thing before))
          (some (of_thing t))
      → Step actor g (after_update g t e)
  related :
      (g : Graph) (r : RelationshipRecord) (e : JournalRecord)
      → Admissible g.rows r
      → Records e actor Operation.relate EntityType.relationship r.id none
          (some (of_relationship r))
      → Step actor g (after_relate g r e)
  unrelated :
      (g : Graph) (r : RelationshipRecord) (e : JournalRecord)
      → find_relationship r.id g.rows.relationships ≡ some r
      → Records e actor Operation.unrelate EntityType.relationship r.id
          (some (of_relationship r))
          none
      → Step actor g (after_unrelate g r.id e)

pub data Steps (actor : Actor) (g : Graph) : Graph → Type 0 where
  done : Steps actor g g
  then_step : {h k : Graph} → Steps actor g h → Step actor h k → Steps actor g k

pub Steps-trans :
    {actor : Actor} {g h k : Graph} → Steps actor g h → Steps actor h k → Steps actor g k
Steps-trans p done = p
Steps-trans p (then_step q s) = then_step (Steps-trans p q) s

-- What every change keeps, every sequence of changes keeps.
pub Steps-invariant :
    {actor : Actor} (P : Graph → Type 0)
    → ((g h : Graph) → Step actor g h → P g → P h)
    → {g h : Graph} → Steps actor g h
    → P g
    → P h
Steps-invariant P keep done p = p
Steps-invariant P keep (then_step {h} {k} q s) p = keep h k s (Steps-invariant P keep q p)
