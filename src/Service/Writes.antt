-- ===== src/Service/Writes.antt =====
-- The half of backend/service.py that writes without committing: the journal, the lookups that
-- raise, and the inserts that several mutations share.
use reli.Prelude.{
  ℕ, String, Bool, not, Option, none, some, List, [], ◌∷◌, ◌==◌, ℕ_equals, String_equals,
  if◌then◌else◌, contains, filter,
}
use reli.DbModels.{
  ThingRecord, RelationshipRecord, Mapping, Float, Snapshot, of_thing, of_relationship, Actor,
  Operation, EntityType, RelationshipType, RelationshipType_equals, child_of, evidence_for,
  internal_tags, observation_tag,
}
use reli.Database.Tables.{find_thing}
use reli.Database.Session.{
  Session, Error, thing_not_found, self_edge, closes_cycle, cannot_stand_as_evidence, utcnow, uuid4,
  insert_thing_row, insert_relationship_row, delete_relationship_row, add_journal_row,
}
use reli.Result.{Result, ok, err}
use reli.Exec.{Exec, pure, lift, gets, guard, or_raise, ◌>>=◌, ◌>>◌}
use reli.Service.Bounds.{Fields, check_thing_fields, check_text, max_context_chars}
use reli.Service.ChildOf.{child_of_reaches}

abbrev pub Action : Type 0 → Type 0
Action A = Exec Session Error A

unfoldable pub journalled :
    Actor → Operation → EntityType → ℕ → Option Snapshot → Option Snapshot → Action Unit
unfolding utcnow add_journal_row
journalled actor operation entity_type entity_id before after = do
  now ← utcnow
  add_journal_row λ n. record {
    id = n;
    occurred_at = now;
    actor = actor;
    operation = operation;
    entity_type = entity_type;
    entity_id = entity_id;
    before = before;
    after = after;
  }

unfoldable pub require_thing : ℕ → Action ThingRecord
require_thing id = do
  found ← gets (λ s. find_thing id s.pending.things)
  or_raise found (thing_not_found id)

-- The keyword arguments of `create_thing`; `none` is the argument left out.
pub record NewThing : Type 0 where
  pub title : String
  pub description : Option String
  pub notes : Option Mapping
  pub tags : Option (List String)
  pub urls : Option Mapping
  pub checkin_date : Option ℕ
  pub priority : Float
  pub active : Bool

abbrev pub given_fields : NewThing → Fields
given_fields new = record {
  title = some new.title;
  description = new.description;
  notes = new.notes;
  tags = new.tags;
  urls = new.urls;
  priority = some new.priority;
}

abbrev pub given_or {ℓ} : {A : Type ℓ} → Option A → A → A
given_or none d = d
given_or (some a) d = a

abbrev pub new_row : NewThing → ℕ → ℕ → ThingRecord
new_row new id now = record {
  id = id;
  title = new.title;
  description = new.description;
  notes = given_or new.notes [];
  tags = given_or new.tags [];
  urls = given_or new.urls [];
  checkin_date = new.checkin_date;
  priority = new.priority;
  active = new.active;
  created_at = now;
  updated_at = now;
}

-- The id given, or the column's `default_factory`.
unfoldable pub chosen_id : Option ℕ → Action ℕ
chosen_id none = uuid4
chosen_id (some id) = pure id

unfoldable pub insert_thing : Actor → NewThing → Option ℕ → Action ThingRecord
insert_thing actor new thing_id = do
  lift (check_thing_fields (given_fields new))
  now ← utcnow
  id ← chosen_id thing_id
  insert_thing_row (new_row new id now)
  journalled actor Operation.create EntityType.thing id none (some (of_thing (new_row new id now)))
  pure (new_row new id now)

abbrev pub not_evidence_tags : List String
not_evidence_tags = filter (λ tag. not (tag == observation_tag)) internal_tags

-- The tags that keep a Thing from standing as evidence.
abbrev pub barred_tags : ThingRecord → List String
barred_tags source = filter (λ tag. contains tag not_evidence_tags) source.tags

unfoldable pub check_evidence_source : ThingRecord → Result Error Unit
check_evidence_source source = elim (barred_tags source) [
  | [] ↦ ok tt
  | tag ∷ tags ↦ err (cannot_stand_as_evidence source.id (tag ∷ tags))
]

-- `if source is not None: _check_evidence_source(source)`
unfoldable pub check_source_found : Option ThingRecord → Result Error Unit
check_source_found none = ok tt
check_source_found (some source) = check_evidence_source source

-- A ChildOf edge must not close a cycle. The advisory lock that serialises these inserts is held by
-- the one session that runs.
unfoldable pub check_tree : ℕ → ℕ → RelationshipType → Action Unit
check_tree source target type =
    if type == child_of
    then (do
      closes ← gets (λ s. child_of_reaches s.pending.relationships target source)
      guard (not closes) (closes_cycle target source))
    else pure tt

unfoldable pub check_evidence : ℕ → RelationshipType → Action Unit
check_evidence source type =
    if type == evidence_for
    then (do
      found ← gets (λ s. find_thing source s.pending.things)
      lift (check_source_found found))
    else pure tt

unfoldable pub check_edge : ℕ → ℕ → RelationshipType → Action Unit
unfolding check_tree check_evidence
check_edge source target type = do
  guard (not (source == target)) (self_edge type source)
  check_tree source target type
  check_evidence source type

abbrev pub new_edge : ℕ → ℕ → RelationshipType → Option String → ℕ → ℕ → RelationshipRecord
new_edge source target type context id now = record {
  id = id;
  source_thing_id = source;
  target_thing_id = target;
  relationship_type = type;
  context = context;
  created_at = now;
}

unfoldable pub insert_relationship :
    Actor → ℕ → ℕ → RelationshipType → Option String → Action RelationshipRecord
insert_relationship actor source target type context = do
  lift (check_text "context" context max_context_chars)
  check_edge source target type
  now ← utcnow
  id ← uuid4
  insert_relationship_row (new_edge source target type context id now)
  journalled actor Operation.relate EntityType.relationship id none
      (some (of_relationship (new_edge source target type context id now)))
  pure (new_edge source target type context id now)

unfoldable pub delete_relationship : Actor → RelationshipRecord → Action Unit
delete_relationship actor r = do
  delete_relationship_row r.id
  journalled actor Operation.unrelate EntityType.relationship r.id (some (of_relationship r)) none
