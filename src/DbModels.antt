-- ===== src/DbModels.antt =====
-- backend/db_models.py: the three graph tables' rows, their enums, and the constants of the user model.
-- A UUID is its 128-bit number, a date its day number, an instant its microseconds since the epoch.
use reli.Prelude.{ℕ, String, ◌≡◌, ◌↔◌, Bool, true, false, Option, List, [], ◌∷◌, arith, HasEquals}

pub data RelationshipType : Type 0 where
  child_of blocks related_to evidence_for references : RelationshipType

abbrev pub same_type : RelationshipType → RelationshipType → Bool
same_type child_of child_of = true
same_type blocks blocks = true
same_type related_to related_to = true
same_type evidence_for evidence_for = true
same_type references references = true
same_type _ _ = false

pub same_type_iff : (a b : RelationshipType) → (same_type a b ≡ true) ↔ (a ≡ b)
same_type_iff a b = ground arith

instance abbrev pub RelationshipType_equals : HasEquals RelationshipType
RelationshipType_equals = record { equals = same_type; equals_iff = same_type_iff }

pub data Actor : Type 0 where
  user claude_interactive claude_scheduled : Actor

abbrev pub same_actor : Actor → Actor → Bool
same_actor user user = true
same_actor claude_interactive claude_interactive = true
same_actor claude_scheduled claude_scheduled = true
same_actor _ _ = false

pub same_actor_iff : (a b : Actor) → (same_actor a b ≡ true) ↔ (a ≡ b)
same_actor_iff a b = ground arith

instance abbrev pub Actor_equals : HasEquals Actor
Actor_equals = record { equals = same_actor; equals_iff = same_actor_iff }

pub data Operation : Type 0 where
  create update delete relate unrelate : Operation

pub data EntityType : Type 0 where
  thing relationship : EntityType

-- A Python `int` with its sign; `negsuc n` is -(n + 1).
pub data ℤ : Type 0 where
  pos : ℕ → ℤ
  negsuc : ℕ → ℤ

-- An IEEE double. A finite one is a whole number of units of 2 ^ -1074.
pub data Float : Type 0 where
  finite : ℤ → Float
  infinity negative_infinity not_a_number : Float

-- A `dict[str, str]` in insertion order.
abbrev pub Mapping : Type 0
Mapping = List (String × String)

pub record ThingRecord : Type 0 where
  pub id : ℕ
  pub title : String
  pub description : Option String
  pub notes : Mapping
  pub tags : List String
  pub urls : Mapping
  pub checkin_date : Option ℕ
  pub priority : Float
  pub active : Bool
  pub created_at : ℕ
  pub updated_at : ℕ

pub record RelationshipRecord : Type 0 where
  pub id : ℕ
  pub source_thing_id : ℕ
  pub target_thing_id : ℕ
  pub relationship_type : RelationshipType
  pub context : Option String
  pub created_at : ℕ

-- The JSON copy of a row that the journal keeps: `model_dump` writes every column.
pub data Snapshot : Type 0 where
  of_thing : ThingRecord → Snapshot
  of_relationship : RelationshipRecord → Snapshot

pub record JournalRecord : Type 0 where
  pub id : ℕ
  pub occurred_at : ℕ
  pub actor : Actor
  pub operation : Operation
  pub entity_type : EntityType
  pub entity_id : ℕ
  pub before : Option Snapshot
  pub after : Option Snapshot

abbrev pub user_anchor_id : ℕ
user_anchor_id = 1

abbrev pub user_tag : String
user_tag = "#User"

abbrev pub preference_tag : String
preference_tag = "#Preference"

abbrev pub rejected_tag : String
rejected_tag = "#Rejected"

abbrev pub observation_tag : String
observation_tag = "#Observation"

abbrev pub needs_input_tag : String
needs_input_tag = "#NeedsInput"

abbrev pub scheduled_task_tag : String
scheduled_task_tag = "#ScheduledTask"

abbrev pub briefing_tag : String
briefing_tag = "#Briefing"

abbrev pub internal_tags : List String
internal_tags = user_tag ∷ preference_tag ∷ observation_tag ∷ scheduled_task_tag ∷ briefing_tag ∷ []

abbrev pub new_tag : String
new_tag = "#New"
