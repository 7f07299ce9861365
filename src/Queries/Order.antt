-- ===== src/Queries/Order.antt =====
-- The orders of backend/queries.py, and its tag conditions. Postgres orders text by the database's
-- collation, which is a parameter; where the columns of two rows tie, the order is not specified, and
-- the model takes that of their insertion.
use reli.Prelude.{
  ◌≡◌, String, Bool, true, false, ◌&&◌, ◌||◌, not, List, any, contains, String_equals, leb, ltb,
  ◌==◌, ℕ_equals,
}
use reli.DbModels.{
  ThingRecord, RelationshipRecord, JournalRecord, ℤ, pos, negsuc, Float, finite, infinity,
  negative_infinity, not_a_number,
}

abbrev pub int_le : ℤ → ℤ → Bool
int_le (pos a) (pos b) = leb a b
int_le (pos a) (negsuc b) = false
int_le (negsuc a) (pos b) = true
int_le (negsuc a) (negsuc b) = leb b a

-- The order of `double precision`: NaN is above all other values.
abbrev pub float_le : Float → Float → Bool
float_le a not_a_number = true
float_le not_a_number b = false
float_le a infinity = true
float_le infinity b = false
float_le negative_infinity b = true
float_le (finite a) negative_infinity = false
float_le (finite a) (finite b) = int_le a b

-- The order of the database's text.
pub record Collation : Type 0 where
  pub title_le : String → String → Bool
  pub title_total : (a b : String) → (title_le a b || title_le b a) ≡ true
  pub title_trans :
      (a b c : String) → title_le a b ≡ true → title_le b c ≡ true → title_le a c ≡ true

-- `ORDER BY priority DESC`
abbrev pub priority_first : ThingRecord → ThingRecord → Bool
priority_first a b = float_le b.priority a.priority

-- `ORDER BY priority DESC, title ASC`
abbrev pub priority_then_title : Collation → ThingRecord → ThingRecord → Bool
priority_then_title c a b =
    float_le b.priority a.priority
    && (not (float_le a.priority b.priority) || c.title_le a.title b.title)

-- `ORDER BY created_at ASC, id ASC`
abbrev pub attached_first : RelationshipRecord → RelationshipRecord → Bool
attached_first a b = ltb a.created_at b.created_at || a.created_at == b.created_at && leb a.id b.id

-- `ORDER BY id ASC`, and `DESC`
abbrev pub id_first : JournalRecord → JournalRecord → Bool
id_first a b = leb a.id b.id

abbrev pub newest_first : JournalRecord → JournalRecord → Bool
newest_first a b = leb b.id a.id

pub data TagMatch : Type 0 where
  any_tag all_tags : TagMatch

abbrev pub has_all : List String → List String → Bool
has_all wanted tags = not (any (λ tag. not (contains tag tags)) wanted)

abbrev pub has_any : List String → List String → Bool
has_any wanted tags = any (λ tag. contains tag tags) wanted

-- `_tagged`
abbrev pub tagged : List String → TagMatch → ThingRecord → Bool
tagged wanted all_tags row = has_all wanted row.tags
tagged wanted any_tag row = has_any wanted row.tags
