-- ===== src/Service/Things.antt =====
-- `create_thing`, `update_thing` and `backfill_checkin_dates` of backend/service.py.
use reli.Prelude.{
  ℕ, suc, ◌+◌, ◌/◌, String, Bool, true, false, ◌&&◌, ◌||◌, not, Option, none, some, List, [], ◌∷◌,
  ◌++◌, ◌==◌, ℕ_equals, String_equals, if◌then◌else◌, contains, any, filter, length, ltb, leb, sort,
}
use reli.DbModels.{
  ThingRecord, Mapping, Float, of_thing, Actor, claude_scheduled, Operation, EntityType,
  internal_tags, new_tag, scheduled_task_tag,
}
use reli.Database.Session.{
  Error, stale_write, naive_expected_updated_at, heartbeat_archived, heartbeat_untagged, utcnow,
  save_thing_row, commit,
}
use reli.Result
use reli.Result.{Result, ok, err}
use reli.Exec.{pure, lift, gets, ◌>>=◌, ◌>>◌}
use reli.Service.Bounds.{Fields, check_thing_fields}
use reli.Service.Writes.{
  Action, journalled, require_thing, NewThing, given_fields, given_or, insert_thing,
}

abbrev pub is_internal : List String → Bool
is_internal = any λ tag. contains tag internal_tags

-- Tomorrow in OWNER_TIMEZONE.
unfoldable pub default_checkin_date : ℕ → Action ℕ
default_checkin_date now = gets (λ s. s.env.owner_date now + 1)

abbrev pub capture_tags : List String → List String
capture_tags tags =
    if is_internal tags then tags else if contains new_tag tags then tags else tags ++ new_tag ∷ []

unfoldable pub capture_date : List String → Option ℕ → Action (Option ℕ)
unfolding default_checkin_date
capture_date tags (some date) = pure (some date)
capture_date tags none =
    if is_internal tags
    then pure none
    else (do now ← utcnow; date ← default_checkin_date now; pure (some date))

abbrev pub with_capture : NewThing → Option ℕ → NewThing
with_capture new date = record new {
  tags = some (capture_tags (given_or new.tags []));
  checkin_date = date;
}

unfoldable pub create_thing : Actor → NewThing → Action ThingRecord
create_thing actor new = do
  lift (check_thing_fields (given_fields new))
  date ← capture_date (given_or new.tags []) new.checkin_date
  row ← insert_thing actor (with_capture new date) none
  commit
  pure row

-- A `datetime` argument: with a UTC offset, or without one.
pub data Timestamp : Type 0 where
  aware naive : ℕ → Timestamp

-- The keyword arguments of `update_thing`; `none` is not given.
pub record ThingUpdate : Type 0 where
  pub title : Option String
  pub description : Option String
  pub notes : Option Mapping
  pub tags : Option (List String)
  pub urls : Option Mapping
  pub checkin_date : Option ℕ
  pub priority : Option Float
  pub active : Option Bool
  pub expected_updated_at : Option Timestamp

abbrev pub no_update : ThingUpdate
no_update = record {
  title = none;
  description = none;
  notes = none;
  tags = none;
  urls = none;
  checkin_date = none;
  priority = none;
  active = none;
  expected_updated_at = none;
}

abbrev pub updated_fields : ThingUpdate → Fields
updated_fields u = record {
  title = u.title;
  description = u.description;
  notes = u.notes;
  tags = u.tags;
  urls = u.urls;
  priority = u.priority;
}

unfoldable pub check_expected : Option Timestamp → ThingRecord → Result Error Unit
check_expected none row = ok tt
check_expected (some (naive t)) row = err naive_expected_updated_at
check_expected (some (aware t)) row =
    Result.require (t == row.updated_at) (stale_write row.id row.updated_at)

abbrev pub is_heartbeat : ThingRecord → Bool
is_heartbeat row = contains scheduled_task_tag row.tags

abbrev is_archival : Option Bool → Bool
is_archival (some false) = true
is_archival _ = false

abbrev pub drops_heartbeat_tag : Option (List String) → Bool
drops_heartbeat_tag none = false
drops_heartbeat_tag (some tags) = not (contains scheduled_task_tag tags)

unfoldable pub check_heartbeat_kept :
    ThingRecord → Option (List String) → Option Bool → Result Error Unit
check_heartbeat_kept row tags active =
    if not (is_heartbeat row)
    then ok tt
    else if is_archival active
    then err (heartbeat_archived row.id)
    else if drops_heartbeat_tag tags
    then err (heartbeat_untagged row.id)
    else ok tt

-- Every field that is given replaces the stored value.
abbrev pub updated_row : ThingUpdate → ℕ → ThingRecord → ThingRecord
updated_row u now row = record {
  id = row.id;
  title = given_or u.title row.title;
  description = elim u.description [ none ↦ row.description | some d ↦ some d ];
  notes = given_or u.notes row.notes;
  tags = given_or u.tags row.tags;
  urls = given_or u.urls row.urls;
  checkin_date = elim u.checkin_date [ none ↦ row.checkin_date | some d ↦ some d ];
  priority = given_or u.priority row.priority;
  active = given_or u.active row.active;
  created_at = row.created_at;
  updated_at = now;
}

-- The UPDATE and its journal entry, not committed.
unfoldable pub save_journalled : Actor → ThingRecord → ThingRecord → Action Unit
unfolding save_thing_row
save_journalled actor before after = do
  save_thing_row after
  journalled actor Operation.update EntityType.thing after.id (some (of_thing before))
      (some (of_thing after))

unfoldable pub update_thing : Actor → ℕ → ThingUpdate → Action ThingRecord
update_thing actor thing_id u = do
  lift (check_thing_fields (updated_fields u))
  row ← require_thing thing_id
  lift (check_expected u.expected_updated_at row)
  lift (check_heartbeat_kept row u.tags u.active)
  now ← utcnow
  save_journalled actor row (updated_row u now row)
  commit
  pure (updated_row u now row)

abbrev pub backfill_per_day : ℕ
backfill_per_day = 5

-- `ORDER BY created_at, id`
abbrev pub captured_before : ThingRecord → ThingRecord → Bool
captured_before a b = ltb a.created_at b.created_at || a.created_at == b.created_at && leb a.id b.id

abbrev pub is_undated : ThingRecord → Bool
is_undated row = row.active && elim row.checkin_date [ none ↦ true | some _ ↦ false ]

-- The rows that the backfill dates, oldest capture first.
abbrev pub undated_captures : List ThingRecord → List ThingRecord
undated_captures rows =
    filter (λ row. not (is_internal row.tags)) (sort captured_before (filter is_undated rows))

-- `not thing.description`
abbrev pub is_bare : ThingRecord → Bool
is_bare row = elim row.description [ none ↦ true | some d ↦ d == "" ]

abbrev pub backfilled_row : ℕ → ℕ → ℕ → ThingRecord → ThingRecord
backfilled_row first_date now position row = record row {
  checkin_date = some (first_date + position / backfill_per_day);
  tags =
      if is_bare row && not (contains new_tag row.tags) then row.tags ++ new_tag ∷ [] else row.tags;
  updated_at = now;
}

-- `for position, thing in enumerate(captures)`
unfoldable pub backfill_each : ℕ → ℕ → ℕ → List ThingRecord → Action Unit
backfill_each first_date now position [] = pure tt
backfill_each first_date now position (row ∷ rows) = do
  save_journalled claude_scheduled row (backfilled_row first_date now position row)
  backfill_each first_date now (suc position) rows

unfoldable pub backfill_checkin_dates : ℕ → Action ℕ
unfolding default_checkin_date backfill_each
backfill_checkin_dates now = do
  captures ← gets (λ s. undated_captures s.pending.things)
  first_date ← default_checkin_date now
  backfill_each first_date now 0 captures
  pure (length captures)
