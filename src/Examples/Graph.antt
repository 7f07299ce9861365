-- ===== src/Examples/Graph.antt =====
-- backend/service.py on a small database.

use reli.Prelude.{◌+◌, ◌/◌, ◌≡◌, ◌↔◌, refl, true, false, none, some, List, [], ◌∷◌, String_equals}
use reli.DbModels.{
  ThingRecord, RelationshipRecord, Actor, user, claude_interactive, claude_scheduled, child_of,
  scheduled_task_tag,
}
use reli.Database.Tables.{find_thing}
use reli.Database.Session.{
  Env, Session, closes_cycle, uuid4, utcnow, insert_thing_row, insert_relationship_row, commit,
  rollback, add_journal_row, save_thing_row,
}
use reli.Result.{ok, err}
use reli.Exec.{◌>>=◌, try, for_each}
use reli.Service.Bounds.{check_thing_fields, check_mapping, check_text, check_tags, check_priority}
use reli.Service.ChildOf.{child_of_reaches}
use reli.Service.ChildOf.Exact.{Below, child_of_reaches_iff}
use reli.Service.Writes.{
  NewThing, given_fields, chosen_id, insert_thing, journalled, check_edge, check_source_found,
  check_evidence_source, insert_relationship, require_thing,
}
use reli.Service.Things.{
  create_thing, capture_date, ThingUpdate, aware, update_thing, no_update, check_expected,
  check_heartbeat_kept, save_journalled,
}
use reli.Service.Edges.{relate, on_refused_edge}
use reli.Service.Preferences.{
  titled, record_preference, get_or_create_user_anchor, add_preference_evidence, reject_preference,
}
use reli.Service.Requests.{
  Request, create_thing_of, update_thing_of, relate_of, initial, serve, request, outcome, perform,
}
use reli.Service.Bounds.Exact.{WithinBounds, check_thing_fields_iff}
use reli.Spec.Step.{Steps}
use reli.Spec.Invariants.WellFormed.{WellFormed}
use reli.Spec.Invariants.Heartbeat.{BeatsIn, serve-BeatsIn}
use reli.Spec.Requests.{Extends, request-Steps, request-Extends, serve-initial-WellFormed}
use reli.Spec.Atomic.{request_raised}

-- UUIDs from 100 up, one microsecond to a call, and a calendar day of a thousand microseconds.
abbrev pub small_env : Env
small_env = record { uuids = λ n. n + 100; times = λ n. n; owner_date = λ t. t / 1000 }

abbrev garden : NewThing
garden = titled "Garden" []

abbrev heartbeat : NewThing
heartbeat = titled "Heartbeat" (scheduled_task_tag ∷ [])

-- The service open to evaluation: a test names this alone on its line.
unfoldable pub evaluated : Unit {0}
unfolding serve perform create_thing capture_date insert_thing journalled ◌>>=◌ check_thing_fields
    check_mapping check_text check_tags check_priority chosen_id uuid4 utcnow insert_thing_row
    insert_relationship_row commit rollback add_journal_row save_thing_row check_edge
    check_source_found check_evidence_source insert_relationship require_thing update_thing
    check_expected check_heartbeat_kept save_journalled relate on_refused_edge try for_each
    record_preference get_or_create_user_anchor add_preference_evidence reject_preference
    child_of_reaches
evaluated = tt

-- Two captures; they get the ids 102 and 106.
abbrev pub captures : List (Actor × Request)
captures = (user, create_thing_of garden) ∷ (claude_interactive, create_thing_of garden) ∷ []

abbrev pub captured : Session
captured = serve (initial small_env) captures

-- A capture is marked as new and falls due the next day.
captured_defaults :
    (t : ThingRecord) × (find_thing 102 captured.committed.things ≡ some t)
    × (t.tags ≡ "#New" ∷ [])
    × (t.checkin_date ≡ some 1)
unfolding evaluated
captured_defaults = (_, refl, refl, refl)

captured-WellFormed : WellFormed captured.committed
captured-WellFormed = serve-initial-WellFormed small_env captures

serve-initial-WellFormed_example : WellFormed captured.committed
serve-initial-WellFormed_example = serve-initial-WellFormed small_env captures

request-Steps_example :
    Steps user captured.committed
      (request captured user (relate_of 102 106 child_of none)).committed
request-Steps_example =
    request-Steps captured user (relate_of 102 106 child_of none) captured-WellFormed

request-Extends_example :
    Extends captured.committed.journal
      (request captured user (relate_of 102 106 child_of none)).committed.journal
request-Extends_example =
    request-Extends captured user (relate_of 102 106 child_of none) captured-WellFormed

abbrev family : Session
family = request captured user (relate_of 102 106 child_of none)

-- The parent is already an ancestor of the child.
closing_refused : outcome family user (relate_of 106 102 child_of none) ≡ err (closes_cycle 102 106)
unfolding evaluated
closing_refused = refl

request_raised_example :
    (request family user (relate_of 106 102 child_of none)).committed ≡ family.committed
request_raised_example =
    request_raised family user (relate_of 106 102 child_of none) (closes_cycle 102 106) refl
      closing_refused

abbrev beating : Session
beating = serve (initial small_env) ((claude_scheduled, create_thing_of heartbeat) ∷ [])

beating-BeatsIn : BeatsIn 101 beating.committed
unfolding evaluated
beating-BeatsIn = (_, refl, refl, refl)

abbrev archival : List (Actor × Request)
archival = (user, update_thing_of 101 (record no_update { active = some false })) ∷ []

serve-BeatsIn_example : BeatsIn 101 (serve beating archival).committed
serve-BeatsIn_example =
    serve-BeatsIn 101 beating archival
      (serve-initial-WellFormed small_env ((claude_scheduled, create_thing_of heartbeat) ∷ []))
      beating-BeatsIn

abbrev family_edges : List RelationshipRecord
family_edges = family.committed.relationships

child_of_reaches_iff_example :
    (child_of_reaches family_edges 102 106 ≡ true) ↔ Below family_edges 102 106
child_of_reaches_iff_example = child_of_reaches_iff family_edges 102 106

-- The owner retitles a capture, naming the version read.
abbrev retitled : ThingUpdate
retitled = record no_update { title = some "Allotment"; expected_updated_at = some (aware 1) }

check_thing_fields_iff_example :
    (check_thing_fields (given_fields garden) ≡ ok tt) ↔ WithinBounds (given_fields garden)
check_thing_fields_iff_example = check_thing_fields_iff (given_fields garden)
