-- ===== src/Service/Requests.antt =====
-- The public functions of backend/service.py as requests, each in a session of its own
-- (`open_session` of backend/db_engine.py), and any sequence of them on one database.
use reli.Prelude.{ℕ, String, Option, List, [], ◌∷◌}
use reli.DbModels.{Actor, claude_scheduled, RelationshipType}
use reli.Database.Tables.{empty_graph}
use reli.Database.Session.{Env, Session, Error, commit}
use reli.Exec.{pure, ◌>>◌}
use reli.Result.{Result}
use reli.Service.Writes.{Action, NewThing}
use reli.Service.Things.{create_thing, ThingUpdate, update_thing, backfill_checkin_dates}
use reli.Service.Edges.{relate, unrelate, collapse_duplicate_evidence}
use reli.Service.Preferences.{
  get_or_create_user_anchor, record_preference, add_preference_evidence, reject_preference,
}

pub data Request : Type 0 where
  create_thing_of : NewThing → Request
  update_thing_of : ℕ → ThingUpdate → Request
  relate_of : ℕ → ℕ → RelationshipType → Option String → Request
  unrelate_of : ℕ → Request
  user_anchor_of : Request
  record_preference_of : String → String → List ℕ → Request
  add_evidence_of : ℕ → ℕ → Request
  reject_preference_of : ℕ → Request
  backfill_of : ℕ → Request
  collapse_of : Request

-- The call, its value dropped. The two one-off passes run in a migration, which commits them.
unfoldable pub perform : Actor → Request → Action Unit
perform actor (create_thing_of new) = create_thing actor new >> pure tt
perform actor (update_thing_of id u) = update_thing actor id u >> pure tt
perform actor (relate_of source target type context) =
    relate actor source target type context >> pure tt
perform actor (unrelate_of id) = unrelate actor id
perform actor user_anchor_of = get_or_create_user_anchor actor >> pure tt
perform actor (record_preference_of title scope ids) =
    record_preference actor title scope ids >> pure tt
perform actor (add_evidence_of id evidence_id) =
    add_preference_evidence actor id evidence_id >> pure tt
perform actor (reject_preference_of id) = reject_preference actor id >> pure tt
perform actor (backfill_of now) = backfill_checkin_dates now >> commit
perform actor collapse_of = collapse_duplicate_evidence >> commit

-- The actor that the journal names: the migrations' passes write as CLAUDE_SCHEDULED.
abbrev pub journalled_actor : Actor → Request → Actor
journalled_actor actor (backfill_of now) = claude_scheduled
journalled_actor actor collapse_of = claude_scheduled
journalled_actor actor _ = actor

-- A new session begins from what is committed.
abbrev pub opened : Session → Session
opened s = record s { pending = s.committed }

abbrev pub outcome : Session → Actor → Request → Result Error Unit
outcome s actor r = (perform actor r (opened s)).0

-- Closing the session drops what it has not committed.
abbrev pub request : Session → Actor → Request → Session
request s actor r = opened (perform actor r (opened s)).1

unfoldable pub serve : Session → List (Actor × Request) → Session
serve s [] = s
serve s ((actor, r) ∷ rs) = serve (request s actor r) rs

-- The empty database, in some environment.
abbrev pub initial : Env → Session
initial env = record {
  env = env;
  committed = empty_graph;
  pending = empty_graph;
  calls = 0;
  sequence = 1;
}
