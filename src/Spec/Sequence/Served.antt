-- ===== src/Spec/Sequence/Served.antt =====
-- Every function of backend/service.py keeps the journal's ids in the order of their entries.
use reli.Prelude.{ℕ, suc, String, Option, none, some, List, [], ◌∷◌}
use reli.DbModels.{ThingRecord, RelationshipRecord, Actor, claude_scheduled, RelationshipType}
use reli.Database.Session.{Env, Session, Error, integrity, duplicate_relationship}
use reli.Exec.{pure}
use reli.Exec.Preserves.{Preserves, Preserves-pure, Preserves-gets, Preserves-bind, Preserves-if}
use reli.Service.Writes.{NewThing}
use reli.Service.Things.{
  capture_date, create_thing, ThingUpdate, update_thing, backfill_each, backfill_checkin_dates,
}
use reli.Service.Edges.{
  is_kept, name_duplicate, on_refused_edge, relate, unrelate, collapse_each,
  collapse_duplicate_evidence,
}
use reli.Service.Preferences.{
  on_refused_anchor, create_anchor, existing_or_created, get_or_create_user_anchor,
  require_evidence, link_evidence, write_preference, record_preference, require_preference,
  on_duplicate_evidence, link_preference, add_preference_evidence, reject_preference,
}
use reli.Service.Requests.{
  Request, create_thing_of, update_thing_of, relate_of, unrelate_of, user_anchor_of,
  record_preference_of, add_evidence_of, reject_preference_of, backfill_of, collapse_of, perform,
  request, serve, initial, opened,
}
use reli.Spec.Sequence.{
  IsSequenced, Sequenced, primitives, insert_thing-Sequenced, require_thing-Sequenced,
  insert_relationship-Sequenced, delete_relationship-Sequenced, save_journalled-Sequenced,
}

ruleset writes = (
  primitives, insert_thing-Sequenced, require_thing-Sequenced, insert_relationship-Sequenced,
  delete_relationship-Sequenced, save_journalled-Sequenced,
)

capture_date-Sequenced :
    (tags : List String) (date : Option ℕ) → Preserves Sequenced (capture_date tags date)
unfolding capture_date
capture_date-Sequenced tags none = search writes
capture_date-Sequenced tags (some date) = search writes

create_thing-Sequenced :
    (actor : Actor) (new : NewThing) → Preserves Sequenced (create_thing actor new)
unfolding create_thing
create_thing-Sequenced actor new = search (writes, capture_date-Sequenced) depth 12

update_thing-Sequenced :
    (actor : Actor) (id : ℕ) (u : ThingUpdate) → Preserves Sequenced (update_thing actor id u)
unfolding update_thing
update_thing-Sequenced actor id u = search writes depth 15

backfill_each-Sequenced :
    (first_date now position : ℕ) (rows : List ThingRecord)
    → Preserves Sequenced (backfill_each first_date now position rows)
unfolding backfill_each
backfill_each-Sequenced first_date now position [] = search writes
backfill_each-Sequenced first_date now position (row ∷ rows) =
    Preserves-bind _ _ _ (save_journalled-Sequenced _ _ _)
      λ _. backfill_each-Sequenced first_date now (suc position) rows

backfill_checkin_dates-Sequenced : (now : ℕ) → Preserves Sequenced (backfill_checkin_dates now)
unfolding backfill_checkin_dates
backfill_checkin_dates-Sequenced now = search (writes, backfill_each-Sequenced) depth 12

name_duplicate-Sequenced :
    (e : Error) (r : Option RelationshipRecord) → Preserves Sequenced (name_duplicate e r)
unfolding name_duplicate
name_duplicate-Sequenced e none = search writes
name_duplicate-Sequenced e (some r) = search writes

on_refused_edge-Sequenced :
    (source target : ℕ) (type : RelationshipType) (e : Error)
    → Preserves Sequenced (on_refused_edge source target type e)
unfolding on_refused_edge
on_refused_edge-Sequenced source target type (integrity kind) =
    search (writes, name_duplicate-Sequenced)
on_refused_edge-Sequenced source target type e = search writes

relate-Sequenced :
    (actor : Actor) (source target : ℕ) (type : RelationshipType) (context : Option String)
    → Preserves Sequenced (relate actor source target type context)
unfolding relate
relate-Sequenced actor source target type context =
    search (writes, on_refused_edge-Sequenced) depth 12

unrelate-Sequenced : (actor : Actor) (id : ℕ) → Preserves Sequenced (unrelate actor id)
unfolding unrelate
unrelate-Sequenced actor id = search writes depth 12

collapse_each-Sequenced :
    (kept : List (ℕ × ℕ)) (removed : ℕ) (rs : List RelationshipRecord)
    → Preserves Sequenced (collapse_each kept removed rs)
unfolding collapse_each
collapse_each-Sequenced kept removed [] = search writes
collapse_each-Sequenced kept removed (r ∷ rs) =
    Preserves-if Sequenced (is_kept r kept) _
      (collapse_each ((r.source_thing_id, r.target_thing_id) ∷ kept) removed rs)
      (λ _.
        Preserves-bind _ _ _ (delete_relationship-Sequenced claude_scheduled r)
          λ _. collapse_each-Sequenced kept (suc removed) rs)
      (λ _. collapse_each-Sequenced ((r.source_thing_id, r.target_thing_id) ∷ kept) removed rs)

collapse_duplicate_evidence-Sequenced : Preserves Sequenced collapse_duplicate_evidence
unfolding collapse_duplicate_evidence
collapse_duplicate_evidence-Sequenced = search (writes, collapse_each-Sequenced)

on_refused_anchor-Sequenced : (e : Error) → Preserves Sequenced (on_refused_anchor e)
unfolding on_refused_anchor
on_refused_anchor-Sequenced (integrity kind) = search writes
on_refused_anchor-Sequenced e = search writes

create_anchor-Sequenced : (actor : Actor) → Preserves Sequenced (create_anchor actor)
unfolding create_anchor
create_anchor-Sequenced actor = search (writes, on_refused_anchor-Sequenced) depth 12

existing_or_created-Sequenced :
    (actor : Actor) (anchor : Option ThingRecord)
    → Preserves Sequenced (existing_or_created actor anchor)
unfolding existing_or_created
existing_or_created-Sequenced actor none = create_anchor-Sequenced actor
existing_or_created-Sequenced actor (some anchor) = search writes

get_or_create_user_anchor-Sequenced :
    (actor : Actor) → Preserves Sequenced (get_or_create_user_anchor actor)
unfolding get_or_create_user_anchor
get_or_create_user_anchor-Sequenced actor = search (writes, existing_or_created-Sequenced)

require_evidence-Sequenced : (id : ℕ) → Preserves Sequenced (require_evidence id)
unfolding require_evidence
require_evidence-Sequenced id = search writes

link_evidence-Sequenced :
    (actor : Actor) (id evidence_id : ℕ) → Preserves Sequenced (link_evidence actor id evidence_id)
unfolding link_evidence
link_evidence-Sequenced actor id evidence_id = search writes

record_preference-Sequenced :
    (actor : Actor) (title scope : String) (ids : List ℕ)
    → Preserves Sequenced (record_preference actor title scope ids)
unfolding record_preference write_preference
record_preference-Sequenced actor title scope ids =
    search
      (
        writes, require_evidence-Sequenced, link_evidence-Sequenced,
        get_or_create_user_anchor-Sequenced,
      )
      depth 20

require_preference-Sequenced : (id : ℕ) → Preserves Sequenced (require_preference id)
unfolding require_preference
require_preference-Sequenced id = search writes

on_duplicate_evidence-Sequenced :
    (id : ℕ) (e : Error) → Preserves Sequenced (on_duplicate_evidence id e)
unfolding on_duplicate_evidence
on_duplicate_evidence-Sequenced id (duplicate_relationship r) = require_preference-Sequenced id
on_duplicate_evidence-Sequenced id e = search writes

link_preference-Sequenced :
    (actor : Actor) (preference : ThingRecord) (id evidence_id : ℕ)
    → Preserves Sequenced (link_preference actor preference id evidence_id)
unfolding link_preference
link_preference-Sequenced actor preference id evidence_id =
    search (writes, relate-Sequenced, on_duplicate_evidence-Sequenced) depth 12

existing_or_linked-Sequenced :
    (actor : Actor) (preference : ThingRecord) (id evidence_id : ℕ)
    (linked : Option RelationshipRecord)
    → Preserves Sequenced (elim linked [
      | some existing ↦ pure preference
      | none ↦ link_preference actor preference id evidence_id
    ])
existing_or_linked-Sequenced actor preference id evidence_id none =
    link_preference-Sequenced actor preference id evidence_id
existing_or_linked-Sequenced actor preference id evidence_id (some r) =
    Preserves-pure Sequenced preference

add_preference_evidence-Sequenced :
    (actor : Actor) (id evidence_id : ℕ)
    → Preserves Sequenced (add_preference_evidence actor id evidence_id)
unfolding add_preference_evidence
add_preference_evidence-Sequenced actor id evidence_id =
    Preserves-bind _ _ _ (require_preference-Sequenced id) λ preference.
      Preserves-bind _ _ _ (require_thing-Sequenced evidence_id) λ _.
        Preserves-bind _ _ _ (Preserves-gets _ _)
          (existing_or_linked-Sequenced actor preference id evidence_id)

reject_preference-Sequenced :
    (actor : Actor) (id : ℕ) → Preserves Sequenced (reject_preference actor id)
unfolding reject_preference
reject_preference-Sequenced actor id =
    search (writes, require_preference-Sequenced, update_thing-Sequenced) depth 12

perform-Sequenced : (actor : Actor) (r : Request) → Preserves Sequenced (perform actor r)
unfolding perform
perform-Sequenced actor (create_thing_of new) = search (writes, create_thing-Sequenced)
perform-Sequenced actor (update_thing_of id u) = search (writes, update_thing-Sequenced)
perform-Sequenced actor (relate_of source target type context) = search (writes, relate-Sequenced)
perform-Sequenced actor (unrelate_of id) = unrelate-Sequenced actor id
perform-Sequenced actor user_anchor_of = search (writes, get_or_create_user_anchor-Sequenced)
perform-Sequenced actor (record_preference_of title scope ids) =
    search (writes, record_preference-Sequenced)
perform-Sequenced actor (add_evidence_of id evidence_id) =
    search (writes, add_preference_evidence-Sequenced)
perform-Sequenced actor (reject_preference_of id) = search (writes, reject_preference-Sequenced)
perform-Sequenced actor (backfill_of now) = search (writes, backfill_checkin_dates-Sequenced)
perform-Sequenced actor collapse_of = search (writes, collapse_duplicate_evidence-Sequenced)

serve-Sequenced : (s : Session) (rs : List (Actor × Request)) → Sequenced s → Sequenced (serve s rs)
unfolding serve
serve-Sequenced s [] h = h
serve-Sequenced s ((actor, r) ∷ rs) h =
    let k = (perform-Sequenced actor r).keeps (opened s) (h.0, h.0) in
    serve-Sequenced (request s actor r) rs (k.0, k.0)

-- After any requests on an empty database, with any outcomes, the ids grow along the committed journal:
-- each entry has a greater id than all entries before it.
pub serve-initial-IsSequenced :
    (env : Env) (rs : List (Actor × Request))
    → IsSequenced (serve (initial env) rs).committed.journal
serve-initial-IsSequenced env rs = (serve-Sequenced (initial env) rs ((tt, tt), (tt, tt))).0.0
