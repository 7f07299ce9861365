-- ===== src/Spec/Sequence.antt =====
-- The ids of the journal come from its sequence: along the journal they grow.
pub mod Served
use reli.Prelude.{
  ℕ, suc, String, ◌≡◌, refl, Bool, true, false, Option, none, some, List, [], ◌∷◌, ◌++◌, arith, All,
  All-append, All-mono, ltb, IsOrdered, if◌then◌else◌, ◌&&◌,
}
use reli.DbModels.{
  ThingRecord, RelationshipRecord, JournalRecord, Snapshot, Actor, claude_scheduled, Operation,
  EntityType, RelationshipType,
}
use reli.Database.Session.{
  Env, Session, Error, integrity, duplicate_relationship, utcnow, uuid4, insert_thing_row,
  save_thing_row, insert_relationship_row, delete_relationship_row, add_journal_row,
  breaks_evidence_index, commit, rollback,
}
use reli.Database.Tables.{has_thing, has_relationship}
use reli.Result.{Result}
use reli.Exec.{pure, ◌>>=◌}
use reli.Exec.Preserves.{
  Preserves, Preserves-pure, Preserves-raise, Preserves-or_raise, Preserves-lift, Preserves-gets,
  Preserves-bind, Preserves-if, preserves_rules,
}
use reli.Service.Writes.{
  Action, journalled, require_thing, NewThing, chosen_id, insert_thing, check_tree, check_evidence,
  check_edge, insert_relationship, delete_relationship,
}
use reli.Service.Things.{
  capture_date, create_thing, ThingUpdate, save_journalled, update_thing, backfill_each,
  backfill_checkin_dates,
}
use reli.Service.Edges.{
  is_kept, name_duplicate, on_refused_edge, relate, unrelate, collapse_each,
  collapse_duplicate_evidence,
}
use reli.Service.Preferences.{
  on_refused_anchor, create_anchor, existing_or_created, get_or_create_user_anchor,
  require_evidence, link_evidence, write_preference, record_preference, require_preference,
  on_duplicate_evidence, link_preference, add_preference_evidence, reject_preference,
}
use reli.Service.Requests.{
  Request, create_thing_of, update_thing_of, relate_of, unrelate_of, user_anchor_of,
  record_preference_of, add_evidence_of, reject_preference_of, backfill_of, collapse_of, perform,
  request, serve, initial, opened,
}

-- The ids grow along the journal.
abbrev pub id_below : JournalRecord → JournalRecord → Bool
id_below a b = ltb a.id b.id

abbrev pub IsSequenced : List JournalRecord → Type 0
IsSequenced = IsOrdered id_below

-- The journal's ids, all of them drawn before.
abbrev Drawn : ℕ → List JournalRecord → Type 0
Drawn sequence es = IsSequenced es × All (λ e. ltb e.id sequence ≡ true) es

Drawn-append :
    (n : ℕ) (es : List JournalRecord) (e : JournalRecord)
    → e.id ≡ n
    → Drawn n es
    → Drawn (suc n) (es ++ e ∷ [])
Drawn-append n [] e same d = ((tt, tt), (ground (arith, same), tt))
Drawn-append n (f ∷ es) e same d =
    let rest = Drawn-append n es e same (d.0.1, d.1.1) in
    (
      (All-append _ es (e ∷ []) d.0.0 (ground (arith, same, d.1.0), tt), rest.0),
      (ground (arith, d.1.0), rest.1),
    )

abbrev pub Sequenced : Session → Type 0
Sequenced s = Drawn s.sequence s.committed.journal × Drawn s.sequence s.pending.journal

Drawn-suc : (n : ℕ) (es : List JournalRecord) → Drawn n es → Drawn (suc n) es
Drawn-suc n es d = (d.0, All-mono _ _ (λ e h. ground (arith, h)) es d.1)

pub utcnow-Sequenced : Preserves Sequenced utcnow
unfolding utcnow
utcnow-Sequenced = record { keeps = λ s h. h }

pub uuid4-Sequenced : Preserves Sequenced uuid4
unfolding uuid4
uuid4-Sequenced = record { keeps = λ s h. h }

pub commit-Sequenced : Preserves Sequenced commit
unfolding commit
commit-Sequenced = record { keeps = λ s h. (h.1, h.1) }

pub rollback-Sequenced : Preserves Sequenced rollback
unfolding rollback
rollback-Sequenced = record { keeps = λ s h. (h.0, h.0) }

pub save_thing_row-Sequenced : (t : ThingRecord) → Preserves Sequenced (save_thing_row t)
unfolding save_thing_row
save_thing_row-Sequenced t = record { keeps = λ s h. h }

pub delete_relationship_row-Sequenced : (id : ℕ) → Preserves Sequenced (delete_relationship_row id)
unfolding delete_relationship_row
delete_relationship_row-Sequenced id = record { keeps = λ s h. h }

if-Sequenced :
    (b : Bool) (x y : Result Error Unit × Session)
    → Sequenced x.1
    → Sequenced y.1
    → Sequenced (if b then x else y).1
if-Sequenced true x y h k = h
if-Sequenced false x y h k = k

pub insert_thing_row-Sequenced : (t : ThingRecord) → Preserves Sequenced (insert_thing_row t)
unfolding insert_thing_row
insert_thing_row-Sequenced t = record {
  keeps = λ s h. if-Sequenced (has_thing t.id s.pending.things) _ _ h h;
}

pub insert_relationship_row-Sequenced :
    (r : RelationshipRecord) → Preserves Sequenced (insert_relationship_row r)
unfolding insert_relationship_row
insert_relationship_row-Sequenced r = record {
  keeps = λ s h. if-Sequenced (has_relationship r.id s.pending.relationships) _ _ h (
      if-Sequenced (breaks_evidence_index r s.pending.relationships) _ _ h (
        if-Sequenced
          (has_thing r.source_thing_id s.pending.things
            && has_thing r.target_thing_id s.pending.things)
          _ _ h h));
}

-- The journal entry takes the next id of the sequence.
add_journal_row-Sequenced :
    (entry : ℕ → JournalRecord)
    → ((n : ℕ) → (entry n).id ≡ n)
    → Preserves Sequenced (add_journal_row entry)
unfolding add_journal_row
add_journal_row-Sequenced entry same = record {
  keeps = λ s h. (
    Drawn-suc s.sequence s.committed.journal h.0,
    Drawn-append s.sequence s.pending.journal (entry s.sequence) (same s.sequence) h.1,
  );
}

pub journalled-Sequenced :
    (actor : Actor) (operation : Operation) (type : EntityType) (id : ℕ)
    (before after : Option Snapshot)
    → Preserves Sequenced (journalled actor operation type id before after)
unfolding journalled
journalled-Sequenced actor operation type id before after =
    Preserves-bind _ _ _ utcnow-Sequenced λ now. add_journal_row-Sequenced _ λ n. refl

pub chosen_id-Sequenced : (id : Option ℕ) → Preserves Sequenced (chosen_id id)
unfolding chosen_id
chosen_id-Sequenced none = uuid4-Sequenced
chosen_id-Sequenced (some id) = Preserves-pure Sequenced id

pub ruleset primitives = (
  preserves_rules, utcnow-Sequenced, uuid4-Sequenced, commit-Sequenced, rollback-Sequenced,
  Preserves-or_raise, save_thing_row-Sequenced, delete_relationship_row-Sequenced,
  insert_thing_row-Sequenced, insert_relationship_row-Sequenced, journalled-Sequenced,
  chosen_id-Sequenced,
)

pub insert_thing-Sequenced :
    (actor : Actor) (new : NewThing) (id : Option ℕ)
    → Preserves Sequenced (insert_thing actor new id)
unfolding insert_thing
insert_thing-Sequenced actor new id = search primitives depth 12

pub require_thing-Sequenced : (id : ℕ) → Preserves Sequenced (require_thing id)
unfolding require_thing
require_thing-Sequenced id = search primitives

check_edge-Sequenced :
    (source target : ℕ) (type : RelationshipType)
    → Preserves Sequenced (check_edge source target type)
unfolding check_edge check_tree check_evidence
check_edge-Sequenced source target type = search primitives depth 12

pub insert_relationship-Sequenced :
    (actor : Actor) (source target : ℕ) (type : RelationshipType) (context : Option String)
    → Preserves Sequenced (insert_relationship actor source target type context)
unfolding insert_relationship
insert_relationship-Sequenced actor source target type context =
    search (primitives, check_edge-Sequenced) depth 14

pub delete_relationship-Sequenced :
    (actor : Actor) (r : RelationshipRecord) → Preserves Sequenced (delete_relationship actor r)
unfolding delete_relationship
delete_relationship-Sequenced actor r = search primitives

pub save_journalled-Sequenced :
    (actor : Actor) (before after : ThingRecord)
    → Preserves Sequenced (save_journalled actor before after)
unfolding save_journalled
save_journalled-Sequenced actor before after = search primitives
