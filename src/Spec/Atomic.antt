-- ===== src/Spec/Atomic.antt =====
-- A request that raises has committed nothing, so what it wrote is dropped with its session.
use reli.Prelude.{ℕ, String, ◌≡◌, refl, Bool, true, false, Option, none, some, []}
use reli.DbModels.{ThingRecord, RelationshipRecord, Actor, RelationshipType}
use reli.Database.Tables.{Graph}
use reli.Database.Session.{Session, Error, commit}
use reli.Result.{Result, ok, err}
use reli.Exec.{pure, ◌>>=◌, ◌>>◌}
use reli.Exec.Preserves.{
  Preserves-bind, Preserves-lift, Preserves-gets, Preserves-or_raise, Preserves-pure,
}
use reli.Exec.OnRaise.{
  OnRaise, OnRaise-Preserves, OnRaise-total, OnRaise-bind, OnRaise-if, OnRaise-try,
}
use reli.Service.Writes.{Action, NewThing}
use reli.Service.Things.{ThingUpdate, create_thing, update_thing, backfill_checkin_dates}
use reli.Service.Edges.{relate, unrelate, collapse_duplicate_evidence}
use reli.Service.Preferences.{
  create_anchor, existing_or_created, get_or_create_user_anchor, link_preference,
  add_preference_evidence, reject_preference,
}
use reli.Service.Requests.{
  Request, create_thing_of, update_thing_of, relate_of, unrelate_of, user_anchor_of,
  record_preference_of, add_evidence_of, reject_preference_of, backfill_of, collapse_of, perform,
  opened, outcome, request,
}
use reli.Spec.Quiet.{
  Quiet, utcnow-Quiet, require_thing-Quiet, insert_thing-Quiet, insert_relationship-Quiet,
  delete_relationship-Quiet, save_journalled-Quiet, capture_date-Quiet, backfill_each-Quiet,
  collapse_each-Quiet, require_preference-Quiet, on_refused_edge-Quiet, on_refused_anchor-Quiet,
  on_duplicate_evidence-Quiet,
}

module _ (g : Graph) where
  -- The commit, and a `return` after it, do not raise.
  commit_last : {A : Type 0} (a : A) → OnRaise (Quiet g) (commit >> pure a)
  unfolding commit ◌>>=◌
  commit_last a = OnRaise-total _ _ λ s. (a, refl)

  commit_only : OnRaise (Quiet g) commit
  unfolding commit
  commit_only = OnRaise-total _ _ λ s. (tt, refl)

  pure_last : {A : Type 0} (a : A) → OnRaise {S = Session} {E = Error} (Quiet g) (pure a)
  unfolding pure
  pure_last a = OnRaise-total _ _ λ s. (a, refl)

  -- An action that is followed by a `return` alone.
  then_value :
      {A B : Type 0} (m : Action A) (b : B) → OnRaise (Quiet g) m → OnRaise (Quiet g) (m >> pure b)
  unfolding ◌>>=◌
  then_value {A} {B} m b h = record {
    left = λ s i e. let (r, t) = m s in dropped r t (h.left s i) e;
  }
    where
      dropped :
          (r : Result Error A) (t : Session)
          → ((e : Error) → r ≡ err e → Quiet g t)
          → (e : Error) → (((λ _. (r, t)) >> pure b) t).0 ≡ err e
          → Quiet g (((λ _. (r, t)) >> pure b) t).1
      dropped (ok a) t i e r = cc
      dropped (err x) t i e r = i x refl

  create_thing-OnRaise :
      (actor : Actor) (new : NewThing) → OnRaise (Quiet g) (create_thing actor new)
  unfolding create_thing
  create_thing-OnRaise actor new = OnRaise-bind _ _ _ (Preserves-lift _ _) λ _.
      OnRaise-bind _ _ _ (capture_date-Quiet g _ _)
        λ date. OnRaise-bind _ _ _ (insert_thing-Quiet g actor _ _) commit_last

  update_thing-OnRaise :
      (actor : Actor) (id : ℕ) (u : ThingUpdate) → OnRaise (Quiet g) (update_thing actor id u)
  unfolding update_thing
  update_thing-OnRaise actor id u = OnRaise-bind _ _ _ (Preserves-lift _ _) λ _.
      OnRaise-bind _ _ _ (require_thing-Quiet g id) λ row.
        OnRaise-bind _ _ _ (Preserves-lift _ _) λ _. OnRaise-bind _ _ _ (Preserves-lift _ _) λ _.
          OnRaise-bind _ _ _ (utcnow-Quiet g)
            λ now. OnRaise-bind _ _ _ (save_journalled-Quiet g actor row _) λ _. commit_last _

  relate-OnRaise :
      (actor : Actor) (source target : ℕ) (type : RelationshipType) (context : Option String)
      → OnRaise (Quiet g) (relate actor source target type context)
  unfolding relate
  relate-OnRaise actor source target type context =
      OnRaise-try _ _ _
        (OnRaise-bind _ _ _ (insert_relationship-Quiet g actor source target type context)
          commit_last)
        λ e. OnRaise-Preserves _ _ (on_refused_edge-Quiet g source target type e)

  unrelate-OnRaise : (actor : Actor) (id : ℕ) → OnRaise (Quiet g) (unrelate actor id)
  unfolding unrelate
  unrelate-OnRaise actor id = OnRaise-bind _ _ _ (Preserves-gets _ _) λ found.
      OnRaise-bind _ _ _ (Preserves-or_raise _ found _)
        λ r. OnRaise-bind _ _ _ (delete_relationship-Quiet g actor r) λ _. commit_only

  existing_or_created-OnRaise :
      (actor : Actor) (found : Option ThingRecord)
      → OnRaise (Quiet g) (existing_or_created actor found)
  unfolding existing_or_created create_anchor
  existing_or_created-OnRaise actor (some anchor) = pure_last anchor
  existing_or_created-OnRaise actor none =
      OnRaise-try _ _ _ (OnRaise-bind _ _ _ (insert_thing-Quiet g actor _ _) commit_last)
        λ e. OnRaise-Preserves _ _ (on_refused_anchor-Quiet g e)

  get_or_create_user_anchor-OnRaise :
      (actor : Actor) → OnRaise (Quiet g) (get_or_create_user_anchor actor)
  unfolding get_or_create_user_anchor
  get_or_create_user_anchor-OnRaise actor =
      OnRaise-bind _ _ _ (Preserves-gets _ _) (existing_or_created-OnRaise actor)

  link_preference-OnRaise :
      (actor : Actor) (preference : ThingRecord) (id evidence_id : ℕ)
      → OnRaise (Quiet g) (link_preference actor preference id evidence_id)
  unfolding link_preference
  link_preference-OnRaise actor preference id evidence_id =
      OnRaise-try _ _ _ (then_value _ preference (relate-OnRaise actor _ _ _ _))
        λ e. OnRaise-Preserves _ _ (on_duplicate_evidence-Quiet g id e)

  linked-OnRaise :
      (actor : Actor) (preference : ThingRecord) (id evidence_id : ℕ)
      (linked : Option RelationshipRecord)
      → OnRaise {A = ThingRecord} (Quiet g) (elim linked [
        | some existing ↦ pure preference
        | none ↦ link_preference actor preference id evidence_id
      ])
  linked-OnRaise actor preference id evidence_id (some r) = pure_last preference
  linked-OnRaise actor preference id evidence_id none =
      link_preference-OnRaise actor preference id evidence_id

  add_preference_evidence-OnRaise :
      (actor : Actor) (id evidence_id : ℕ)
      → OnRaise (Quiet g) (add_preference_evidence actor id evidence_id)
  unfolding add_preference_evidence
  add_preference_evidence-OnRaise actor id evidence_id =
      OnRaise-bind _ _ _ (require_preference-Quiet g id) λ preference.
        OnRaise-bind _ _ _ (require_thing-Quiet g evidence_id) λ _.
          OnRaise-bind _ _ _ (Preserves-gets _ _) (linked-OnRaise actor preference id evidence_id)

  reject_preference-OnRaise :
      (actor : Actor) (id : ℕ) → OnRaise (Quiet g) (reject_preference actor id)
  unfolding reject_preference
  reject_preference-OnRaise actor id =
      OnRaise-bind _ _ _ (require_preference-Quiet g id)
        λ preference. OnRaise-if _ _ _ _ (pure_last preference) (update_thing-OnRaise actor _ _)

  backfill-OnRaise : (now : ℕ) → OnRaise (Quiet g) (backfill_checkin_dates now >> commit)
  unfolding backfill_checkin_dates
  backfill-OnRaise now =
      OnRaise-bind _ _ _
        (Preserves-bind _ _ _ (Preserves-gets _ _) λ ts.
          Preserves-bind _ _ _ (Preserves-gets _ _) λ first.
            Preserves-bind _ _ _ (backfill_each-Quiet g first now 0 ts) λ _. Preserves-pure _ _)
        λ _. commit_only

  collapse-OnRaise : OnRaise (Quiet g) (collapse_duplicate_evidence >> commit)
  unfolding collapse_duplicate_evidence
  collapse-OnRaise =
      OnRaise-bind _ _ _
        (Preserves-bind _ _ _ (Preserves-gets _ _) λ rs. collapse_each-Quiet g [] 0 rs)
        λ _. commit_only

-- The requests that commit at their end only.
abbrev pub commits_once : Request → Bool
commits_once (record_preference_of title scope ids) = false
commits_once _ = true

perform-OnRaise :
    (g : Graph) (actor : Actor) (r : Request)
    → commits_once r ≡ true
    → OnRaise (Quiet g) (perform actor r)
unfolding perform
perform-OnRaise g actor (create_thing_of new) h =
    then_value g _ tt (create_thing-OnRaise g actor new)
perform-OnRaise g actor (update_thing_of id u) h =
    then_value g _ tt (update_thing-OnRaise g actor id u)
perform-OnRaise g actor (relate_of source target type context) h =
    then_value g _ tt (relate-OnRaise g actor source target type context)
perform-OnRaise g actor (unrelate_of id) h = unrelate-OnRaise g actor id
perform-OnRaise g actor user_anchor_of h =
    then_value g _ tt (get_or_create_user_anchor-OnRaise g actor)
perform-OnRaise g actor (record_preference_of title scope ids) h = cc
perform-OnRaise g actor (add_evidence_of id evidence_id) h =
    then_value g _ tt (add_preference_evidence-OnRaise g actor id evidence_id)
perform-OnRaise g actor (reject_preference_of id) h =
    then_value g _ tt (reject_preference-OnRaise g actor id)
perform-OnRaise g actor (backfill_of now) h = backfill-OnRaise g now
perform-OnRaise g actor collapse_of h = collapse-OnRaise g

-- A request other than `record_preference` that raises leaves the committed graph, rows and journal,
-- exactly as it found it.
pub request_raised :
    (s : Session) (actor : Actor) (r : Request) (e : Error)
    → commits_once r ≡ true
    → outcome s actor r ≡ err e
    → (request s actor r).committed ≡ s.committed
request_raised s actor r e once raised =
    (perform-OnRaise s.committed actor r once).left (opened s) refl e raised
