-- ===== src/Spec/Refines/Operations.antt =====
-- The refinement for the public functions of backend/service.py.
use reli.Prelude.{
  ℕ, String, ◌≡◌, refl, sym, Option, none, some, List, [], ◌∷◌, arith, ℕ_equals, Option-cases, inl,
  inr, String_equals, subst,
}
use reli.DbModels.{ThingRecord, RelationshipRecord, Actor, RelationshipType}
use reli.Database.Tables.{Graph, find_thing, find_relationship}
use reli.Database.Session.{Session, Error, utcnow, rollback, integrity, duplicate_relationship}
use reli.Result.{ok}
use reli.Exec.{pure, lift, gets, ◌>>=◌}
use reli.Exec.Preserves.{
  Preserves, Preserves-bind, Preserves-lift, Preserves-gets, Preserves-or_raise, Preserves-raise,
  Preserves-pure, preserves_rules,
}
use reli.Exec.Leads.{Leads, Leads-bind, Leads-lift, Leads-then}
use reli.Service.Writes.{Action, require_thing, NewThing, delete_relationship}
use reli.Service.Things.{
  capture_date, create_thing, ThingUpdate, updated_row, check_heartbeat_kept, update_thing,
  save_journalled,
}
use reli.Service.Edges.{name_duplicate, on_refused_edge, relate, unrelate}
use reli.Service.Preferences.{
  on_refused_anchor, create_anchor, existing_or_created, get_or_create_user_anchor,
  require_evidence, link_evidence, write_preference, record_preference, require_preference,
  on_duplicate_evidence, link_preference, add_preference_evidence, reject_preference,
}
use reli.Spec.Step.{Updates}
use reli.Spec.Refines.{Traces}
use reli.Spec.Refines.Primitives.{
  utcnow-Traces, commit-Traces, rollback-Traces, insert_thing-Traces, save_journalled-Traces,
  delete_relationship-Traces, insert_relationship-Traces,
}

find_thing-id :
    (id : ℕ) (ts : List ThingRecord) (t : ThingRecord) → find_thing id ts ≡ some t → t.id ≡ id
find_thing-id id [] t h = cc
find_thing-id id (x ∷ ts) t h = ground (arith, find_thing-id id ts t)

find_relationship-id :
    (id : ℕ) (rs : List RelationshipRecord) (r : RelationshipRecord)
    → find_relationship id rs ≡ some r
    → r.id ≡ id
find_relationship-id id [] r h = cc
find_relationship-id id (x ∷ rs) r h = ground (arith, find_relationship-id id rs r)

check_heartbeat_kept-Updates :
    (u : ThingUpdate) (now : ℕ) (row : ThingRecord)
    → check_heartbeat_kept row u.tags u.active ≡ ok tt
    → Updates row (updated_row u now row)
unfolding check_heartbeat_kept
check_heartbeat_kept-Updates u now row h = record {
  same_id = refl;
  same_creation = refl;
  keeps_heartbeat = ground arith;
  keeps_active = ground arith;
}

module _ (actor : Actor) (base : Graph) where
  -- In an open transaction, `row` stands in the table.
  abbrev Found : ThingRecord → Session → Type 0
  Found row s = Traces actor base s × (find_thing row.id s.pending.things ≡ some row)

  after_require_thing :
      {B : Type 0} (id : ℕ) (f : ThingRecord → Action B)
      → ((row : ThingRecord) → Leads (Found row) (Traces actor base) (f row))
      → Preserves (Traces actor base) (require_thing id >>= f)
  unfolding require_thing ◌>>=◌
  after_require_thing id f hf = record {
    keeps = λ s h. elim (Option-cases (find_thing id s.pending.things)) [
      | inl gone ↦ rw gone h
      | inr (row, there) ↦ rw there (
          (hf row).leads s (
            h,
            subst (λ i. find_thing i s.pending.things ≡ some row)
                (sym (find_thing-id id s.pending.things row there)) there,
          ))
    ];
  }

  pub require_thing-Traces : (id : ℕ) → Preserves (Traces actor base) (require_thing id)
  unfolding require_thing
  require_thing-Traces id =
      Preserves-bind _ (gets _) _ (Preserves-gets _ _) λ found. Preserves-or_raise _ found _

  utcnow-Found : (row : ThingRecord) → Preserves (Found row) utcnow
  unfolding utcnow
  utcnow-Found row = record { keeps = λ s h. h }

  capture_date-Traces :
      (tags : List String) (date : Option ℕ)
      → Preserves (Traces actor base) (capture_date tags date)
  unfolding capture_date
  capture_date-Traces tags none = search (preserves_rules, utcnow-Traces)
  capture_date-Traces tags (some date) = search preserves_rules

  pub create_thing-Traces :
      (new : NewThing) → Preserves (Traces actor base) (create_thing actor new)
  unfolding create_thing
  create_thing-Traces new =
      search (preserves_rules, capture_date-Traces, insert_thing-Traces, commit-Traces)

  pub update_thing-Traces :
      (id : ℕ) (u : ThingUpdate) → Preserves (Traces actor base) (update_thing actor id u)
  unfolding update_thing
  update_thing-Traces id u = Preserves-bind _ (lift _) _ (Preserves-lift _ _) λ _.
      after_require_thing id _ λ row.
        Leads-lift _ _ (λ s h. h.0) _ _
          λ _ _.
            Leads-lift _ _ (λ s h. h.0) _ _
              λ _ kept.
                Leads-bind _ _ (λ s h. h.0) utcnow _ (utcnow-Found row)
                  λ now.
                    Leads-then _ _ (save_journalled actor row (updated_row u now row)) _
                      (save_journalled-Traces actor base row (updated_row u now row)
                        (check_heartbeat_kept-Updates u now row kept))
                      λ _. search (preserves_rules, commit-Traces)

  name_duplicate-Traces :
      (e : Error) (found : Option RelationshipRecord)
      → Preserves (Traces actor base) (name_duplicate e found)
  unfolding name_duplicate
  name_duplicate-Traces e none = Preserves-raise _ e
  name_duplicate-Traces e (some r) = Preserves-raise _ _

  on_refused_edge-Traces :
      (source target : ℕ) (type : RelationshipType) (e : Error)
      → Preserves (Traces actor base) (on_refused_edge source target type e)
  unfolding on_refused_edge
  on_refused_edge-Traces source target type (integrity kind) =
      Preserves-bind _ rollback _ (rollback-Traces actor base) λ _.
        Preserves-bind _ (gets _) _ (Preserves-gets _ _)
          λ found. name_duplicate-Traces (integrity kind) found
  on_refused_edge-Traces source target type e = Preserves-raise _ e

  pub relate-Traces :
      (source target : ℕ) (type : RelationshipType) (context : Option String)
      → Preserves (Traces actor base) (relate actor source target type context)
  unfolding relate
  relate-Traces source target type context =
      search (preserves_rules, insert_relationship-Traces, commit-Traces, on_refused_edge-Traces)

  pub unrelate-Traces : (id : ℕ) → Preserves (Traces actor base) (unrelate actor id)
  unfolding unrelate ◌>>=◌
  unrelate-Traces id = record {
    keeps = λ s h. elim (Option-cases (find_relationship id s.pending.relationships)) [
      | inl gone ↦ rw gone h
      | inr (r, there) ↦ rw there (
          (Leads-then _ _ (delete_relationship actor r) _ (delete_relationship-Traces actor base r)
              λ _. commit-Traces actor base).leads
            s
            (
              h,
              subst (λ i. find_relationship i s.pending.relationships ≡ some r)
                  (sym (find_relationship-id id s.pending.relationships r there)) there,
            ))
    ];
  }

  on_refused_anchor-Traces : (e : Error) → Preserves (Traces actor base) (on_refused_anchor e)
  unfolding on_refused_anchor
  on_refused_anchor-Traces (integrity kind) =
      Preserves-bind _ rollback _ (rollback-Traces actor base)
        λ _. Preserves-bind _ (gets _) _ (Preserves-gets _ _) λ found. Preserves-or_raise _ found _
  on_refused_anchor-Traces e = Preserves-raise _ e

  create_anchor-Traces : Preserves (Traces actor base) (create_anchor actor)
  unfolding create_anchor
  create_anchor-Traces =
      search (preserves_rules, insert_thing-Traces, commit-Traces, on_refused_anchor-Traces)

  existing_or_created-Traces :
      (found : Option ThingRecord) → Preserves (Traces actor base) (existing_or_created actor found)
  unfolding existing_or_created
  existing_or_created-Traces none = create_anchor-Traces
  existing_or_created-Traces (some anchor) = Preserves-pure _ anchor

  pub get_or_create_user_anchor-Traces :
      Preserves (Traces actor base) (get_or_create_user_anchor actor)
  unfolding get_or_create_user_anchor
  get_or_create_user_anchor-Traces =
      Preserves-bind _ (gets _) _ (Preserves-gets _ _) existing_or_created-Traces

  require_evidence-Traces : (id : ℕ) → Preserves (Traces actor base) (require_evidence id)
  unfolding require_evidence
  require_evidence-Traces id = search (preserves_rules, require_thing-Traces)

  link_evidence-Traces :
      (preference_id id : ℕ) → Preserves (Traces actor base) (link_evidence actor preference_id id)
  unfolding link_evidence
  link_evidence-Traces preference_id id = search (preserves_rules, insert_relationship-Traces)

  write_preference-Traces :
      (title scope : String) (wanted : List ℕ)
      → Preserves (Traces actor base) (write_preference actor title scope wanted)
  unfolding write_preference
  write_preference-Traces title scope wanted =
      search
        (
          preserves_rules, get_or_create_user_anchor-Traces, insert_thing-Traces,
          insert_relationship-Traces, link_evidence-Traces, commit-Traces,
        )
        depth 9

  pub record_preference-Traces :
      (title scope : String) (evidence_ids : List ℕ)
      → Preserves (Traces actor base) (record_preference actor title scope evidence_ids)
  unfolding record_preference
  record_preference-Traces title scope evidence_ids =
      search (preserves_rules, require_evidence-Traces, write_preference-Traces) depth 9

  require_preference-Traces : (id : ℕ) → Preserves (Traces actor base) (require_preference id)
  unfolding require_preference
  require_preference-Traces id = search (preserves_rules, require_thing-Traces)

  on_duplicate_evidence-Traces :
      (id : ℕ) (e : Error) → Preserves (Traces actor base) (on_duplicate_evidence id e)
  unfolding on_duplicate_evidence
  on_duplicate_evidence-Traces id (duplicate_relationship r) = require_preference-Traces id
  on_duplicate_evidence-Traces id e = Preserves-raise _ e

  link_preference-Traces :
      (preference : ThingRecord) (id evidence_id : ℕ)
      → Preserves (Traces actor base) (link_preference actor preference id evidence_id)
  unfolding link_preference
  link_preference-Traces preference id evidence_id =
      search (preserves_rules, relate-Traces, on_duplicate_evidence-Traces)

  linked-Traces :
      (preference : ThingRecord) (id evidence_id : ℕ) (linked : Option RelationshipRecord)
      → Preserves {A = ThingRecord} (Traces actor base) (elim linked [
        | some existing ↦ pure preference
        | none ↦ link_preference actor preference id evidence_id
      ])
  linked-Traces preference id evidence_id none = link_preference-Traces preference id evidence_id
  linked-Traces preference id evidence_id (some r) = Preserves-pure _ preference

  pub add_preference_evidence-Traces :
      (id evidence_id : ℕ)
      → Preserves (Traces actor base) (add_preference_evidence actor id evidence_id)
  unfolding add_preference_evidence
  add_preference_evidence-Traces id evidence_id =
      Preserves-bind _ (require_preference id) _ (require_preference-Traces id) λ preference.
        Preserves-bind _ (require_thing evidence_id) _ (require_thing-Traces evidence_id) λ _.
          Preserves-bind _ (gets _) _ (Preserves-gets _ _)
            λ linked. linked-Traces preference id evidence_id linked

  pub reject_preference-Traces :
      (id : ℕ) → Preserves (Traces actor base) (reject_preference actor id)
  unfolding reject_preference
  reject_preference-Traces id =
      search (preserves_rules, require_preference-Traces, update_thing-Traces)
