-- ===== src/Spec/Quiet.antt =====
-- The actions that do not commit.
use reli.Prelude.{
  ℕ, suc, String, ◌≡◌, Option, none, some, List, [], ◌∷◌, arith, Bool-cases, inl, inr,
}
use reli.DbModels.{
  ThingRecord, RelationshipRecord, JournalRecord, Actor, Operation, EntityType, Snapshot,
  RelationshipType,
}
use reli.Database.Tables.{Graph}
use reli.Database.Session.{
  Session, Error, utcnow, uuid4, insert_thing_row, save_thing_row, insert_relationship_row,
  delete_relationship_row, add_journal_row, rollback, integrity, duplicate_relationship,
}
use reli.Exec.{gets}
use reli.Exec.Preserves.{
  Preserves, Preserves-bind, Preserves-gets, Preserves-or_raise, Preserves-raise, Preserves-pure,
  preserves_rules,
}
use reli.Service.Writes.{
  journalled, require_thing, NewThing, chosen_id, insert_thing, check_edge, insert_relationship,
  delete_relationship,
}
use reli.Service.Things.{capture_date, save_journalled, backfill_each}
use reli.Service.Edges.{name_duplicate, on_refused_edge, is_kept, collapse_each}
use reli.Service.Preferences.{
  on_refused_anchor, require_evidence, require_preference, on_duplicate_evidence, link_evidence,
}

-- `g` is what is committed.
abbrev pub Quiet : Graph → Session → Type 0
Quiet g s = s.committed ≡ g

module _ (g : Graph) where
  pub utcnow-Quiet : Preserves (Quiet g) utcnow
  unfolding utcnow
  utcnow-Quiet = record { keeps = λ s h. h }

  pub uuid4-Quiet : Preserves (Quiet g) uuid4
  unfolding uuid4
  uuid4-Quiet = record { keeps = λ s h. h }

  pub insert_thing_row-Quiet : (t : ThingRecord) → Preserves (Quiet g) (insert_thing_row t)
  unfolding insert_thing_row
  insert_thing_row-Quiet t = record { keeps = λ s h. ground arith }

  pub save_thing_row-Quiet : (t : ThingRecord) → Preserves (Quiet g) (save_thing_row t)
  unfolding save_thing_row
  save_thing_row-Quiet t = record { keeps = λ s h. h }

  pub insert_relationship_row-Quiet :
      (r : RelationshipRecord) → Preserves (Quiet g) (insert_relationship_row r)
  unfolding insert_relationship_row
  insert_relationship_row-Quiet r = record { keeps = λ s h. ground arith }

  pub delete_relationship_row-Quiet : (id : ℕ) → Preserves (Quiet g) (delete_relationship_row id)
  unfolding delete_relationship_row
  delete_relationship_row-Quiet id = record { keeps = λ s h. h }

  pub add_journal_row-Quiet : (f : ℕ → JournalRecord) → Preserves (Quiet g) (add_journal_row f)
  unfolding add_journal_row
  add_journal_row-Quiet f = record { keeps = λ s h. h }

  pub rollback-Quiet : Preserves (Quiet g) rollback
  unfolding rollback
  rollback-Quiet = record { keeps = λ s h. h }

  pub journalled-Quiet :
      (actor : Actor) (operation : Operation) (type : EntityType) (id : ℕ)
      (before after : Option Snapshot)
      → Preserves (Quiet g) (journalled actor operation type id before after)
  unfolding journalled
  journalled-Quiet actor operation type id before after =
      Preserves-bind _ utcnow _ utcnow-Quiet λ now. add_journal_row-Quiet _

  pub chosen_id-Quiet : (id : Option ℕ) → Preserves (Quiet g) (chosen_id id)
  unfolding chosen_id
  chosen_id-Quiet none = uuid4-Quiet
  chosen_id-Quiet (some id) = Preserves-pure _ id

  pub require_thing-Quiet : (id : ℕ) → Preserves (Quiet g) (require_thing id)
  unfolding require_thing
  require_thing-Quiet id =
      Preserves-bind _ (gets _) _ (Preserves-gets _ _) λ found. Preserves-or_raise _ found _

  pub insert_thing-Quiet :
      (actor : Actor) (new : NewThing) (id : Option ℕ)
      → Preserves (Quiet g) (insert_thing actor new id)
  unfolding insert_thing
  insert_thing-Quiet actor new id =
      search
        (preserves_rules, utcnow-Quiet, chosen_id-Quiet, insert_thing_row-Quiet, journalled-Quiet)
        depth 9

  pub check_edge-Quiet :
      (source target : ℕ) (type : RelationshipType)
      → Preserves (Quiet g) (check_edge source target type)
  unfolding check_edge
  check_edge-Quiet source target type = search preserves_rules depth 9

  pub insert_relationship-Quiet :
      (actor : Actor) (source target : ℕ) (type : RelationshipType) (context : Option String)
      → Preserves (Quiet g) (insert_relationship actor source target type context)
  unfolding insert_relationship
  insert_relationship-Quiet actor source target type context =
      search
        (
          preserves_rules, check_edge-Quiet, utcnow-Quiet, uuid4-Quiet,
          insert_relationship_row-Quiet, journalled-Quiet,
        )
        depth 9

  pub delete_relationship-Quiet :
      (actor : Actor) (r : RelationshipRecord) → Preserves (Quiet g) (delete_relationship actor r)
  unfolding delete_relationship
  delete_relationship-Quiet actor r =
      Preserves-bind _ _ _ (delete_relationship_row-Quiet r.id) λ _. journalled-Quiet _ _ _ _ _ _

  pub save_journalled-Quiet :
      (actor : Actor) (before t : ThingRecord)
      → Preserves (Quiet g) (save_journalled actor before t)
  unfolding save_journalled
  save_journalled-Quiet actor before t =
      Preserves-bind _ _ _ (save_thing_row-Quiet t) λ _. journalled-Quiet _ _ _ _ _ _

  pub capture_date-Quiet :
      (tags : List String) (date : Option ℕ) → Preserves (Quiet g) (capture_date tags date)
  unfolding capture_date
  capture_date-Quiet tags none = search (preserves_rules, utcnow-Quiet)
  capture_date-Quiet tags (some date) = Preserves-pure _ _

  pub backfill_each-Quiet :
      (first now position : ℕ) (ts : List ThingRecord)
      → Preserves (Quiet g) (backfill_each first now position ts)
  unfolding backfill_each
  backfill_each-Quiet first now position [] = Preserves-pure _ tt
  backfill_each-Quiet first now position (t ∷ ts) =
      Preserves-bind _ _ _ (save_journalled-Quiet _ t _)
        λ _. backfill_each-Quiet first now (suc position) ts

  pub collapse_each-Quiet :
      (kept : List (ℕ × ℕ)) (removed : ℕ) (rs : List RelationshipRecord)
      → Preserves (Quiet g) (collapse_each kept removed rs)
  unfolding collapse_each
  collapse_each-Quiet kept removed [] = Preserves-pure _ removed
  collapse_each-Quiet kept removed (r ∷ rs) = elim (Bool-cases (is_kept r kept)) [
    | inl again ↦ rw again (
        Preserves-bind _ _ _ (delete_relationship-Quiet _ r)
          λ _. collapse_each-Quiet kept (suc removed) rs)
    | inr first ↦
        rw first (collapse_each-Quiet ((r.source_thing_id, r.target_thing_id) ∷ kept) removed rs)
  ]

  pub require_preference-Quiet : (id : ℕ) → Preserves (Quiet g) (require_preference id)
  unfolding require_preference
  require_preference-Quiet id = search (preserves_rules, require_thing-Quiet)

  pub require_evidence-Quiet : (id : ℕ) → Preserves (Quiet g) (require_evidence id)
  unfolding require_evidence
  require_evidence-Quiet id = search (preserves_rules, require_thing-Quiet)

  pub link_evidence-Quiet :
      (actor : Actor) (preference_id id : ℕ)
      → Preserves (Quiet g) (link_evidence actor preference_id id)
  unfolding link_evidence
  link_evidence-Quiet actor preference_id id = search (preserves_rules, insert_relationship-Quiet)

  pub name_duplicate-Quiet :
      (e : Error) (found : Option RelationshipRecord) → Preserves (Quiet g) (name_duplicate e found)
  unfolding name_duplicate
  name_duplicate-Quiet e none = Preserves-raise _ e
  name_duplicate-Quiet e (some r) = Preserves-raise _ _

  pub on_refused_edge-Quiet :
      (source target : ℕ) (type : RelationshipType) (e : Error)
      → Preserves (Quiet g) (on_refused_edge source target type e)
  unfolding on_refused_edge
  on_refused_edge-Quiet source target type (integrity kind) =
      Preserves-bind _ rollback _ rollback-Quiet λ _.
        Preserves-bind _ (gets _) _ (Preserves-gets _ _)
          λ found. name_duplicate-Quiet (integrity kind) found
  on_refused_edge-Quiet source target type e = Preserves-raise _ e

  pub on_refused_anchor-Quiet : (e : Error) → Preserves (Quiet g) (on_refused_anchor e)
  unfolding on_refused_anchor
  on_refused_anchor-Quiet (integrity kind) =
      Preserves-bind _ rollback _ rollback-Quiet
        λ _. Preserves-bind _ (gets _) _ (Preserves-gets _ _) λ found. Preserves-or_raise _ found _
  on_refused_anchor-Quiet e = Preserves-raise _ e

  pub on_duplicate_evidence-Quiet :
      (id : ℕ) (e : Error) → Preserves (Quiet g) (on_duplicate_evidence id e)
  unfolding on_duplicate_evidence
  on_duplicate_evidence-Quiet id (duplicate_relationship r) = require_preference-Quiet id
  on_duplicate_evidence-Quiet id e = Preserves-raise _ e
