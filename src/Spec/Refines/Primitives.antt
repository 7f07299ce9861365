-- ===== src/Spec/Refines/Primitives.antt =====
-- The refinement for the actions that the public functions are made of.
use reli.Prelude.{
  ℕ, String, ◌≡◌, ◌≢◌, refl, true, false, ◌&&◌, Option, none, some, [], arith, Bool-cases, ℕ_equals,
  inl, inr,
}
use reli.DbModels.{
  ThingRecord, RelationshipRecord, of_thing, of_relationship, Actor, Operation, EntityType,
  RelationshipType, RelationshipType_equals, child_of, evidence_for,
}
use reli.Database.Tables.{Rows, Graph, has_thing, find_thing, has_relationship, find_relationship}
use reli.Database.Session.{
  Session, Error, utcnow, uuid4, insert_thing_row, insert_relationship_row, delete_relationship_row,
  commit, rollback, breaks_evidence_index,
}
use reli.Result.{Result, ok, err}
use reli.Exec.{pure, lift, ◌>>=◌, ◌>>◌}
use reli.Exec.Preserves.{Preserves, Preserves-bind, Preserves-lift, preserves_rules}
use reli.Exec.Leads.{Leads, Leads-bind}
use reli.Service.Writes.{
  Action, journalled, NewThing, new_row, chosen_id, insert_thing, check_edge, check_source_found,
  check_evidence_source, barred_tags, new_edge, insert_relationship, delete_relationship,
}
use reli.Service.Things.{save_journalled}
use reli.Service.ChildOf.{child_of_reaches}
use reli.Spec.Step.{
  Records-self, Updates, Admissible, created, updated, related, unrelated, done, then_step,
  Steps-trans,
}
use reli.Spec.Refines.{Traces}

module _ (actor : Actor) (base : Graph) where
  pub utcnow-Traces : Preserves (Traces actor base) utcnow
  unfolding utcnow
  utcnow-Traces = record { keeps = λ s h. h }

  pub uuid4-Traces : Preserves (Traces actor base) uuid4
  unfolding uuid4
  uuid4-Traces = record { keeps = λ s h. h }

  pub commit-Traces : Preserves (Traces actor base) commit
  unfolding commit
  commit-Traces = record { keeps = λ s h. (Steps-trans h.0 h.1, done) }

  pub rollback-Traces : Preserves (Traces actor base) rollback
  unfolding rollback
  rollback-Traces = record { keeps = λ s h. (h.0, done) }

  pub chosen_id-Traces : (id : Option ℕ) → Preserves (Traces actor base) (chosen_id id)
  unfolding chosen_id pure
  chosen_id-Traces none = uuid4-Traces
  chosen_id-Traces (some id) = record { keeps = λ s h. h }

  -- The INSERT and its journal entry are one `created` step, or nothing.
  insert_row-Traces :
      (t : ThingRecord)
      → Preserves {A = ThingRecord} (Traces actor base) (do
        insert_thing_row t
        journalled actor Operation.create EntityType.thing t.id none (some (of_thing t))
        pure t)
  unfolding insert_thing_row journalled ◌>>=◌
  insert_row-Traces t = record {
    keeps = λ s h. elim (Bool-cases (has_thing t.id s.pending.things)) [
      | inl taken ↦ rw taken h
      | inr fresh ↦ rw fresh (h.0, then_step h.1 (created _ t _ fresh (Records-self _)))
    ];
  }

  pub insert_thing-Traces :
      (new : NewThing) (id : Option ℕ) → Preserves (Traces actor base) (insert_thing actor new id)
  unfolding insert_thing
  insert_thing-Traces new id = search (
    preserves_rules,
    utcnow-Traces,
    chosen_id-Traces,
    λ (i now : ℕ). insert_row-Traces (new_row new i now),
  )

  -- The UPDATE of a row that was read, and its journal entry, are one `updated` step.
  pub save_journalled-Traces :
      (before t : ThingRecord)
      → Updates before t
      → Leads
          (λ s. Traces actor base s × (find_thing t.id s.pending.things ≡ some before))
          (Traces actor base)
          (save_journalled actor before t)
  unfolding save_journalled journalled ◌>>=◌
  save_journalled-Traces before t u = record {
    leads = λ s h. (h.0.0, then_step h.0.1 (updated _ before t _ h.1 u (Records-self _)));
  }

  -- The DELETE of an edge that was read, and its journal entry, are one `unrelated` step.
  pub delete_relationship-Traces :
      (r : RelationshipRecord)
      → Leads
          (λ s. Traces actor base s × (find_relationship r.id s.pending.relationships ≡ some r))
          (Traces actor base)
          (delete_relationship actor r)
  unfolding delete_relationship delete_relationship_row journalled ◌>>=◌
  delete_relationship-Traces r = record {
    leads = λ s h. (h.0.0, then_step h.0.1 (unrelated _ r _ h.1 (Records-self _)));
  }

-- What `_check_edge` has found of an edge when it returns.
record IsChecked (rows : Rows) (source target : ℕ) (type : RelationshipType) : Type 0 where
  no_loop : source ≢ target
  no_cycle : type ≡ child_of → child_of_reaches rows.relationships target source ≡ false
  real_evidence :
      (t : ThingRecord)
      → type ≡ evidence_for
      → find_thing source rows.things ≡ some t
      → barred_tags t ≡ []

check_evidence_source-eq-ok :
    (t : ThingRecord) → check_evidence_source t ≡ ok tt → barred_tags t ≡ []
unfolding check_evidence_source
check_evidence_source-eq-ok t h = ground arith

-- `_check_edge` writes nothing, and returns only for an edge that it has checked.
check_edge-IsChecked :
    (source target : ℕ) (type : RelationshipType) (s : Session)
    → ((check_edge source target type s).1 ≡ s)
      × ((check_edge source target type s).0 ≡ ok tt → IsChecked s.pending.rows source target type)
unfolding check_edge ◌>>=◌ check_source_found
check_edge-IsChecked source target evidence_for s = (
  ground arith,
  λ passed. record {
    no_loop = ground arith;
    no_cycle = λ e. cc;
    real_evidence = λ t e f. check_evidence_source-eq-ok t (ground arith);
  },
)
check_edge-IsChecked source target type s = (
  ground arith,
  λ passed. record { no_loop = ground arith; no_cycle = ground arith; real_evidence = λ t e f. cc },
)

IsChecked-Admissible :
    (rows : Rows) (r : RelationshipRecord)
    → has_relationship r.id rows.relationships ≡ false
    → breaks_evidence_index r rows.relationships ≡ false
    → (has_thing r.source_thing_id rows.things && has_thing r.target_thing_id rows.things) ≡ true
    → IsChecked rows r.source_thing_id r.target_thing_id r.relationship_type
    → Admissible rows r
IsChecked-Admissible rows r fresh single ends c = record {
  fresh = fresh;
  no_loop = c.no_loop;
  source_exists = ground arith;
  target_exists = ground arith;
  no_cycle = c.no_cycle;
  no_duplicate = ground arith;
  real_evidence = c.real_evidence;
}

module _ (actor : Actor) (base : Graph) where
  -- In an open transaction, an edge with these ends has passed its checks.
  abbrev Checked : ℕ → ℕ → RelationshipType → Session → Type 0
  Checked source target type s = Traces actor base s × IsChecked s.pending.rows source target type

  utcnow-Checked :
      (source target : ℕ) (type : RelationshipType) → Preserves (Checked source target type) utcnow
  unfolding utcnow
  utcnow-Checked source target type = record { keeps = λ s h. h }

  uuid4-Checked :
      (source target : ℕ) (type : RelationshipType) → Preserves (Checked source target type) uuid4
  unfolding uuid4
  uuid4-Checked source target type = record { keeps = λ s h. h }

  -- The INSERT of a checked edge and its journal entry are one `related` step, or nothing.
  insert_edge-Traces :
      (r : RelationshipRecord)
      → Leads {A = RelationshipRecord}
          (Checked r.source_thing_id r.target_thing_id r.relationship_type)
          (Traces actor base)
          (do
            insert_relationship_row r
            journalled actor Operation.relate EntityType.relationship r.id none
                (some (of_relationship r))
            pure r)
  unfolding insert_relationship_row journalled ◌>>=◌
  insert_edge-Traces r = record {
    leads = λ s h. elim (Bool-cases (has_relationship r.id s.pending.relationships)) [
      | inl taken ↦ rw taken h.0
      | inr fresh ↦ elim (Bool-cases (breaks_evidence_index r s.pending.relationships)) [
        | inl double ↦ rw (fresh, double) h.0
        | inr single ↦
            elim (Bool-cases (
              has_thing r.source_thing_id s.pending.things
              && has_thing r.target_thing_id s.pending.things)) [
                | inl ends ↦
                    rw (fresh, single, ends)
                      (
                        h.0.0,
                        then_step h.0.1 (
                            related _ r _ (IsChecked-Admissible _ r fresh single ends h.1)
                              (Records-self _)),
                      )
                | inr dangling ↦ rw (fresh, single, dangling) h.0
              ]
      ]
    ];
  }

  after_check_edge :
      (source target : ℕ) (type : RelationshipType) (n : Action RelationshipRecord)
      → Leads (Checked source target type) (Traces actor base) n
      → Preserves (Traces actor base) (check_edge source target type >> n)
  unfolding ◌>>=◌
  after_check_edge source target type n hn = record {
    keeps = λ s h.
        let c = check_edge-IsChecked source target type s in
        let (r, t) = check_edge source target type s in resumed s r t c.0 c.1 h;
  }
    where
      resumed :
          (s : Session) (r : Result Error (Unit {0})) (t : Session)
          → t ≡ s
          → (r ≡ ok tt → IsChecked s.pending.rows source target type)
          → Traces actor base s
          → Traces actor base (((λ _. (r, t)) >> n) s).1
      resumed s (ok tt) t e c h = rw e (hn.leads s (h, c refl))
      resumed s (err x) t e c h = rw e h

  pub insert_relationship-Traces :
      (source target : ℕ) (type : RelationshipType) (context : Option String)
      → Preserves (Traces actor base) (insert_relationship actor source target type context)
  unfolding insert_relationship
  insert_relationship-Traces source target type context =
      Preserves-bind _ (lift _) _ (Preserves-lift _ _) λ _. after_check_edge source target type _ (
        Leads-bind _ _ (λ s h. h.0) utcnow _ (utcnow-Checked source target type)
          λ now.
            Leads-bind _ _ (λ s h. h.0) uuid4 _ (uuid4-Checked source target type)
              λ id. insert_edge-Traces (new_edge source target type context id now))
