-- ===== src/Spec/Refines/Collapse.antt =====
-- The refinement for `collapse_duplicate_evidence`: an edge that it read at its start still stands when
-- it comes to it, because the keys are distinct.
use reli.Prelude.{
  ℕ, suc, ◌≡◌, refl, Bool, false, some, List, [], ◌∷◌, arith, ◌==◌, ℕ_equals, All, All-filter,
  All-sort, filter, any-sort, any-insert_sorted, insert_sorted, sort, Bool-cases, inl, inr,
  String_equals,
}
use reli.DbModels.{RelationshipRecord, claude_scheduled, RelationshipType_equals}
use reli.Database.Tables.{Graph, find_relationship, has_relationship, remove_relationship}
use reli.Database.Session.{Session, delete_relationship_row}
use reli.Exec.{◌>>=◌}
use reli.Exec.Preserves.{Preserves, Preserves-pure}
use reli.Exec.Leads.{Leads, Leads-trans}
use reli.Service.Writes.{journalled, delete_relationship}
use reli.Service.Edges.{
  evidence_before, evidence_edges, is_kept, collapse_each, collapse_duplicate_evidence,
}
use reli.Spec.Step.{Steps-trans}
use reli.Spec.Invariants.Keys.{RelationshipKeys}
use reli.Spec.Invariants.WellFormed.{WellFormed, Steps-WellFormed}
use reli.Spec.Refines.{Traces}
use reli.Spec.Refines.Primitives.{delete_relationship-Traces}

-- The edges of a list that stand in the table, each under an id of its own.
abbrev StandingEdges : List RelationshipRecord → List RelationshipRecord → Type 0
StandingEdges table rs = All (λ r. find_relationship r.id table ≡ some r) rs × RelationshipKeys rs

find_relationship-remove :
    (id i : ℕ) (rs : List RelationshipRecord)
    → (i == id) ≡ false
    → find_relationship i (remove_relationship id rs) ≡ find_relationship i rs
find_relationship-remove id i [] n = refl
find_relationship-remove id i (r ∷ rs) n = ground (arith, find_relationship-remove id i rs)

StandingEdges-remove :
    (table : List RelationshipRecord) (id : ℕ) (rs : List RelationshipRecord)
    → has_relationship id rs ≡ false
    → All (λ r. find_relationship r.id table ≡ some r) rs
    → All (λ r. find_relationship r.id (remove_relationship id table) ≡ some r) rs
StandingEdges-remove table id [] n h = tt
StandingEdges-remove table id (r ∷ rs) n h = (
  ground (arith, find_relationship-remove id r.id table, h.0),
  StandingEdges-remove table id rs (ground arith) h.1,
)

-- In a table of distinct keys, the row found under a row's id is that row.
StandingEdges-cons :
    (r : RelationshipRecord) (table rs : List RelationshipRecord)
    → has_relationship r.id rs ≡ false
    → All (λ x. find_relationship x.id table ≡ some x) rs
    → All (λ x. find_relationship x.id (r ∷ table) ≡ some x) rs
StandingEdges-cons r table [] n h = tt
StandingEdges-cons r table (x ∷ rs) n h =
    (ground (arith, h.0), StandingEdges-cons r table rs (ground arith) h.1)

StandingEdges-table :
    (table : List RelationshipRecord)
    → RelationshipKeys table
    → All (λ r. find_relationship r.id table ≡ some r) table
StandingEdges-table [] k = tt
StandingEdges-table (r ∷ table) k =
    (ground arith, StandingEdges-cons r table table k.0 (StandingEdges-table table k.1))

has_relationship-filter :
    (p : RelationshipRecord → Bool) (id : ℕ) (rs : List RelationshipRecord)
    → has_relationship id rs ≡ false
    → has_relationship id (filter p rs) ≡ false
has_relationship-filter p id [] n = n
has_relationship-filter p id (r ∷ rs) n = ground (arith, has_relationship-filter p id rs)

RelationshipKeys-filter :
    (p : RelationshipRecord → Bool) (rs : List RelationshipRecord)
    → RelationshipKeys rs
    → RelationshipKeys (filter p rs)
RelationshipKeys-filter p [] k = tt
RelationshipKeys-filter p (r ∷ rs) k =
    ground (arith, has_relationship-filter p r.id rs k.0, RelationshipKeys-filter p rs k.1)

RelationshipKeys-insert_sorted :
    (before : RelationshipRecord → RelationshipRecord → Bool) (r : RelationshipRecord)
    (rs : List RelationshipRecord)
    → has_relationship r.id rs ≡ false
    → RelationshipKeys rs
    → RelationshipKeys (insert_sorted before r rs)
unfolding insert_sorted
RelationshipKeys-insert_sorted before r [] n k = (refl, tt)
RelationshipKeys-insert_sorted before r (x ∷ rs) n k = ground (
  arith,
  RelationshipKeys-insert_sorted before r rs,
  any-insert_sorted before (λ (y : RelationshipRecord). y.id == x.id) r rs,
)

RelationshipKeys-sort :
    (before : RelationshipRecord → RelationshipRecord → Bool) (rs : List RelationshipRecord)
    → RelationshipKeys rs
    → RelationshipKeys (sort before rs)
unfolding sort
RelationshipKeys-sort before [] k = tt
RelationshipKeys-sort before (r ∷ rs) k =
    RelationshipKeys-insert_sorted before r (sort before rs)
      (rw (any-sort before (λ (y : RelationshipRecord). y.id == r.id) rs) k.0)
      (RelationshipKeys-sort before rs k.1)

module _ (base : Graph) where
  abbrev Edges : List RelationshipRecord → Session → Type 0
  Edges rs s = Traces claude_scheduled base s × StandingEdges s.pending.relationships rs

  delete-Edges :
      (r : RelationshipRecord) (rs : List RelationshipRecord)
      → Leads (Edges (r ∷ rs)) (Edges rs) (delete_relationship claude_scheduled r)
  unfolding delete_relationship delete_relationship_row journalled ◌>>=◌
  delete-Edges r rs = record {
    leads = λ s h. (
      (delete_relationship-Traces claude_scheduled base r).leads s (h.0, h.1.0.0),
      (StandingEdges-remove s.pending.relationships r.id rs h.1.1.0 h.1.0.1, h.1.1.1),
    );
  }

  collapse_each-Traces :
      (kept : List (ℕ × ℕ)) (removed : ℕ) (rs : List RelationshipRecord)
      → Leads (Edges rs) (Traces claude_scheduled base) (collapse_each kept removed rs)
  unfolding collapse_each
  collapse_each-Traces kept removed [] = record {
    leads = λ s h. (Preserves-pure (Traces claude_scheduled base) removed).keeps s h.0;
  }
  collapse_each-Traces kept removed (r ∷ rs) = elim (Bool-cases (is_kept r kept)) [
    | inl again ↦ rw again (
        Leads-trans _ _ _ (λ s h. h.0) _ _ (delete-Edges r rs)
          λ _. collapse_each-Traces kept (suc removed) rs)
    | inr first ↦ rw first (record {
      leads = λ s h.
          (collapse_each-Traces ((r.source_thing_id, r.target_thing_id) ∷ kept) removed rs).leads s
            (h.0, (h.1.0.1, h.1.1.1));
    })
  ]

  pub collapse_duplicate_evidence-Traces :
      WellFormed base → Preserves (Traces claude_scheduled base) collapse_duplicate_evidence
  unfolding collapse_duplicate_evidence ◌>>=◌
  collapse_duplicate_evidence-Traces w = record {
    keeps = λ s h.
        let keys = (Steps-WellFormed (Steps-trans h.0 h.1) w).relationship_keys in
        let table = s.pending.relationships in
        (collapse_each-Traces [] 0 (evidence_edges table)).leads s (
          h,
          (
            All-sort evidence_before _ _ (All-filter _ _ table (StandingEdges-table table keys)),
            RelationshipKeys-sort evidence_before _ (RelationshipKeys-filter _ table keys),
          ),
        );
  }
