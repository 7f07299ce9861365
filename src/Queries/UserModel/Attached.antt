-- ===== src/Queries/UserModel/Attached.antt =====
-- The evidence of a Thing, by the edges that attach it.
use reli.Prelude.{
  ℕ, ◌≡◌, ◌≢◌, ◌↔◌, ◌∙◌, inl, inr, refl, sym, ap, subst, true, Option, none, some, List, [], ◌∷◌,
  arith, ◌==◌, ℕ_equals, eq_of_equals, filter, In, In-filter, filter-In, In-sort, sort-In,
  Bool-cases, Option-cases, if◌then◌else◌,
}
use reli.DbModels.{ThingRecord, RelationshipRecord, RelationshipType_equals, same_type_iff}
use reli.DbModels
use reli.Database.Tables.{Graph, find_thing}
use reli.Queries.Order.{attached_first}
use reli.Queries.UserModel.{
  is_evidence_edge, evidence_edges_of, sources_of, entry_of, entry_or_empty, evidence_by_preference,
  evidence_for,
}

-- An edge of type EvidenceFor from the Thing to the one with this id.
abbrev pub IsEvidence : Graph → ℕ → ThingRecord → Type 0
IsEvidence g id thing =
    (r : RelationshipRecord) × In r g.relationships
    × (r.relationship_type ≡ DbModels.evidence_for)
    × (r.target_thing_id ≡ id)
    × (find_thing r.source_thing_id g.things ≡ some thing)

module _ (things : List ThingRecord) (id : ℕ) (thing : ThingRecord) where
  -- What one of these edges attaches.
  abbrev Attaches : List RelationshipRecord → Type 0
  Attaches rs =
      (r : RelationshipRecord) × In r rs
      × (r.target_thing_id ≡ id)
      × (find_thing r.source_thing_id things ≡ some thing)

  attached_later :
      (r : RelationshipRecord) (rs : List RelationshipRecord) → Attaches rs → Attaches (r ∷ rs)
  attached_later r rs (q, m, t, s) = (q, inr m, t, s)

  sources_of-Attaches :
      (rs : List RelationshipRecord) → In thing (sources_of things id rs) → Attaches rs
  sources_of-Attaches [] m = absurd m
  sources_of-Attaches (r ∷ rs) m = elim (Bool-cases (r.target_thing_id == id)) [
    | inr other ↦ attached_later r rs (
        sources_of-Attaches rs (
          subst
            (λ b. In thing (
              if b
              then elim (find_thing r.source_thing_id things) [
                | none ↦ sources_of things id rs
                | some row ↦ row ∷ sources_of things id rs
              ]
              else sources_of things id rs))
            other m))
    | inl own ↦ elim (Option-cases (find_thing r.source_thing_id things)) [
      | inl gone ↦ attached_later r rs (sources_of-Attaches rs (at_edge r rs none own gone m))
      | inr (row, there) ↦ elim (at_edge r rs (some row) own there m) [
        | inl same ↦ (r, inl refl, eq_of_equals r.target_thing_id id own, there ∙ ap some same)
        | inr later ↦ attached_later r rs (sources_of-Attaches rs later)
      ]
    ]
  ]
    where
      at_edge :
          (r : RelationshipRecord) (rs : List RelationshipRecord) (found : Option ThingRecord)
          → (r.target_thing_id == id) ≡ true
          → find_thing r.source_thing_id things ≡ found
          → In thing (sources_of things id (r ∷ rs))
          → In thing (elim found [
            | none ↦ sources_of things id rs
            | some row ↦ row ∷ sources_of things id rs
          ])
      at_edge r rs found own there m =
          subst
            (λ f. In thing (elim f [
              | none ↦ sources_of things id rs
              | some row ↦ row ∷ sources_of things id rs
            ]))
            there
            (subst
              (λ b. In thing (
                if b
                then elim (find_thing r.source_thing_id things) [
                  | none ↦ sources_of things id rs
                  | some row ↦ row ∷ sources_of things id rs
                ]
                else sources_of things id rs))
              own m)

  Attaches-sources_of :
      (rs : List RelationshipRecord) → Attaches rs → In thing (sources_of things id rs)
  Attaches-sources_of [] (q, m, t, s) = absurd m
  Attaches-sources_of (r ∷ rs) (q, inl e, t, s) =
      rw
        (
          In,
          (ℕ_equals.equals_iff r.target_thing_id id).1 (ap (λ x. x.target_thing_id) e ∙ t),
          ap (λ x. find_thing x.source_thing_id things) e ∙ s,
        )
        (inl refl)
  Attaches-sources_of (r ∷ rs) (q, inr m, t, s) =
      let rest = Attaches-sources_of rs (q, m, t, s) in
      elim (Bool-cases (r.target_thing_id == id)) [
        | inr other ↦ rw (In, other) rest
        | inl own ↦ elim (Option-cases (find_thing r.source_thing_id things)) [
          | inl gone ↦ rw (In, own, gone) rest
          | inr (row, there) ↦ rw (In, own, there) (inr rest)
        ]
      ]

entry_or_empty-entry_of : (rows : List ThingRecord) → entry_or_empty (entry_of rows) ≡ rows
entry_or_empty-entry_of [] = refl
entry_or_empty-entry_of (row ∷ rows) = refl

pub evidence_for_iff :
    (g : Graph) (id : ℕ) (thing : ThingRecord)
    → In thing (evidence_for g id) ↔ IsEvidence g id thing
unfolding evidence_for evidence_by_preference
evidence_for_iff g id thing =
    let edges = filter (is_evidence_edge (id ∷ [])) g.relationships in
    let found = sources_of g.things id (evidence_edges_of g (id ∷ [])) in
    (
      (λ m.
          let (r, there, t, s) =
            sources_of-Attaches g.things id thing (evidence_edges_of g (id ∷ []))
              (subst (In thing) (entry_or_empty-entry_of found) m) in
          let (stored, e) =
            filter-In (is_evidence_edge (id ∷ [])) r g.relationships
              (sort-In attached_first r edges there) in
          (
            r,
            stored,
            (same_type_iff r.relationship_type DbModels.evidence_for).0 (ground (arith, e)),
            t,
            s,
          )),
      λ (r, m, k, t, s). subst (In thing) (sym (entry_or_empty-entry_of found)) (
          Attaches-sources_of g.things id thing (evidence_edges_of g (id ∷ [])) (
            r,
            In-sort attached_first r edges (
                In-filter (is_evidence_edge (id ∷ [])) r g.relationships m (
                  ground
                    (arith, t, (same_type_iff r.relationship_type DbModels.evidence_for).1 k))),
            t,
            s,
          )),
    )

-- A Thing has evidence exactly when an edge attaches some.
pub evident-IsEvidence :
    (g : Graph) (id : ℕ)
    → (evidence_for g id ≢ []) ↔ ((thing : ThingRecord) × IsEvidence g id thing)
evident-IsEvidence g id = (
  (λ f. some_of (evidence_for g id) f (λ thing m. (thing, (evidence_for_iff g id thing).0 m))),
  λ (thing, e) none_there. subst (In thing) none_there ((evidence_for_iff g id thing).1 e),
)
  where
    some_of :
        (rows : List ThingRecord)
        → rows ≢ []
        → ((thing : ThingRecord) → In thing rows → (thing : ThingRecord) × IsEvidence g id thing)
        → (thing : ThingRecord) × IsEvidence g id thing
    some_of [] f k = absurd (f refl)
    some_of (row ∷ rows) f k = k row (inl refl)
