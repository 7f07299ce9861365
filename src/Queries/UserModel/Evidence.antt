-- ===== src/Queries/UserModel/Evidence.antt =====
-- The evidence of a Thing, asked for alone or with that of others.
use reli.Prelude.{
  ℕ, ◌≡◌, ◌≢◌, ◌∙◌, inl, inr, refl, sym, ap, subst, Bool, true, false, ◌&&◌, Option, some, List, [],
  ◌∷◌, map, arith, ◌==◌, ℕ_equals, String_equals, eq_of_equals, filter, filter-sort, contains, All,
  In, Bool-cases, Option-cases, is_some, sort, IsPreorder,
}
use reli.DbModels.{ThingRecord, RelationshipRecord, RelationshipType_equals}
use reli.Database.Tables.{Graph}
use reli.Queries.Order.{attached_first}
use reli.Queries.UserModel.{
  Preference, is_evidence_edge, evidence_edges_of, sources_of, entry_of, entry_or_empty,
  evidence_by_preference, evidence_for, preference_of, is_scoped, with_evidence,
}

attached_first-IsPreorder : IsPreorder attached_first
attached_first-IsPreorder = record {
  total = λ a b. ground arith;
  trans = λ a b c h k. ground (arith, h, k);
}

-- Only the edges to the Thing count.
sources_of-filter :
    (things : List ThingRecord) (id : ℕ) (rs : List RelationshipRecord)
    → sources_of things id (filter (λ r. r.target_thing_id == id) rs) ≡ sources_of things id rs
sources_of-filter things id [] = refl
sources_of-filter things id (r ∷ rs) = elim (Bool-cases (r.target_thing_id == id)) [
  | inl e ↦ ground (arith, e, sources_of-filter things id rs)
  | inr e ↦ ground (arith, e, sources_of-filter things id rs)
]

same_edges :
    (ids : List ℕ) (id : ℕ) (rs : List RelationshipRecord)
    → contains id ids ≡ true
    → filter (λ r. r.target_thing_id == id) (filter (is_evidence_edge ids) rs)
      ≡ filter (λ r. r.target_thing_id == id) (filter (is_evidence_edge (id ∷ [])) rs)
same_edges ids id [] h = refl
same_edges ids id (r ∷ rs) h = elim (Bool-cases (r.target_thing_id == id)) [
  | inl e ↦ ground (
    arith,
    e,
    same_edges ids id rs h,
    subst (λ i. contains i ids ≡ true) (sym (eq_of_equals r.target_thing_id id e)) h,
  )
  | inr e ↦ ground (arith, e, same_edges ids id rs h)
]

-- The evidence of a Thing does not depend on the Things that it is asked for with.
pub evidence_by_preference-one :
    (g : Graph) (ids : List ℕ) (id : ℕ)
    → contains id ids ≡ true
    → evidence_by_preference g ids id ≡ evidence_by_preference g (id ∷ []) id
unfolding evidence_by_preference
evidence_by_preference-one g ids id h = ap entry_of (
    sym (sources_of-filter g.things id (evidence_edges_of g ids))
    ∙ ap (sources_of g.things id) (
        filter-sort attached_first attached_first-IsPreorder (λ r. r.target_thing_id == id) _
        ∙ ap (sort attached_first) (same_edges ids id g.relationships h)
        ∙ sym
            (filter-sort attached_first attached_first-IsPreorder (λ r. r.target_thing_id == id) _))
    ∙ sources_of-filter g.things id (evidence_edges_of g (id ∷ [])))

entry_of-some :
    (found rows : List ThingRecord)
    → entry_of found ≡ some rows
    → (entry_or_empty (entry_of found) ≡ rows) × (rows ≢ [])
entry_of-some [] rows h = absurd (ground (arith, h))
entry_of-some (row ∷ rest) rows h = (ground (arith, h), λ e. absurd (ground (arith, h, e)))

entry_of-nonempty :
    (found : List ThingRecord)
    → is_some (entry_of found) ≡ false
    → entry_or_empty (entry_of found) ≡ []
entry_of-nonempty [] h = refl
entry_of-nonempty (row ∷ rest) h = absurd (ground (arith, h))

pub evidence_for-some :
    (g : Graph) (id : ℕ) (rows : List ThingRecord)
    → evidence_by_preference g (id ∷ []) id ≡ some rows
    → (evidence_for g id ≡ rows) × (rows ≢ [])
unfolding evidence_for evidence_by_preference
evidence_for-some g id rows h = entry_of-some _ rows h

pub evidence_for-none :
    (g : Graph) (id : ℕ)
    → is_some (evidence_by_preference g (id ∷ []) id) ≡ false
    → evidence_for g id ≡ []
unfolding evidence_for evidence_by_preference
evidence_for-none g id h = entry_of-nonempty _ h

-- A row with evidence and a scope; the rest of the row's conditions are those of the statement.
abbrev pub is_evident : Graph → ThingRecord → Bool
is_evident g row = is_some (evidence_by_preference g (row.id ∷ []) row.id) && is_scoped row

module _ (g : Graph) (evidence : ℕ → Option (List ThingRecord)) where
  pub with_evidence-filter :
      (rows : List ThingRecord)
      → ((row : ThingRecord)
          → In row rows
          → evidence row.id ≡ evidence_by_preference g (row.id ∷ []) row.id)
      → map (λ (p : Preference). p.thing) (with_evidence evidence rows) ≡ filter (is_evident g) rows
  with_evidence-filter [] h = refl
  with_evidence-filter (row ∷ rows) h =
      let rest = with_evidence-filter rows (λ r m. h r (inr m)) in
      let here = h row (inl refl) in
      elim (Option-cases (evidence row.id)) [
        | inl e ↦ ground (arith, e, here, rest)
        | inr (found, e) ↦ elim (Bool-cases (is_scoped row)) [
          | inl t ↦ ground (arith, e, t, here, rest)
          | inr f ↦ ground (arith, e, f, here, rest)
        ]
      ]

  pub with_evidence-preference_of :
      (rows : List ThingRecord)
      → ((row : ThingRecord)
          → In row rows
          → evidence row.id ≡ evidence_by_preference g (row.id ∷ []) row.id)
      → All (λ p. p ≡ preference_of g p.thing) (with_evidence evidence rows)
  unfolding preference_of
  with_evidence-preference_of [] h = tt
  with_evidence-preference_of (row ∷ rows) h =
      let rest = with_evidence-preference_of rows (λ r m. h r (inr m)) in
      elim (Option-cases (evidence row.id)) [
        | inl e ↦ rw (All, e) rest
        | inr (found, e) ↦ elim (Bool-cases (is_scoped row)) [
          | inl t ↦
              rw (All, e, t)
                (
                  ap (λ rows. record { thing = row; evidence = rows })
                      (sym (evidence_for-some g row.id found (sym (h row (inl refl)) ∙ e)).0),
                  rest,
                )
          | inr f ↦ rw (All, e, f) rest
        ]
      ]
