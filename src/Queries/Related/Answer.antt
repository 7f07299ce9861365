-- ===== src/Queries/Related/Answer.antt =====
-- What `related` answers: the Things that a short enough walk reaches, each at its shortest depth.
use reli.Prelude.{
  ℕ, zero, suc, ◌≤◌, ◌≡◌, ◌≢◌, refl, ap, subst, true, false, Option, some, List, [], ◌∷◌, arith,
  ◌==◌, ℕ_equals, eq_of_equals, filter, contains, length, All, All-sort, length-filter-sort, In,
  In-any, In-sort, In-All, inl, inr, Bool-cases, Option-cases, leb, sort, IsOrdered, sort-IsOrdered,
}
use reli.DbModels.{ThingRecord, RelationshipRecord, RelationshipType, RelationshipType_equals}
use reli.Database.Tables.{Graph}
use reli.Queries.Related.{
  WalkRow, first_rows, rounds, nearest_row, found, found_things, RelatedThing, nearest_first,
  wanted, min, max_related_depth, related, results_of,
}
use reli.Queries.Related.Rounds.{Walk, stay, hop, is_link}
use reli.Queries.Related.Rounds.Walks.{rounds_end, rows-IsWalk, Nearer, near_row}
use reli.Queries.Related.Nearest.{
  IsNearest, nearest_row-IsNearest, answer, found_things-All, found_things-In,
  length-filter-found_things, nearest_first-IsPreorder,
}

no_types-stays :
    (rs : List RelationshipRecord) (origin n y : ℕ) → Walk rs [] origin n y → y ≡ origin
no_types-stays rs origin _ _ stay = refl
no_types-stays rs origin _ _ (hop n x y w e) =
    absurd (ground (arith, (In-any (is_link [] x y) rs e).2))

module _ (g : Graph) (origin : ℕ) (types : List RelationshipType) (max_depth : ℕ) where
  -- A Thing of the answer: not the origin, at the end of a walk of its depth, and of no shorter one.
  abbrev pub IsNeighbour : RelatedThing → Type 0
  IsNeighbour r =
      In r.thing g.things
      × (r.thing.id ≢ origin)
      × (1 ≤ r.depth)
      × (r.depth ≤ max_depth)
      × Walk g.relationships types origin r.depth r.thing.id
      × ((n : ℕ) → Walk g.relationships types origin n r.thing.id → r.depth ≤ n)
      × (contains r.relationship_type types ≡ true)

  abbrev pub IsComplete : List RelatedThing → Type 0
  IsComplete results =
      (t : ThingRecord) (n : ℕ)
      → In t g.things
      → t.id ≢ origin
      → Walk g.relationships types origin n t.id
      → n ≤ max_depth
      → (r : RelatedThing) × In r results × (r.thing ≡ t)

  abbrev pub IsNeighbourhood : List RelatedThing → Type 0
  IsNeighbourhood results =
      All IsNeighbour results
      × IsComplete results
      × ((id : ℕ)
          → length (filter (λ r. r.thing.id == id) results)
            ≤ length (filter (λ t. t.id == id) g.things))
      × IsOrdered nearest_first results

module _ (g : Graph) (origin : ℕ) (types : List RelationshipType) (max_depth : ℕ)
    (positive : 1 ≤ max_depth) (rows : List WalkRow)
    (run : rounds origin types max_depth g.relationships max_depth
        (first_rows origin types max_depth g.relationships)
      ≡ some rows) where
  found-IsNearest :
      (id : ℕ) (w : WalkRow)
      → found origin rows id ≡ some w
      → (id ≢ origin) × IsNearest id rows (some w)
  found-IsNearest id w h = elim (Bool-cases (id == origin)) [
    | inl e ↦ absurd (ground (arith, h, e))
    | inr e ↦ (
      λ k. absurd (ground (arith, k, e)),
      subst (IsNearest id rows) {y = some w} (ground (arith, h, e)) (nearest_row-IsNearest id rows),
    )
  ]

  found_of_Nearer :
      (n id : ℕ)
      → id ≢ origin
      → Nearer origin types max_depth g.relationships rows run positive n id
      → (w : WalkRow) × (found origin rows id ≡ some w) × (w.depth ≤ n)
  found_of_Nearer n id other (v, m, e, le) = elim (Bool-cases (id == origin)) [
    | inl same ↦ absurd (other (eq_of_equals id origin same))
    | inr _ ↦ elim (Option-cases (nearest_row id rows)) [
      | inl miss ↦ absurd (
          ground (
            arith,
            e,
            In-All (λ v. (v.thing_id == id) ≡ false) v rows
                (subst (IsNearest id rows) miss (nearest_row-IsNearest id rows)) m,
          ))
      | inr (w, hit) ↦ (
        w,
        ground arith,
        omega (
          arith,
          le,
          In-All (λ v. (v.thing_id == id) ≡ true → w.depth ≤ v.depth) v rows
              (subst (IsNearest id rows) hit (nearest_row-IsNearest id rows)).2 m
              (ground (arith, e)),
        ),
      )
    ]
  ]

  -- No walk to a Thing is shorter than its row.
  least :
      (id : ℕ) (w : WalkRow)
      → found origin rows id ≡ some w
      → (n : ℕ) → Walk g.relationships types origin n id
      → w.depth ≤ n
  least id w e n walk =
      let k = found-IsNearest id w e in
      elim (Bool-cases (leb n max_depth)) [
        | inl le ↦
            elim (near_row origin types max_depth g.relationships rows run positive n id walk
              (ground (arith, le))) [
                | inl o ↦ absurd (k.0 o)
                | inr (v, m, same, near) ↦ omega (
                  arith,
                  near,
                  In-All (λ v. (v.thing_id == id) ≡ true → w.depth ≤ v.depth) v rows k.1.2 m
                      (ground (arith, same)),
                )
              ]
        | inr gt ↦ ground (
          arith,
          gt,
          (In-All _ w rows (rows-IsWalk origin types max_depth g.relationships rows run positive)
              k.1.0).1,
        )
      ]

  abbrev whole_answer : List RelatedThing
  whole_answer = sort nearest_first (found_things (found origin rows) g.things)

  answer-IsNeighbour : All (IsNeighbour g origin types max_depth) whole_answer
  answer-IsNeighbour = All-sort nearest_first _ _ (
      found_things-All (found origin rows) (IsNeighbour g origin types max_depth) g.things
        (λ t w m e.
          let k = found-IsNearest t.id w e in
          let s =
            In-All _ w rows (rows-IsWalk origin types max_depth g.relationships rows run positive)
              k.1.0 in
          (
            m,
            k.0,
            s.0,
            s.1,
            subst (Walk g.relationships types origin w.depth) k.1.1 s.2,
            least t.id w e,
            s.3,
          )))

  answer-IsComplete : IsComplete g origin types max_depth whole_answer
  answer-IsComplete t n m other walk le =
      elim (near_row origin types max_depth g.relationships rows run positive n t.id walk le) [
        | inl e ↦ absurd (other e)
        | inr near ↦
            let f = found_of_Nearer n t.id other near in
            (
              answer t f.0,
              In-sort nearest_first _ _ (found_things-In (found origin rows) t f.0 g.things m f.1),
              refl,
            )
      ]

  answer-IsNeighbourhood : IsNeighbourhood g origin types max_depth whole_answer
  answer-IsNeighbourhood = (
    answer-IsNeighbour,
    answer-IsComplete,
    (λ id. omega (
      arith,
      length-filter-sort nearest_first (λ r. r.thing.id == id)
          (found_things (found origin rows) g.things),
      length-filter-found_things (found origin rows) id g.things,
    )),
    sort-IsOrdered nearest_first nearest_first-IsPreorder _,
  )

-- A greatest depth of 0, or no type, leaves no neighbour.
none-IsNeighbourhood :
    (g : Graph) (origin : ℕ) (types : List RelationshipType) (max_depth : ℕ)
    → ((n y : ℕ) → Walk g.relationships types origin n y → n ≤ max_depth → y ≡ origin)
    → IsNeighbourhood g origin types max_depth []
none-IsNeighbourhood g origin types max_depth h =
    (tt, (λ t n m other walk le. absurd (other (h n t.id walk le))), (λ id. omega arith), tt)

zero-stays :
    (rs : List RelationshipRecord) (types : List RelationshipType) (origin n y : ℕ)
    → Walk rs types origin n y
    → n ≤ 0
    → y ≡ origin
zero-stays rs types origin _ _ stay le = refl
zero-stays rs types origin _ _ (hop n x y w e) le = absurd (omega (arith, le))

some-IsNeighbourhood :
    (g : Graph) (id n : ℕ) (types : List RelationshipType)
    → (results : List RelatedThing) × (related g id (some types) (suc n) ≡ some results)
      × IsNeighbourhood g id types (min (suc n) max_related_depth) results
unfolding related
some-IsNeighbourhood g id n [] =
    ([], refl, none-IsNeighbourhood g id [] _ (λ m y w le. no_types-stays _ id m y w))
some-IsNeighbourhood g id n (type ∷ others) =
    let positive : 1 ≤ min (suc n) max_related_depth = ground arith in
    let e =
      rounds_end id (type ∷ others) (min (suc n) max_related_depth) g.relationships positive in
    (
      sort nearest_first (found_things (found id e.0) g.things),
      ap (results_of g id) e.1,
      answer-IsNeighbourhood g id (type ∷ others) _ positive e.0 e.1,
    )

-- For every Thing, choice of types (none: all of them) and depth, `related` returns, and its answer is
-- the neighbourhood up to the depth, or up to 5 where that is less: every Thing in it is another than
-- the origin, stands at the end of a walk of exactly the depth given for it, over edges of these types
-- in either direction, and of no shorter walk, and has one of these types; every Thing at the end of
-- a short enough walk is in it; no id is in it more often than in the table; and it is ordered by
-- depth, then by title.
pub related-IsNeighbourhood :
    (g : Graph) (thing_id : ℕ) (types : Option (List RelationshipType)) (depth : ℕ)
    → (results : List RelatedThing) × (related g thing_id types depth ≡ some results)
      × IsNeighbourhood g thing_id (wanted types) (min depth max_related_depth) results
unfolding related
related-IsNeighbourhood g id types zero = (
  [],
  refl,
  none-IsNeighbourhood g id (wanted types) _
      (λ n y w le. zero-stays _ _ id n y w (ground (arith, le))),
)
related-IsNeighbourhood g id types (suc n) = some-IsNeighbourhood g id n (wanted types)
