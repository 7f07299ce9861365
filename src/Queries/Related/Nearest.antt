-- ===== src/Queries/Related/Nearest.antt =====
-- The nearest row of a Thing, the Things that have one, and the order of the answer.
use reli.Prelude.{
  ℕ, ◌≤◌, ◌≡◌, refl, sym, ap, subst, true, false, Option, none, some, List, [], ◌∷◌, arith, ◌==◌,
  ℕ_equals, eq_of_equals, filter, length, All, All-mono, In, inl, inr, Bool-cases, Option-cases,
  leb, if◌then◌else◌, text_le_total, text_le_trans, IsPreorder,
}
use reli.DbModels.{ThingRecord, RelationshipType_equals}
use reli.Queries.Related.{WalkRow, nearer, nearest_row, found_things, RelatedThing, nearest_first}

abbrev pub IsNearest : ℕ → List WalkRow → Option WalkRow → Type 0
IsNearest id ws none = All (λ v. (v.thing_id == id) ≡ false) ws
IsNearest id ws (some w) =
    In w ws × (w.thing_id ≡ id) × All (λ v. (v.thing_id == id) ≡ true → w.depth ≤ v.depth) ws

IsNearest-cons :
    (id : ℕ) (w : WalkRow) (ws : List WalkRow) (rest : Option WalkRow)
    → IsNearest id ws rest
    → IsNearest id (w ∷ ws) (if w.thing_id == id then some (nearer w rest) else rest)
IsNearest-cons id w ws none h = elim (Bool-cases (w.thing_id == id)) [
  | inl e ↦ rw e (
    inl refl,
    eq_of_equals w.thing_id id e,
    ((λ _. omega arith), All-mono _ _ (λ v k t. absurd (ground (arith, k, t))) ws h),
  )
  | inr e ↦ rw e (e, h)
]
IsNearest-cons id w ws (some v) h = elim (Bool-cases (w.thing_id == id)) [
  | inl e ↦ rw e (elim (Bool-cases (leb w.depth v.depth)) [
    | inl le ↦
        subst (λ u. IsNearest id (w ∷ ws) (some u)) {y = nearer w (some v)} (ground (arith, le))
          (
            inl refl,
            eq_of_equals w.thing_id id e,
            ((λ _. omega arith), All-mono _ _ (λ u k t. ground (arith, le, k t)) ws h.2),
          )
    | inr gt ↦
        subst (λ u. IsNearest id (w ∷ ws) (some u)) {y = nearer w (some v)} (ground (arith, gt))
          (inr h.0, h.1, ((λ _. ground (arith, gt)), h.2))
  ])
  | inr e ↦ rw e (inr h.0, h.1, ((λ t. absurd (ground (arith, e, t))), h.2))
]

pub nearest_row-IsNearest : (id : ℕ) (ws : List WalkRow) → IsNearest id ws (nearest_row id ws)
nearest_row-IsNearest id [] = tt
nearest_row-IsNearest id (w ∷ ws) =
    IsNearest-cons id w ws (nearest_row id ws) (nearest_row-IsNearest id ws)

abbrev pub answer : ThingRecord → WalkRow → RelatedThing
answer t w = record { thing = t; depth = w.depth; relationship_type = w.relationship_type }

module _ (row_of : ℕ → Option WalkRow) where
  pub found_things-All :
      (P : RelatedThing → Type 0) (ts : List ThingRecord)
      → ((t : ThingRecord) (w : WalkRow) → In t ts → row_of t.id ≡ some w → P (answer t w))
      → All P (found_things row_of ts)
  found_things-All P [] f = tt
  found_things-All P (t ∷ ts) f = elim (Option-cases (row_of t.id)) [
    | inl e ↦ rw (All, e) (found_things-All P ts (λ s w m. f s w (inr m)))
    | inr (w, e) ↦ rw (All, e) (f t w (inl refl) e, found_things-All P ts (λ s v m. f s v (inr m)))
  ]

  pub found_things-In :
      (t : ThingRecord) (w : WalkRow) (ts : List ThingRecord)
      → In t ts
      → row_of t.id ≡ some w
      → In (answer t w) (found_things row_of ts)
  found_things-In t w [] h e = absurd h
  found_things-In t w (s ∷ ts) (inl k) e =
      rw (In, subst (λ u. row_of u.id ≡ some w) (sym k) e) (inl (ap (λ u. answer u w) k))
  found_things-In t w (s ∷ ts) (inr h) e = elim (Option-cases (row_of s.id)) [
    | inl f ↦ rw (In, f) (found_things-In t w ts h e)
    | inr (v, f) ↦ rw (In, f) (inr (found_things-In t w ts h e))
  ]

  pub length-filter-found_things :
      (id : ℕ) (ts : List ThingRecord)
      → length (filter (λ r. r.thing.id == id) (found_things row_of ts))
        ≤ length (filter (λ t. t.id == id) ts)
  length-filter-found_things id [] = omega arith
  length-filter-found_things id (t ∷ ts) = elim (Option-cases (row_of t.id)) [
    | inl e ↦ ground (arith, e, length-filter-found_things id ts)
    | inr (w, e) ↦ ground (arith, e, length-filter-found_things id ts)
  ]

pub nearest_first-IsPreorder : IsPreorder nearest_first
nearest_first-IsPreorder = record {
  total = λ a b. ground (arith, text_le_total a.thing.title b.thing.title);
  trans =
      λ a b c h k. ground (arith, h, k, text_le_trans a.thing.title b.thing.title c.thing.title);
}
