-- ===== src/Queries/Related/Rounds.antt =====
-- The rounds of the recursive walk end, and their rows are the shortest walks.
pub mod Walks
use reli.Prelude.{
  ℕ, zero, suc, ◌+◌, ◌-◌, ◌≤◌, ◌<◌, ◌≡◌, ◌≢◌, refl, sym, ap, subst, Bool, true, false, ◌&&◌, ◌||◌,
  not, Option, none, some, List, [], ◌∷◌, ◌++◌, map, arith, ◌==◌, ℕ_equals, eq_of_equals, any,
  filter, contains, contains-append, All, All-append, All-mono, In, In-append_left, In-append_right,
  In-append, In-filter, In-map, In-any, any-In, All-In, In-All, ◌⊎◌, inl, inr, Bool-cases,
  Option-cases, ltb, leb, if◌then◌else◌,
}
use reli.DbModels.{RelationshipRecord, RelationshipType, RelationshipType_equals}
use reli.Queries.Tree.{touches}
use reli.Queries.Related.{
  WalkRow, far_end, is_first, first_row, first_rows, is_next, next_row, next_rows, rounds,
}

-- An edge of one of these types joins the two, in either direction.
abbrev pub is_link : List RelationshipType → ℕ → ℕ → RelationshipRecord → Bool
is_link types x y r =
    contains r.relationship_type types
    && (r.source_thing_id == x && r.target_thing_id == y
        || r.source_thing_id == y && r.target_thing_id == x)

-- A walk of this many hops to this Thing.
pub data Walk (rs : List RelationshipRecord) (types : List RelationshipType) (origin : ℕ)
    : ℕ → ℕ → Type 0 where
  stay : Walk rs types origin 0 origin
  hop :
      (n x y : ℕ)
      → Walk rs types origin n x
      → any (is_link types x y) rs ≡ true
      → Walk rs types origin (suc n) y

pub is_link-far_end :
    (types : List RelationshipType) (x : ℕ) (r : RelationshipRecord)
    → touches x r ≡ true
    → contains r.relationship_type types ≡ true
    → is_link types x (far_end x r) r ≡ true
is_link-far_end types x r h t = ground (arith, h, t)

pub far_end-is_link :
    (types : List RelationshipType) (x y : ℕ) (r : RelationshipRecord)
    → is_link types x y r ≡ true
    → (far_end x r ≡ y) × (touches x r ≡ true) × (contains r.relationship_type types ≡ true)
far_end-is_link types x y r h = (ground (arith, h), ground (arith, h), ground (arith, h))

module _ (origin : ℕ) (types : List RelationshipType) (max_depth : ℕ)
    (rs : List RelationshipRecord) where
  abbrev next : WalkRow → RelationshipRecord → WalkRow
  next = next_row origin types max_depth rs

  abbrev is_taken : WalkRow → RelationshipRecord → Bool
  is_taken = is_next origin types max_depth rs

  abbrev all_next : List WalkRow → List WalkRow
  all_next = next_rows origin types max_depth rs

  abbrev run_rounds : ℕ → List WalkRow → Option (List WalkRow)
  run_rounds = rounds origin types max_depth rs

  pub All-map-filter :
      (P : WalkRow → Type 0) (f : RelationshipRecord → WalkRow) (p : RelationshipRecord → Bool)
      (es : List RelationshipRecord)
      → ((r : RelationshipRecord) → In r es → p r ≡ true → P (f r))
      → All P (map f (filter p es))
  All-map-filter P f p [] h = tt
  All-map-filter P f p (r ∷ es) h = elim (Bool-cases (p r)) [
    | inl e ↦ rw e (h r (inl refl) e, All-map-filter P f p es (λ q k. h q (inr k)))
    | inr e ↦ rw e (All-map-filter P f p es (λ q k. h q (inr k)))
  ]

  -- What an extension of a row keeps.
  abbrev IsKept : (WalkRow → Type 0) → Type 0
  IsKept P =
      (w : WalkRow) (r : RelationshipRecord) → P w → In r rs → is_taken w r ≡ true → P (next w r)

  pub All-next_rows :
      (P Q : WalkRow → Type 0) (ws : List WalkRow)
      → ((w : WalkRow) (r : RelationshipRecord)
          → P w
          → In r rs
          → is_taken w r ≡ true
          → Q (next w r))
      → All P ws
      → All Q (all_next ws)
  All-next_rows P Q [] k h = tt
  All-next_rows P Q (w ∷ ws) k h =
      All-append Q _ _ (All-map-filter Q (next w) (is_taken w) rs (λ r. k w r h.0))
        (All-next_rows P Q ws k h.1)

  In-next_rows :
      (w : WalkRow) (r : RelationshipRecord) (ws : List WalkRow)
      → In w ws
      → In r rs
      → is_taken w r ≡ true
      → In (next w r) (all_next ws)
  In-next_rows w r [] h m e = absurd h
  In-next_rows w r (v ∷ ws) (inl k) m e = In-append_left _ _ _ (
      subst (λ u. In (next w r) (map (next u) (filter (is_taken u) rs))) (sym k)
        (In-map (next w) r _ (In-filter (is_taken w) r rs m e)))
  In-next_rows w r (v ∷ ws) (inr h) m e = In-append_right _ _ _ (In-next_rows w r ws h m e)

  -- A round that goes on has the rows of the next one below it.
  pub rounds-suc :
      (fuel : ℕ) (w : WalkRow) (ws rows : List WalkRow)
      → run_rounds (suc fuel) (w ∷ ws) ≡ some rows
      → (rest : List WalkRow) × (run_rounds fuel (all_next (w ∷ ws)) ≡ some rest)
        × (rows ≡ (w ∷ ws) ++ rest)
  unfolding rounds
  rounds-suc fuel w ws rows h = elim (Option-cases (run_rounds fuel (all_next (w ∷ ws)))) [
    | inl e ↦ absurd (ground (arith, h, e))
    | inr (rest, e) ↦ (rest, e, ground (arith, h, e))
  ]

  pub rounds-In :
      (fuel : ℕ) (ws rows : List WalkRow)
      → run_rounds fuel ws ≡ some rows
      → (w : WalkRow) → In w ws
      → In w rows
  unfolding rounds
  rounds-In fuel [] rows e w h = absurd h
  rounds-In zero (v ∷ ws) rows e w h = absurd (ground (arith, e))
  rounds-In (suc fuel) (v ∷ ws) rows e w h =
      let r = rounds-suc fuel v ws rows e in
      subst (In w) (sym r.2) (In-append_left w (v ∷ ws) r.0 h)

  pub rounds-All :
      (P : WalkRow → Type 0) (fuel : ℕ) (ws rows : List WalkRow)
      → run_rounds fuel ws ≡ some rows
      → IsKept P
      → All P ws
      → All P rows
  unfolding rounds
  rounds-All P zero [] rows e k h = ground (arith, e)
  rounds-All P (suc fuel) [] rows e k h = ground (arith, e)
  rounds-All P zero (v ∷ ws) rows e k h = absurd (ground (arith, e))
  rounds-All P (suc fuel) (v ∷ ws) rows e k h =
      let r = rounds-suc fuel v ws rows e in
      subst (All P) (sym r.2) (
        All-append P (v ∷ ws) r.0 h
          (rounds-All P fuel (all_next (v ∷ ws)) r.0 r.1 k (All-next_rows P P (v ∷ ws) k h)))

  -- The rows are closed under the step.
  pub rounds-closed :
      (fuel : ℕ) (ws rows : List WalkRow)
      → run_rounds fuel ws ≡ some rows
      → (w : WalkRow) (r : RelationshipRecord) → In w rows
      → In r rs
      → is_taken w r ≡ true
      → In (next w r) rows
  unfolding rounds
  rounds-closed zero [] rows e w r h m t = absurd (subst (In w) {y = []} (ground (arith, e)) h)
  rounds-closed (suc fuel) [] rows e w r h m t =
      absurd (subst (In w) {y = []} (ground (arith, e)) h)
  rounds-closed zero (v ∷ ws) rows e w r h m t = absurd (ground (arith, e))
  rounds-closed (suc fuel) (v ∷ ws) rows e w r h m t =
      let k = rounds-suc fuel v ws rows e in
      subst (In (next w r)) (sym k.2) (
        In-append_right _ (v ∷ ws) k.0 (elim (In-append w (v ∷ ws) k.0 (subst (In w) k.2 h)) [
          | inl a ↦ rounds-In fuel _ k.0 k.1 _ (In-next_rows w r (v ∷ ws) a m t)
          | inr b ↦ rounds-closed fuel _ k.0 k.1 w r b m t
        ]))
