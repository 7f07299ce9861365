-- ===== src/Queries/Related/Rounds/Walks.antt =====
-- The rounds end by the greatest depth, and every walk of at most that length has a row as near.
use reli.Prelude.{
  ℕ, zero, suc, ◌+◌, ◌≤◌, ◌≡◌, refl, sym, subst, true, false, some, List, [], ◌∷◌, ◌++◌, arith,
  ℕ_equals, any, contains, contains-append, All, In, In-filter, In-map, In-any, any-In, All-In,
  In-All, ◌⊎◌, inl, inr, Bool-cases,
}
use reli.DbModels.{RelationshipRecord, RelationshipType, RelationshipType_equals}
use reli.Queries.Tree.{touches}
use reli.Queries.Related.{
  WalkRow, far_end, is_first, first_row, first_rows, next_row, next_rows, rounds,
}
use reli.Queries.Related.Rounds.{
  Walk, stay, hop, is_link, is_link-far_end, far_end-is_link, All-map-filter, All-next_rows,
  rounds-In, rounds-All, rounds-closed,
}

module _ (origin : ℕ) (types : List RelationshipType) (max_depth : ℕ)
    (rs : List RelationshipRecord) where
  abbrev At : ℕ → WalkRow → Type 0
  At d w = (w.depth ≡ d) × (d ≤ max_depth)

  rounds-ends :
      (fuel d : ℕ) (ws : List WalkRow)
      → All (At d) ws
      → d + fuel ≡ suc max_depth
      → (rows : List WalkRow) × (rounds origin types max_depth rs fuel ws ≡ some rows)
  unfolding rounds
  rounds-ends zero d [] h e = ([], refl)
  rounds-ends (suc fuel) d [] h e = ([], refl)
  rounds-ends zero d (w ∷ ws) h e = absurd (omega (arith, h.0.1, e))
  rounds-ends (suc fuel) d (w ∷ ws) h e =
      let next =
        rounds-ends fuel (suc d) (next_rows origin types max_depth rs (w ∷ ws))
          (All-next_rows origin types max_depth rs (At d) (At (suc d)) (w ∷ ws)
            (λ v r a _ t. (ground (arith, a.0), ground (arith, a.0, t))) h)
          (omega (arith, e)) in
      rw next.1 ((w ∷ ws) ++ next.0, refl)

  -- For every origin, choice of types and edges, and every positive greatest depth, the recursive query
  -- ends: as many rounds as the greatest depth find its rows.
  pub rounds_end :
      1 ≤ max_depth
      → (rows : List WalkRow) × (rounds origin types max_depth rs max_depth
            (first_rows origin types max_depth rs)
          ≡ some rows)
  rounds_end h =
      rounds-ends max_depth 1 (first_rows origin types max_depth rs)
        (All-map-filter origin types max_depth rs (At 1) _ _ rs (λ r _ _. (refl, h))) (omega arith)

  module _ (rows : List WalkRow)
      (run : rounds origin types max_depth rs max_depth (first_rows origin types max_depth rs)
        ≡ some rows)
      (positive : 1 ≤ max_depth) where
    abbrev pub IsWalk : WalkRow → Type 0
    IsWalk w =
        (1 ≤ w.depth)
        × (w.depth ≤ max_depth)
        × Walk rs types origin w.depth w.thing_id
        × (contains w.relationship_type types ≡ true)

    link_of :
        (x : ℕ) (r : RelationshipRecord)
        → In r rs
        → touches x r ≡ true
        → contains r.relationship_type types ≡ true
        → any (is_link types x (far_end x r)) rs ≡ true
    link_of x r m h t =
        any-In (is_link types x (far_end x r)) r rs m (is_link-far_end types x r h t)

    first_rows-All :
        (P : WalkRow → Type 0)
        → ((r : RelationshipRecord)
            → In r rs
            → touches origin r ≡ true
            → contains r.relationship_type types ≡ true
            → P (first_row origin types max_depth rs r))
        → All P (first_rows origin types max_depth rs)
    first_rows-All P f =
        All-map-filter origin types max_depth rs P _ _ rs
          (λ r m e. f r m (ground (arith, e)) (ground (arith, e)))

    pub rows-IsWalk : All IsWalk rows
    rows-IsWalk =
        rounds-All origin types max_depth rs IsWalk max_depth _ rows run
          (λ w r a m t. (
            omega arith,
            ground (arith, t),
            subst (λ n. Walk rs types origin n (far_end w.thing_id r)) (omega arith)
                (hop w.depth w.thing_id (far_end w.thing_id r) a.2
                  (link_of w.thing_id r m (ground (arith, t)) (ground (arith, t)))),
            ground (arith, t),
          ))
          (first_rows-All IsWalk (λ r m h t. (
            omega arith,
            positive,
            hop 0 origin (far_end origin r) stay (link_of origin r m h t),
            t,
          )))

    -- A row for this Thing at a smaller depth.
    abbrev pub Nearer : ℕ → ℕ → Type 0
    Nearer n x = (v : WalkRow) × In v rows × (v.thing_id ≡ x) × (v.depth ≤ n)

    abbrev HasPath : WalkRow → Type 0
    HasPath w = In w rows × ((x : ℕ) → contains x w.path ≡ true → (x ≡ origin) ⊎ Nearer w.depth x)

    rows-HasPath : All HasPath rows
    rows-HasPath =
        rounds-All origin types max_depth rs HasPath max_depth _ rows run
          (λ w r a m t. (
            rounds-closed origin types max_depth rs max_depth _ rows run w r a.0 m t,
            λ x c. elim (Bool-cases (contains x w.path)) [
              | inl old ↦ elim (a.1 x old) [
                | inl e ↦ inl e
                | inr k ↦ inr (k.0, k.1, k.2, omega (arith, k.3))
              ]
              | inr new ↦ inr (
                w,
                a.0,
                ground (arith, c, new, contains-append x w.path (w.thing_id ∷ [])),
                omega arith,
              )
            ],
          ))
          (All-In HasPath _ (λ w m. (
            rounds-In origin types max_depth rs max_depth _ rows run w m,
            λ x c. inl (
                ground (
                  arith,
                  c,
                  In-All (λ v. v.path ≡ origin ∷ []) w _ (first_rows-All _ (λ _ _ _ _. refl)) m,
                )),
          )))

    first-Nearer :
        (x y : ℕ) (r : RelationshipRecord)
        → In r rs
        → is_link types x y r ≡ true
        → x ≡ origin
        → Nearer 1 y
    first-Nearer x y r m e o =
        let f = far_end-is_link types origin y r (subst (λ z. is_link types z y r ≡ true) o e) in
        (
          first_row origin types max_depth rs r,
          rounds-In origin types max_depth rs max_depth _ rows run _ (
              In-map (first_row origin types max_depth rs) r _
                (In-filter (is_first origin types max_depth rs) r rs m (ground (arith, f.1, f.2)))),
          f.0,
          omega arith,
        )

    next-Nearer :
        (n x y : ℕ) (r : RelationshipRecord)
        → In r rs
        → is_link types x y r ≡ true
        → suc n ≤ max_depth
        → Nearer n x
        → (y ≡ origin) ⊎ Nearer (suc n) y
    next-Nearer n x y r m e le (v, k, id, d) =
        let f =
          far_end-is_link types v.thing_id y r
            (subst (λ z. is_link types z y r ≡ true) (sym id) e) in
        elim (Bool-cases (contains y v.path)) [
          | inl old ↦ elim ((In-All HasPath v rows rows-HasPath k).1 y old) [
            | inl o ↦ inl o
            | inr near ↦ inr (near.0, near.1, near.2, omega (arith, near.3, d))
          ]
          | inr new ↦ inr (
            next_row origin types max_depth rs v r,
            rounds-closed origin types max_depth rs max_depth _ rows run v r k m (
                ground
                  (arith, f.1, f.2, d, le, subst (λ z. contains z v.path ≡ false) (sym f.0) new)),
            f.0,
            omega (arith, d),
          )
        ]

    -- A walk that is not longer than the greatest depth has a row as near.
    pub near_row : (n y : ℕ) → Walk rs types origin n y → n ≤ max_depth → (y ≡ origin) ⊎ Nearer n y
    near_row _ _ stay le = inl refl
    near_row _ _ (hop n x y w e) le =
        let edge = In-any (is_link types x y) rs e in
        elim (near_row n x w (omega (arith, le))) [
          | inl o ↦
              let near = first-Nearer x y edge.0 edge.1 edge.2 o in
              inr (near.0, near.1, near.2, omega (arith, near.3))
          | inr k ↦ next-Nearer n x y edge.0 edge.1 edge.2 le k
        ]
