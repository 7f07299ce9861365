-- ===== src/Spec/Invariants/Acyclic.antt =====
-- No Thing is its own ancestor in the ChildOf tree.
use reli.Prelude.{
  ℕ, ◌≡◌, true, false, ◌⊎◌, inl, inr, List, [], ◌∷◌, ◌++◌, arith, ◌==◌, ℕ_equals, any-append, sym,
  subst, Bool-cases,
}
use reli.DbModels.{RelationshipRecord, RelationshipType_equals, same_type_iff, child_of, Actor}
use reli.Database.Tables.{Rows, Graph, has_edge, joins, remove_relationship}
use reli.Service.ChildOf.{child_of_reaches}
use reli.Service.ChildOf.Exact.{Below, here, down, child_of_reaches_iff}
use reli.Spec.Step.{Step, Admissible, created, updated, related, unrelated}

-- No Thing stands below one of its own children.
abbrev pub IsAcyclic : List RelationshipRecord → Type 0
IsAcyclic rs = (x y : ℕ) → has_edge x y child_of rs ≡ true → ¬ Below rs y x

Below-mono :
    (rs ss : List RelationshipRecord)
    → ((x y : ℕ) → has_edge x y child_of rs ≡ true → has_edge x y child_of ss ≡ true)
    → (x y : ℕ) → Below rs x y
    → Below ss x y
Below-mono rs ss sub x y here = here
Below-mono rs ss sub x z (down y z' b e) = down y z (Below-mono rs ss sub x y b) (sub y z e)

Below-trans :
    (rs : List RelationshipRecord) (x y z : ℕ) → Below rs x y → Below rs y z → Below rs x z
Below-trans rs x y z p here = p
Below-trans rs x y w p (down z w' q e) = down z w (Below-trans rs x y z p q) e

-- An edge among the edges with one more is an old one or the new one.
has_edge-append :
    (rs : List RelationshipRecord) (r : RelationshipRecord) (x y : ℕ)
    → has_edge x y child_of (rs ++ r ∷ []) ≡ true
    → (has_edge x y child_of rs ≡ true)
      ⊎ ((x ≡ r.source_thing_id) × (y ≡ r.target_thing_id) × (r.relationship_type ≡ child_of))
has_edge-append rs r x y e = ground (arith, any-append (joins x y child_of) rs (r ∷ []))

-- A way down through the edges with one more is an old way, or passes the new edge for the last time.
Below-append :
    (rs : List RelationshipRecord) (r : RelationshipRecord) (x y : ℕ)
    → Below (rs ++ r ∷ []) x y
    → Below rs x y ⊎ (Below rs x r.source_thing_id × Below rs r.target_thing_id y)
Below-append rs r x y here = inl here
Below-append rs r x z (down y z' b e) =
    extend (Below-append rs r x y b) (has_edge-append rs r y z e)
  where
    extend :
        Below rs x y ⊎ (Below rs x r.source_thing_id × Below rs r.target_thing_id y)
        → (has_edge y z child_of rs ≡ true)
          ⊎ ((y ≡ r.source_thing_id) × (z ≡ r.target_thing_id) × (r.relationship_type ≡ child_of))
        → Below rs x z ⊎ (Below rs x r.source_thing_id × Below rs r.target_thing_id z)
    extend (inl p) (inl old) = inl (down y z p old)
    extend (inr (p, q)) (inl old) = inr (p, down y z q old)
    extend (inl p) (inr (ey, ez, _)) =
        inr (subst (Below rs x) ey p, subst (Below rs r.target_thing_id) (sym ez) here)
    extend (inr (p, q)) (inr (ey, ez, _)) =
        inr (p, subst (Below rs r.target_thing_id) (sym ez) here)

IsAcyclic-child :
    (rs : List RelationshipRecord) (r : RelationshipRecord)
    → child_of_reaches rs r.target_thing_id r.source_thing_id ≡ false
    → IsAcyclic rs
    → IsAcyclic (rs ++ r ∷ [])
IsAcyclic-child rs r apart acyclic x y e b =
    closes (has_edge-append rs r x y e) (Below-append rs r y x b)
  where
    no_way : ¬ Below rs r.target_thing_id r.source_thing_id
    no_way w = cc ((child_of_reaches_iff rs r.target_thing_id r.source_thing_id).1 w)

    closes :
        (has_edge x y child_of rs ≡ true)
          ⊎ ((x ≡ r.source_thing_id) × (y ≡ r.target_thing_id) × (r.relationship_type ≡ child_of))
        → Below rs y x ⊎ (Below rs y r.source_thing_id × Below rs r.target_thing_id x)
        → ⊥
    closes (inl old) (inl p) = acyclic x y old p
    closes (inl old) (inr (p, q)) = no_way (Below-trans rs _ y _ (down x y q old) p)
    closes (inr (ex, ey, _)) (inl p) =
        no_way (subst (Below rs _) ex (subst (λ z. Below rs z x) ey p))
    closes (inr (ex, ey, _)) (inr (p, q)) = no_way (subst (λ z. Below rs z r.source_thing_id) ey p)

-- Fewer edges have no more cycles.
IsAcyclic-mono :
    (rs ss : List RelationshipRecord)
    → ((x y : ℕ) → has_edge x y child_of ss ≡ true → has_edge x y child_of rs ≡ true)
    → IsAcyclic rs
    → IsAcyclic ss
IsAcyclic-mono rs ss sub acyclic x y e b = acyclic x y (sub x y e) (Below-mono ss rs sub y x b)

has_edge-remove :
    (id x y : ℕ) (rs : List RelationshipRecord)
    → has_edge x y child_of (remove_relationship id rs) ≡ true
    → has_edge x y child_of rs ≡ true
has_edge-remove id x y [] e = e
has_edge-remove id x y (r ∷ rs) e = ground (arith, has_edge-remove id x y rs)

IsAcyclic-append :
    (rows : Rows) (r : RelationshipRecord)
    → Admissible rows r
    → IsAcyclic rows.relationships
    → IsAcyclic (rows.relationships ++ r ∷ [])
IsAcyclic-append rows r a acyclic = elim (Bool-cases (r.relationship_type == child_of)) [
  | inl tree ↦
      IsAcyclic-child rows.relationships r (a.no_cycle ((same_type_iff _ _).0 tree)) acyclic
  | inr other ↦
      IsAcyclic-mono rows.relationships _
        (λ x y e. ground (arith, has_edge-append rows.relationships r x y e)) acyclic
]

pub Step-IsAcyclic :
    {actor : Actor} (g h : Graph)
    → Step actor g h
    → IsAcyclic g.relationships
    → IsAcyclic h.relationships
Step-IsAcyclic g h (created _ t e fresh r) p = p
Step-IsAcyclic g h (updated _ before t e there u r) p = p
Step-IsAcyclic g h (related _ x e a r) p = IsAcyclic-append g.rows x a p
Step-IsAcyclic g h (unrelated _ x e there r) p =
    IsAcyclic-mono g.relationships _ (λ x' y. has_edge-remove x.id x' y g.relationships) p
