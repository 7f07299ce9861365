-- ===== src/Queries/Tree/Counts.antt =====
-- The number of children that a node of the tree shows.
use reli.Prelude.{
  ℕ, ◌≡◌, inl, inr, refl, ap, subst, Bool, true, false, ◌&&◌, some, List, [], ◌∷◌, map, arith, ◌==◌,
  ℕ_equals, eq_of_equals, length, length-map, length-sort, filter, contains, In, In-map, map-In,
  filter-In, In-filter, In-any, any-In, contains-In, Bool-cases, ltb, if◌then◌else◌, IsDistinct,
  IsDistinct-le,
}
use reli.DbModels.{ThingRecord, RelationshipRecord, RelationshipType_equals}
use reli.Database.Tables.{Graph, has_thing}
use reli.Spec.Invariants.Keys.{ThingKeys}
use reli.Queries.Order.{Collation, priority_then_title}
use reli.Queries.Tree.{
  distinct, is_child_edge, is_active_child_edge, active_child_count, get_count, is_shown, stands_at,
  level_things,
}

pub In-distinct : (a : ℕ) (xs : List ℕ) → In a xs → In a (distinct xs)
In-distinct a [] h = absurd h
In-distinct a (x ∷ xs) (inl e) = elim (Bool-cases (contains x (distinct xs))) [
  | inl t ↦ rw t (subst (λ y. In y (distinct xs)) e (contains-In x _ t))
  | inr f ↦ rw f (inl e)
]
In-distinct a (x ∷ xs) (inr m) = elim (Bool-cases (contains x (distinct xs))) [
  | inl t ↦ rw t (In-distinct a xs m)
  | inr f ↦ rw f (inr (In-distinct a xs m))
]

distinct-In : (a : ℕ) (xs : List ℕ) → In a (distinct xs) → In a xs
distinct-In a [] h = absurd h
distinct-In a (x ∷ xs) h = split (distinct-In a xs) (contains x (distinct xs)) h
  where
    split :
        (In a (distinct xs) → In a xs)
        → (b : Bool) → In a (if b then distinct xs else x ∷ distinct xs)
        → In a (x ∷ xs)
    split rest true k = inr (rest k)
    split rest false (inl e) = inl e
    split rest false (inr k) = inr (rest k)

distinct-IsDistinct : (xs : List ℕ) → IsDistinct (distinct xs)
distinct-IsDistinct [] = tt
distinct-IsDistinct (x ∷ xs) = elim (Bool-cases (contains x (distinct xs))) [
  | inl t ↦ rw t (distinct-IsDistinct xs)
  | inr f ↦ rw f (f, distinct-IsDistinct xs)
]

-- `counts.get(id, 0)` on the groups that have an active child.
pub get_count-map :
    (f : ℕ → ℕ) (id : ℕ) (ids : List ℕ)
    → get_count id (map (λ i. (i, f i)) (filter (λ i. ltb 0 (f i)) ids))
      ≡ (if contains id ids then f id else 0)
get_count-map f id [] = refl
get_count-map f id (i ∷ ids) = elim (Bool-cases (i == id)) [
  | inl e ↦ ground (arith, get_count-map f id ids, e, ap f (eq_of_equals i id e))
  | inr e ↦ ground (arith, get_count-map f id ids, e)
]

-- An id that no Thing has is not the id of one of some of the Things.
fresh-contains :
    (id : ℕ) (p : ThingRecord → Bool) (ts : List ThingRecord)
    → has_thing id ts ≡ false
    → contains id (map (λ t. t.id) (filter p ts)) ≡ false
fresh-contains id p [] h = refl
fresh-contains id p (t ∷ ts) h = elim (Bool-cases (p t)) [
  | inl e ↦ ground (arith, e, h, fresh-contains id p ts)
  | inr e ↦ ground (arith, e, h, fresh-contains id p ts)
]

-- The ids of some of the Things are distinct, as those of all of them are.
filter-ids-IsDistinct :
    (p : ThingRecord → Bool) (ts : List ThingRecord)
    → ThingKeys ts
    → IsDistinct (map (λ t. t.id) (filter p ts))
filter-ids-IsDistinct p [] k = tt
filter-ids-IsDistinct p (t ∷ ts) k = elim (Bool-cases (p t)) [
  | inl e ↦ rw e (fresh-contains t.id p ts k.0, filter-ids-IsDistinct p ts k.1)
  | inr e ↦ rw e (filter-ids-IsDistinct p ts k.1)
]

module _ (g : Graph) (parent : ℕ) where
  abbrev targets : List ℕ
  targets =
      map (λ r. r.target_thing_id) (filter (is_active_child_edge g.things parent) g.relationships)

  abbrev child_ids : List ℕ
  child_ids = distinct targets

  abbrev is_active_child : ThingRecord → Bool
  is_active_child row = is_shown [] row && stands_at g (some parent) row

  child_id-In :
      (id : ℕ) → In id child_ids → In id (map (λ t. t.id) (filter is_active_child g.things))
  child_id-In id h =
      let (r, m, same) =
        map-In (λ (r : RelationshipRecord). r.target_thing_id) id
          (filter (is_active_child_edge g.things parent) g.relationships)
          (distinct-In id targets h) in
      let (mr, e) = filter-In (is_active_child_edge g.things parent) r g.relationships m in
      let (t, mt, there) =
        In-any (λ (t : ThingRecord). t.id == r.target_thing_id && t.active) g.things
          (ground (arith, e)) in
      subst (λ i. In i (map (λ t. t.id) (filter is_active_child g.things))) {x = t.id}
        (ground (arith, there, same))
        (In-map (λ t. t.id) t _
          (In-filter is_active_child t g.things mt (
            ground (
              arith,
              e,
              there,
              any-In (is_child_edge parent t) r g.relationships mr (ground (arith, e, there)),
            ))))

  In-child_ids :
      (id : ℕ) → In id (map (λ t. t.id) (filter is_active_child g.things)) → In id child_ids
  In-child_ids id h =
      let (t, m, same) =
        map-In (λ (t : ThingRecord). t.id) id (filter is_active_child g.things) h in
      let (mt, e) = filter-In is_active_child t g.things m in
      let (r, mr, there) = In-any (is_child_edge parent t) g.relationships (ground (arith, e)) in
      subst (λ i. In i child_ids) {x = r.target_thing_id} (ground (arith, there, same))
        (In-distinct _ _ (
          In-map (λ r. r.target_thing_id) r _
            (In-filter (is_active_child_edge g.things parent) r g.relationships mr (
              ground (
                arith,
                there,
                any-In (λ (t : ThingRecord). t.id == r.target_thing_id && t.active) t g.things mt
                    (ground (arith, e, there)),
              )))))

  pub active_child_count_lem :
      (c : Collation)
      → ThingKeys g.things
      → active_child_count g parent ≡ length (level_things c g (some parent) [])
  active_child_count_lem c k =
      let ids = map (λ (t : ThingRecord). t.id) (filter is_active_child g.things) in
      ground (
        arith,
        IsDistinct-le child_ids ids (distinct-IsDistinct targets) child_id-In,
        IsDistinct-le ids child_ids (filter-ids-IsDistinct is_active_child g.things k) In-child_ids,
        length-map (λ (t : ThingRecord). t.id) (filter is_active_child g.things),
        length-sort (priority_then_title c) (filter is_active_child g.things),
      )
