-- ===== src/Queries/Tree/Levels.antt =====
-- What a level of the tree shows, and what its counts promise.
use reli.Prelude.{
  ℕ, ◌≡◌, ◌↔◌, inl, inr, refl, sym, ap, subst, true, ◌&&◌, Option, none, some, List, [], ◌∷◌, map,
  arith, ◌==◌, ℕ_equals, String, length, length-map, any, All, In, In-map, In-any, any-In,
  In-contains, Bool-cases,
}
use reli.DbModels.{
  ThingRecord, RelationshipRecord, RelationshipType_equals, same_type_iff, child_of,
}
use reli.Database.Tables.{Graph}
use reli.Spec.Invariants.Keys.{ThingKeys}
use reli.Queries.Order.{Collation, priority_then_title, any_tag, tagged}
use reli.Queries.Standing.{is_active_thing}
use reli.Queries.Tree.{
  distinct, is_child_edge, is_claimed, active_child_count, active_child_counts, get_count, TreeNode,
  is_shown, stands_at, level_things, tree_level,
}
use reli.Queries.Tree.Counts.{active_child_count_lem, get_count-map, In-distinct}
use reli.Queries.Listing.{priority_then_title-IsPreorder}
use reli.Queries.Listing.Filtered.{has_any_iff}
use reli.Queries.Listing.Standing.{Lists, sort-filter-Lists}

-- A ChildOf edge from this Thing to that one.
abbrev pub HasChild : Graph → ℕ → ℕ → Type 0
HasChild g parent child =
    (r : RelationshipRecord) × In r g.relationships
    × (r.source_thing_id ≡ parent)
    × (r.target_thing_id ≡ child)
    × (r.relationship_type ≡ child_of)

-- At the top stands what no active Thing has as a child; below a Thing, its children.
abbrev pub StandsAt : Graph → Option ℕ → ThingRecord → Type 0
StandsAt g none row = ¬ (
    (parent : ThingRecord) × In parent g.things
    × (parent.active ≡ true)
    × HasChild g parent.id row.id)
StandsAt g (some parent) row = HasChild g parent row.id

abbrev pub IsAt : Graph → Option ℕ → List String → ThingRecord → Type 0
IsAt g parent exclude_tags row =
    (row.active ≡ true)
    × ((tag : String) → In tag exclude_tags → ¬ In tag row.tags)
    × StandsAt g parent row

child_edge_iff :
    (g : Graph) (parent : ℕ) (row : ThingRecord)
    → (any (is_child_edge parent row) g.relationships ≡ true) ↔ HasChild g parent row.id
child_edge_iff g parent row = (
  (λ h.
      let (r, m, e) = In-any (is_child_edge parent row) g.relationships h in
      (
        r,
        m,
        ground (arith, e),
        ground (arith, e),
        (same_type_iff r.relationship_type child_of).0 (ground (arith, e)),
      )),
  λ (r, m, s, t, k).
      any-In (is_child_edge parent row) r g.relationships m
        (ground (arith, s, t, (same_type_iff r.relationship_type child_of).1 k)),
)

pub claimed_iff :
    (g : Graph) (row : ThingRecord)
    → (is_claimed g row ≡ true) ↔ (
        (parent : ThingRecord) × In parent g.things
        × (parent.active ≡ true)
        × HasChild g parent.id row.id)
claimed_iff g row = (
  (λ h.
      let (r, m, e) =
        In-any
          (λ (r : RelationshipRecord).
            r.target_thing_id == row.id
            && r.relationship_type == child_of
            && is_active_thing r.source_thing_id g.things)
          g.relationships h in
      let (p, mp, a) =
        In-any (λ (t : ThingRecord). t.id == r.source_thing_id && t.active) g.things
          (ground (arith, e)) in
      (
        p,
        mp,
        ground (arith, a),
        (
          r,
          m,
          ground (arith, a),
          ground (arith, e),
          (same_type_iff r.relationship_type child_of).0 (ground (arith, e)),
        ),
      )),
  λ (p, mp, a, (r, m, s, t, k)). any-In _ r g.relationships m (
      ground (
        arith,
        t,
        (same_type_iff r.relationship_type child_of).1 k,
        any-In (λ (t : ThingRecord). t.id == r.source_thing_id && t.active) p g.things mp
            (ground (arith, s, a)),
      )),
)

stands_at_iff :
    (g : Graph) (parent : Option ℕ) (row : ThingRecord)
    → (stands_at g parent row ≡ true) ↔ StandsAt g parent row
stands_at_iff g (some parent) row = child_edge_iff g parent row
stands_at_iff g none row = (
  (λ h k. ground (arith, h, (claimed_iff g row).1 k)),
  λ f. elim (Bool-cases (is_claimed g row)) [
    | inl e ↦ absurd (f ((claimed_iff g row).0 e))
    | inr e ↦ ground (arith, e)
  ],
)

level_row_iff :
    (g : Graph) (parent : Option ℕ) (exclude_tags : List String) (row : ThingRecord)
    → ((is_shown exclude_tags row && stands_at g parent row) ≡ true)
      ↔ IsAt g parent exclude_tags row
level_row_iff g parent exclude_tags row =
    let own = has_any_iff exclude_tags row.tags in
    let stands = stands_at_iff g parent row in
    (
      (λ h. (
        ground (arith, h),
        (λ tag m k. absurd (ground (arith, h, own.1 (tag, m, k)))),
        stands.0 (ground (arith, h)),
      )),
      λ (a, n, s). elim (Bool-cases (tagged exclude_tags any_tag row)) [
        | inl e ↦ let (tag, m, k) = own.0 e in absurd (n tag m k)
        | inr e ↦ ground (arith, a, stands.1 s, e)
      ],
    )

-- The nodes, and the Things of the nodes.
map-thing :
    (f : ThingRecord → ℕ) (ts : List ThingRecord)
    → map
        (λ (node : TreeNode). node.thing)
        (map (λ row. record { thing = row; child_count = f row }) ts)
      ≡ ts
map-thing f [] = refl
map-thing f (t ∷ ts) = ap (λ us. t ∷ us) (map-thing f ts)

All-map :
    (P : TreeNode → Type 0) (f : ThingRecord → ℕ) (ts : List ThingRecord)
    → ((t : ThingRecord) → In t ts → P (record { thing = t; child_count = f t }))
    → All P (map (λ row. record { thing = row; child_count = f row }) ts)
All-map P f [] h = tt
All-map P f (t ∷ ts) h = (h t (inl refl), All-map P f ts (λ s m. h s (inr m)))

length-level :
    (c : Collation) (g : Graph) (parent : ℕ)
    → length (tree_level c g (some parent) []) ≡ length (level_things c g (some parent) [])
unfolding tree_level
length-level c g parent = length-map _ (level_things c g (some parent) [])

-- Where ids of Things are unique: a level of the tree lists exactly the active Things without an
-- excluded tag that stand at it, by priority and then title; and the count of a node is the number of
-- nodes that its own level has when no tag is excluded.
pub tree_level_lem :
    (c : Collation) (g : Graph) (parent : Option ℕ) (exclude_tags : List String)
    → ThingKeys g.things
    → Lists
        (priority_then_title c)
        (IsAt g parent exclude_tags)
        g.things
        (map (λ node. node.thing) (tree_level c g parent exclude_tags))
      × All
          (λ node. node.child_count ≡ length (tree_level c g (some node.thing.id) []))
          (tree_level c g parent exclude_tags)
unfolding tree_level active_child_counts
tree_level_lem c g parent exclude_tags k =
    let things = level_things c g parent exclude_tags in
    let ids = map (λ (row : ThingRecord). row.id) things in
    let count : ThingRecord → ℕ = λ row. get_count row.id (active_child_counts g ids) in
    (
      subst (Lists (priority_then_title c) (IsAt g parent exclude_tags) g.things)
          (sym (map-thing count things))
          (sort-filter-Lists _ _ (IsAt g parent exclude_tags) g.things
            (priority_then_title-IsPreorder c) (level_row_iff g parent exclude_tags)),
      All-map _ count things λ t m. ground (
        arith,
        get_count-map (active_child_count g) t.id (distinct ids),
        In-contains t.id (distinct ids)
            (In-distinct t.id ids (In-map (λ (row : ThingRecord). row.id) t things m)),
        active_child_count_lem g t.id c k,
        length-level c g t.id,
      ),
    )
