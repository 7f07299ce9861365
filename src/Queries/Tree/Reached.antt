-- ===== src/Queries/Tree/Reached.antt =====
-- No active Thing is lost from the tree.
use reli.Prelude.{
  ℕ, zero, String, suc, ◌≤◌, ◌<◌, ◌≡◌, inl, inr, true, none, some, List, [], map, arith, ℕ_equals,
  length, filter, In, any-In, Bool-cases, length-filter-lt,
}
use reli.DbModels.{ThingRecord, RelationshipType_equals, same_type_iff, child_of, Actor}
use reli.Database.Tables.{Graph, joins, has_edge}
use reli.Database.Session.{Env}
use reli.Service.ChildOf.{child_of_reaches}
use reli.Service.ChildOf.Exact.{here, down, child_of_reaches_iff}
use reli.Service.Requests.{Request, serve, initial}
use reli.Spec.Invariants.WellFormed.{WellFormed}
use reli.Spec.Requests.{serve-initial-WellFormed}
use reli.Queries.Order.{Collation}
use reli.Queries.Tree.{is_claimed, TreeNode, tree_level}
use reli.Queries.Tree.Levels.{HasChild, claimed_iff, tree_level_lem}

-- On a level of the tree that is reached from the top by expanding one node after the other.
pub data Shown (c : Collation) (g : Graph) : ThingRecord → Type 0 where
  at_top :
      (row : ThingRecord)
      → In row (map (λ (node : TreeNode). node.thing) (tree_level c g none []))
      → Shown c g row
  below :
      (parent row : ThingRecord)
      → Shown c g parent
      → In row (map (λ (node : TreeNode). node.thing) (tree_level c g (some parent.id) []))
      → Shown c g row

module _ (c : Collation) (g : Graph) (w : WellFormed g) where
  -- The Things at or above this one.
  ancestors : ℕ → ℕ
  ancestors id =
      length (filter (λ (t : ThingRecord). child_of_reaches g.relationships t.id id) g.things)

  child-has_edge :
      (parent child : ℕ)
      → HasChild g parent child
      → has_edge parent child child_of g.relationships ≡ true
  child-has_edge parent child (r, m, s, t, k) =
      any-In (joins parent child child_of) r g.relationships m
        (ground (arith, s, t, (same_type_iff r.relationship_type child_of).1 k))

  ancestors-lt :
      (parent row : ThingRecord)
      → In row g.things
      → HasChild g parent.id row.id
      → ancestors parent.id < ancestors row.id
  unfolding ancestors
  ancestors-lt parent row m h =
      let edge = child-has_edge parent.id row.id h in
      let rs = g.relationships in
      length-filter-lt (λ t. child_of_reaches rs t.id parent.id)
        (λ t. child_of_reaches rs t.id row.id) row g.things
        (λ t e.
          (child_of_reaches_iff rs t.id row.id).1
            (down parent.id row.id ((child_of_reaches_iff rs t.id parent.id).0 e) edge))
        m
        (elim (Bool-cases (child_of_reaches rs row.id parent.id)) [
          | inl e ↦
              absurd
                (w.acyclic parent.id row.id edge ((child_of_reaches_iff rs row.id parent.id).0 e))
          | inr e ↦ e
        ])
        ((child_of_reaches_iff rs row.id row.id).1 here)

  Shown-step :
      (row : ThingRecord)
      → In row g.things
      → row.active ≡ true
      → ((parent : ThingRecord)
          → In parent g.things
          → parent.active ≡ true
          → ancestors parent.id < ancestors row.id
          → Shown c g parent)
      → Shown c g row
  Shown-step row m a ih =
      let no_tag : (tag : String) → In tag [] → ¬ In tag row.tags = λ tag k _. k in
      elim (Bool-cases (is_claimed g row)) [
        | inr free ↦ at_top row (
            ((tree_level_lem c g none [] w.thing_keys).0.exact row).1
              (m, (a, no_tag, λ h. ground (arith, free, (claimed_iff g row).1 h))))
        | inl claimed ↦
            let (parent, mp, ap, edge) = (claimed_iff g row).0 claimed in
            below parent row (ih parent mp ap (ancestors-lt parent row m edge)) (
              ((tree_level_lem c g (some parent.id) [] w.thing_keys).0.exact row).1
                (m, (a, no_tag, edge)))
      ]

  active-Shown :
      (n : ℕ) (row : ThingRecord)
      → In row g.things
      → row.active ≡ true
      → ancestors row.id ≤ n
      → Shown c g row
  active-Shown zero row m a le = Shown-step row m a λ p mp ap lt. absurd (omega (arith, lt, le))
  active-Shown (suc n) row m a le =
      Shown-step row m a λ p mp ap lt. active-Shown n p mp ap (omega (arith, lt, le))

-- After any requests on an empty database, every active Thing is on a level of the tree that is reached
-- from the top level by expanding nodes, when no tag is excluded.
pub serve-Shown :
    (c : Collation) (env : Env) (rs : List (Actor × Request)) (row : ThingRecord)
    → In row (serve (initial env) rs).committed.things
    → row.active ≡ true
    → Shown c (serve (initial env) rs).committed row
serve-Shown c env rs row m a =
    active-Shown c _ (serve-initial-WellFormed env rs)
      (ancestors c _ (serve-initial-WellFormed env rs) row.id) row m a (omega arith)
