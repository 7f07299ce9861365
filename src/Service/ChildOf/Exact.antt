-- ===== src/Service/ChildOf/Exact.antt =====
-- The recursive query answers true exactly for the Things at or below its start.
use reli.Prelude.{
  ℕ, zero, suc, ◌<◌, ◌≤◌, ◌≡◌, refl, subst, true, false, ◌&&◌, ◌||◌, not, List, [], ◌∷◌, ◌++◌,
  arith, ◌==◌, ℕ_equals, contains, contains-append, length, ◌⊎◌, inl, inr, Bool-cases, ◌↔◌,
  length-filter-le, filter,
}
use reli.DbModels.{RelationshipRecord, RelationshipType_equals, child_of}
use reli.Database.Tables.{has_edge}
use reli.Service.ChildOf.{targets, union_new, below, child_of_reaches}

-- At or below `start`, following edges from parent to child.
pub data Below (rs : List RelationshipRecord) (start : ℕ) : ℕ → Type 0 where
  here : Below rs start start
  down : (x y : ℕ) → Below rs start x → has_edge x y child_of rs ≡ true → Below rs start y

targets_complete :
    (frontier : List ℕ) (x y : ℕ) (rs : List RelationshipRecord)
    → contains x frontier ≡ true
    → has_edge x y child_of rs ≡ true
    → contains y (targets frontier rs) ≡ true
targets_complete frontier x y [] h e = cc
targets_complete frontier x y (r ∷ rs) h e = ground (arith, targets_complete frontier x y rs)

-- An edge into `y` from a Thing of the frontier.
abbrev Source : List ℕ → List RelationshipRecord → ℕ → Type 0
Source frontier rs y = (x : ℕ) × (contains x frontier ≡ true) × (has_edge x y child_of rs ≡ true)

Source-cons :
    (frontier : List ℕ) (y : ℕ) (r : RelationshipRecord) (rs : List RelationshipRecord)
    → Source frontier rs y
    → Source frontier (r ∷ rs) y
Source-cons frontier y r rs (x, c, e) = (x, c, ground arith)

targets_sound :
    (frontier : List ℕ) (y : ℕ) (rs : List RelationshipRecord)
    → contains y (targets frontier rs) ≡ true
    → Source frontier rs y
targets_sound frontier y [] h = cc
targets_sound frontier y (r ∷ rs) h =
    elim (Bool-cases (
      contains r.source_thing_id frontier
      && r.relationship_type == child_of
      && r.target_thing_id == y)) [
        | inl hit ↦ (r.source_thing_id, ground arith, ground arith)
        | inr miss ↦ Source-cons frontier y r rs (targets_sound frontier y rs (ground arith))
      ]

union_new_complete :
    (y : ℕ) (xs seen : List ℕ)
    → contains y xs ≡ true
    → (contains y seen || contains y (union_new seen xs)) ≡ true
union_new_complete y [] seen h = cc
union_new_complete y (x ∷ xs) seen h =
    ground (arith, union_new_complete y xs seen, union_new_complete y xs (x ∷ seen))

union_new_sound :
    (y : ℕ) (xs seen : List ℕ)
    → contains y (union_new seen xs) ≡ true
    → (contains y xs ≡ true) × (contains y seen ≡ false)
union_new_sound y [] seen h = cc
union_new_sound y (x ∷ xs) seen h =
    ground (arith, union_new_sound y xs seen, union_new_sound y xs (x ∷ seen))

-- The edges whose target has not been reached, which bounds the rounds that are left.
unreached : List ℕ → List RelationshipRecord → ℕ
unreached seen rs = length (filter (λ r. not (contains r.target_thing_id seen)) rs)

unreached-le : (seen : List ℕ) (rs : List RelationshipRecord) → unreached seen rs ≤ length rs
unfolding unreached
unreached-le seen rs = length-filter-le _ rs

unreached-append-le :
    (seen more : List ℕ) (rs : List RelationshipRecord)
    → unreached (seen ++ more) rs ≤ unreached seen rs
unfolding unreached
unreached-append-le seen more [] = omega arith
unreached-append-le seen more (r ∷ rs) =
    ground (arith, unreached-append-le seen more rs, contains-append r.target_thing_id seen more)

unreached-append-lt :
    (frontier seen more : List ℕ) (y : ℕ) (rs : List RelationshipRecord)
    → contains y (targets frontier rs) ≡ true
    → contains y seen ≡ false
    → contains y more ≡ true
    → unreached (seen ++ more) rs < unreached seen rs
unfolding unreached
unreached-append-lt frontier seen more y [] h n m = cc
unreached-append-lt frontier seen more y (r ∷ rs) h n m = ground (
  arith,
  unreached-append-lt frontier seen more y rs,
  unreached-append-le seen more rs,
  contains-append r.target_thing_id seen more,
)

-- What a round works from: a reached Thing is in the frontier, or its children are reached.
abbrev Expanded : List RelationshipRecord → List ℕ → List ℕ → Type 0
Expanded rs seen frontier =
    (x y : ℕ)
    → contains x seen ≡ true
    → has_edge x y child_of rs ≡ true
    → (contains y seen ≡ true) ⊎ (contains x frontier ≡ true)

-- The children of a reached Thing are reached.
abbrev IsClosed : List RelationshipRecord → List ℕ → Type 0
IsClosed rs seen =
    (x y : ℕ) → contains x seen ≡ true → has_edge x y child_of rs ≡ true → contains y seen ≡ true

-- A child of a Thing in the frontier is reached before the round or by it.
child_reached :
    (rs : List RelationshipRecord) (seen frontier : List ℕ)
    → Expanded rs seen frontier
    → (x y : ℕ) → contains x seen ≡ true
    → has_edge x y child_of rs ≡ true
    → (contains y seen || contains y (union_new seen (targets frontier rs))) ≡ true
child_reached rs seen frontier ex x y c e = elim (ex x y c e) [
  | inl old ↦ rw old
  | inr f ↦ union_new_complete y (targets frontier rs) seen (targets_complete frontier x y rs f e)
]

Expanded-step :
    (rs : List RelationshipRecord) (seen frontier new : List ℕ)
    → union_new seen (targets frontier rs) ≡ new
    → Expanded rs seen frontier
    → Expanded rs (seen ++ new) new
Expanded-step rs seen frontier new e ex x y c h = ground (
  arith,
  contains-append x seen new,
  contains-append y seen new,
  child_reached rs seen frontier ex x y,
)

-- A round that brings a new row leaves fewer edges whose target is not reached.
unreached_round :
    (rs : List RelationshipRecord) (seen frontier : List ℕ) (n : ℕ) (ns : List ℕ)
    → union_new seen (targets frontier rs) ≡ n ∷ ns
    → unreached (seen ++ n ∷ ns) rs < unreached seen rs
unreached_round rs seen frontier n ns e =
    let sound = union_new_sound n (targets frontier rs) seen (rw e (ground arith)) in
    unreached-append-lt frontier seen (n ∷ ns) n rs sound.0 sound.1 (ground arith)

below-IsClosed :
    (fuel : ℕ) (rs : List RelationshipRecord) (seen frontier new : List ℕ)
    → union_new seen (targets frontier rs) ≡ new
    → unreached seen rs < fuel
    → Expanded rs seen frontier
    → IsClosed rs (below fuel rs seen frontier)
unfolding below
below-IsClosed zero rs seen frontier new e lt ex = absurd (omega arith)
below-IsClosed (suc fuel) rs seen frontier [] e lt ex =
    rw (e, below) λ x y c h. ground (arith, child_reached rs seen frontier ex x y c h)
below-IsClosed (suc fuel) rs seen frontier (n ∷ ns) e lt ex =
    rw (e, below)
      (below-IsClosed fuel rs (seen ++ n ∷ ns) (n ∷ ns) _ refl
        (omega (arith, unreached_round rs seen frontier n ns e))
        (Expanded-step rs seen frontier (n ∷ ns) e ex))

-- The rounds forget nothing.
contains-below :
    (fuel : ℕ) (rs : List RelationshipRecord) (seen frontier new : List ℕ) (x : ℕ)
    → union_new seen (targets frontier rs) ≡ new
    → contains x seen ≡ true
    → contains x (below fuel rs seen frontier) ≡ true
unfolding below
contains-below zero rs seen frontier new x e c = c
contains-below (suc fuel) rs seen frontier [] x e c = rw (e, below) c
contains-below (suc fuel) rs seen frontier (n ∷ ns) x e c =
    rw (e, below)
      (contains-below fuel rs (seen ++ n ∷ ns) (n ∷ ns) _ x refl
        (rw (contains-append x seen (n ∷ ns), c)))

-- Every row is at or below `start`.
abbrev AllBelow : List RelationshipRecord → ℕ → List ℕ → Type 0
AllBelow rs start xs = (x : ℕ) → contains x xs ≡ true → Below rs start x

AllBelow-append :
    (rs : List RelationshipRecord) (start : ℕ) (xs ys : List ℕ)
    → AllBelow rs start xs
    → AllBelow rs start ys
    → AllBelow rs start (xs ++ ys)
AllBelow-append rs start xs ys hx hy x c = elim (Bool-cases (contains x xs)) [
  | inl e ↦ hx x e
  | inr e ↦ hy x (ground (arith, contains-append x xs ys))
]

union_new-AllBelow :
    (rs : List RelationshipRecord) (start : ℕ) (seen frontier : List ℕ)
    → AllBelow rs start frontier
    → AllBelow rs start (union_new seen (targets frontier rs))
union_new-AllBelow rs start seen frontier h y c =
    let source = targets_sound frontier y rs (union_new_sound y (targets frontier rs) seen c).0 in
    down source.0 y (h source.0 source.1) source.2

below-AllBelow :
    (fuel : ℕ) (rs : List RelationshipRecord) (start : ℕ) (seen frontier new : List ℕ)
    → union_new seen (targets frontier rs) ≡ new
    → AllBelow rs start seen
    → AllBelow rs start frontier
    → AllBelow rs start (below fuel rs seen frontier)
unfolding below
below-AllBelow zero rs start seen frontier new e hs hf = hs
below-AllBelow (suc fuel) rs start seen frontier [] e hs hf = rw (e, below) hs
below-AllBelow (suc fuel) rs start seen frontier (n ∷ ns) e hs hf =
    let hn : AllBelow rs start (n ∷ ns) = rw e at (union_new-AllBelow rs start seen frontier hf) in
    rw (e, below)
      (below-AllBelow fuel rs start (seen ++ n ∷ ns) (n ∷ ns) _ refl
        (AllBelow-append rs start seen (n ∷ ns) hs hn) hn)

Below-closed :
    (rs : List RelationshipRecord) (start : ℕ) (xs : List ℕ)
    → contains start xs ≡ true
    → IsClosed rs xs
    → (y : ℕ) → Below rs start y
    → contains y xs ≡ true
Below-closed rs start xs c closed y here = c
Below-closed rs start xs c closed z (down x y b e) =
    closed x y (Below-closed rs start xs c closed x b) e

AllBelow-start : (rs : List RelationshipRecord) (start : ℕ) → AllBelow rs start (start ∷ [])
AllBelow-start rs start x c = subst (Below rs start) (ground arith) here

-- The query's rounds end by themselves, and it answers true exactly for the Things at or below its
-- start, whatever the edges, cycles included.
pub child_of_reaches_iff :
    (rs : List RelationshipRecord) (start goal : ℕ)
    → (child_of_reaches rs start goal ≡ true) ↔ Below rs start goal
unfolding child_of_reaches
child_of_reaches_iff rs start goal = (
  below-AllBelow (suc (length rs)) rs start (start ∷ []) (start ∷ []) _ refl
      (AllBelow-start rs start) (AllBelow-start rs start) goal,
  Below-closed rs start _
      (contains-below (suc (length rs)) rs (start ∷ []) (start ∷ []) _ start refl (ground arith))
      (below-IsClosed (suc (length rs)) rs (start ∷ []) (start ∷ []) _ refl
        (omega (arith, unreached-le (start ∷ []) rs)) (λ x y c h. inr c))
      goal,
)
