-- ===== src/Service/ChildOf.antt =====
-- `_CHILD_OF_REACHES` of backend/service.py: whether one Thing is at or below another in the ChildOf
-- tree, by the rounds of the recursive query.
pub mod Exact
use reli.Prelude.{
  ℕ, zero, suc, ◌+◌, ◌≡◌, Bool, true, false, ◌&&◌, List, [], ◌∷◌, ◌++◌, ◌==◌, ℕ_equals,
  if◌then◌else◌, contains, length,
}
use reli.DbModels.{RelationshipRecord, RelationshipType_equals, child_of}
use reli.Database.Tables.{has_edge}

-- `SELECT r.target_thing_id FROM below b JOIN relationships r ON r.source_thing_id = b.thing_id
-- WHERE r.relationship_type = :child_of`, over the rows of the last round.
abbrev pub targets : List ℕ → List RelationshipRecord → List ℕ
targets frontier [] = []
targets frontier (r ∷ rs) =
    if contains r.source_thing_id frontier && r.relationship_type == child_of
    then r.target_thing_id ∷ targets frontier rs
    else targets frontier rs

-- `UNION` keeps of the new rows those that are not there yet, once each.
abbrev pub union_new : List ℕ → List ℕ → List ℕ
union_new seen [] = []
union_new seen (x ∷ xs) =
    let rest = union_new (if contains x seen then seen else x ∷ seen) xs in
    if contains x seen then rest else x ∷ rest

-- The rounds end when one brings no new row; `fuel` bounds their number.
pub below : ℕ → List RelationshipRecord → List ℕ → List ℕ → List ℕ
below zero rs seen frontier = seen
below (suc fuel) rs seen frontier = elim (union_new seen (targets frontier rs)) [
  | [] ↦ seen
  | x ∷ xs ↦ below fuel rs (seen ++ x ∷ xs) (x ∷ xs)
]

-- Every round but the last reaches the target of one more edge.
unfoldable pub child_of_reaches : List RelationshipRecord → ℕ → ℕ → Bool
unfolding below
child_of_reaches rs start goal =
    contains goal (below (suc (length rs)) rs (start ∷ []) (start ∷ []))
