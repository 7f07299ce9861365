-- ===== src/Queries/UserModel/Scoped.antt =====
-- The rows of `user_model`.
use reli.Prelude.{
  ◌≡◌, ◌↔◌, ◌⊎◌, Bool, true, false, Option, none, some, ℕ_equals, String, In, strip, is_blank,
}
use reli.DbModels.{
  ThingRecord, RelationshipRecord, RelationshipType_equals, related_to, preference_tag,
  rejected_tag, user_anchor_id,
}
use reli.Database.Tables.{Graph}
use reli.Queries.UserModel.{Preference, Lowering, scope_of}
use reli.Queries.UserModel.Attached.{IsEvidence}

-- A condition on a value, if it is given.
abbrev IfGiven : {A : Type 0} → Option A → (A → Type 0) → Type 0
IfGiven none P = Unit
IfGiven (some a) P = P a

abbrev Scoped : Lowering → Option String → Option String → Type 0
Scoped l asked found =
    (s : String) × (found ≡ some s)
    × (is_blank s ≡ false)
    × IfGiven asked (λ a. l.sql_lower s ≡ l.lower (strip a))

-- A recorded preference: the anchor points at it, it has the tag, a scope that is not blank (the one asked
-- for, case aside, if any), and a Thing that an EvidenceFor edge attaches to it; and it is not rejected, unless those are asked for too.
pub record IsRecorded (l : Lowering) (g : Graph) (scope : Option String) (include_rejected : Bool)
    (row : ThingRecord) : Type 0 where
  pub anchored :
      (r : RelationshipRecord) × In r g.relationships
      × (r.source_thing_id ≡ user_anchor_id)
      × (r.target_thing_id ≡ row.id)
      × (r.relationship_type ≡ related_to)
  pub is_preference : In preference_tag row.tags
  pub scoped : Scoped l scope (scope_of row)
  pub evident : (thing : ThingRecord) × IsEvidence g row.id thing
  pub standing : (include_rejected ≡ true) ⊎ ¬ In rejected_tag row.tags

-- The evidence of a preference is what edges attach to its Thing.
abbrev pub HasEvidence : Graph → Preference → Type 0
HasEvidence g p = (thing : ThingRecord) → In thing p.evidence ↔ IsEvidence g p.thing.id thing
