-- ===== src/Spec/Invariants/Keys.antt =====
-- The constraints that backend/db_models.py declares: primary keys, foreign keys and the unique index.
use reli.Prelude.{
  ℕ, ◌≡◌, ◌≢◌, refl, true, false, inl, inr, List, [], ◌∷◌, ◌++◌, arith, ◌==◌, ℕ_equals, any-append,
  All, All-mono, Bool-cases,
}
use reli.DbModels.{ThingRecord, RelationshipRecord, RelationshipType_equals, evidence_for}
use reli.Database.Tables.{
  Rows, has_thing, put_thing, has_relationship, has_edge, joins, remove_relationship,
}

-- No two Things have one id.
abbrev pub ThingKeys : List ThingRecord → Type 0
ThingKeys [] = Unit
ThingKeys (t ∷ ts) = (has_thing t.id ts ≡ false) × ThingKeys ts

-- No two relationships have one id.
abbrev pub RelationshipKeys : List RelationshipRecord → Type 0
RelationshipKeys [] = Unit
RelationshipKeys (r ∷ rs) = (has_relationship r.id rs ≡ false) × RelationshipKeys rs

-- No two EvidenceFor edges join one pair.
abbrev pub EvidenceKeys : List RelationshipRecord → Type 0
EvidenceKeys [] = Unit
EvidenceKeys (r ∷ rs) =
    (r.relationship_type ≡ evidence_for
      → has_edge r.source_thing_id r.target_thing_id evidence_for rs ≡ false)
    × EvidenceKeys rs

-- An edge joins two different Things that exist.
pub record IsEdge (ts : List ThingRecord) (r : RelationshipRecord) : Type 0 where
  pub source_exists : has_thing r.source_thing_id ts ≡ true
  pub target_exists : has_thing r.target_thing_id ts ≡ true
  pub no_loop : r.source_thing_id ≢ r.target_thing_id

abbrev pub EdgeKeys : Rows → Type 0
EdgeKeys rows = All (IsEdge rows.things) rows.relationships

pub ThingKeys-append :
    (ts : List ThingRecord) (t : ThingRecord)
    → has_thing t.id ts ≡ false
    → ThingKeys ts
    → ThingKeys (ts ++ t ∷ [])
ThingKeys-append [] t e k = (refl, tt)
ThingKeys-append (x ∷ ts) t e k = (
  ground (arith, any-append (λ (y : ThingRecord). y.id == x.id) ts (t ∷ [])),
  ThingKeys-append ts t (ground arith) k.1,
)

pub has_thing-put :
    (id : ℕ) (n : ThingRecord) (ts : List ThingRecord)
    → has_thing id (put_thing n ts) ≡ has_thing id ts
has_thing-put id n [] = refl
has_thing-put id n (t ∷ ts) = ground (arith, has_thing-put id n ts)

pub ThingKeys-put :
    (n : ThingRecord) (ts : List ThingRecord) → ThingKeys ts → ThingKeys (put_thing n ts)
ThingKeys-put n [] k = tt
ThingKeys-put n (t ∷ ts) k =
    (ground (arith, has_thing-put n.id n ts, has_thing-put t.id n ts), ThingKeys-put n ts k.1)

pub RelationshipKeys-append :
    (rs : List RelationshipRecord) (r : RelationshipRecord)
    → has_relationship r.id rs ≡ false
    → RelationshipKeys rs
    → RelationshipKeys (rs ++ r ∷ [])
RelationshipKeys-append [] r e k = (refl, tt)
RelationshipKeys-append (x ∷ rs) r e k = (
  ground (arith, any-append (λ (y : RelationshipRecord). y.id == x.id) rs (r ∷ [])),
  RelationshipKeys-append rs r (ground arith) k.1,
)

has_relationship-remove :
    (id i : ℕ) (rs : List RelationshipRecord)
    → has_relationship i rs ≡ false
    → has_relationship i (remove_relationship id rs) ≡ false
has_relationship-remove id i [] e = e
has_relationship-remove id i (r ∷ rs) e = ground (arith, has_relationship-remove id i rs)

pub RelationshipKeys-remove :
    (id : ℕ) (rs : List RelationshipRecord)
    → RelationshipKeys rs
    → RelationshipKeys (remove_relationship id rs)
RelationshipKeys-remove id [] k = tt
RelationshipKeys-remove id (r ∷ rs) k =
    ground (arith, has_relationship-remove id r.id rs k.0, RelationshipKeys-remove id rs k.1)

pub EvidenceKeys-append :
    (rs : List RelationshipRecord) (r : RelationshipRecord)
    → (r.relationship_type ≡ evidence_for
        → has_edge r.source_thing_id r.target_thing_id evidence_for rs ≡ false)
    → EvidenceKeys rs
    → EvidenceKeys (rs ++ r ∷ [])
EvidenceKeys-append [] r e k = (λ _. refl, tt)
EvidenceKeys-append (x ∷ rs) r e k = (
  λ h. ground (
    arith,
    any-append (joins x.source_thing_id x.target_thing_id evidence_for) rs (r ∷ []),
    k.0 h,
    e,
  ),
  EvidenceKeys-append rs r (λ h. ground (arith, e h)) k.1,
)

has_edge-remove :
    (id x y : ℕ) (rs : List RelationshipRecord)
    → has_edge x y evidence_for rs ≡ false
    → has_edge x y evidence_for (remove_relationship id rs) ≡ false
has_edge-remove id x y [] e = e
has_edge-remove id x y (r ∷ rs) e = ground (arith, has_edge-remove id x y rs)

pub EvidenceKeys-remove :
    (id : ℕ) (rs : List RelationshipRecord)
    → EvidenceKeys rs
    → EvidenceKeys (remove_relationship id rs)
EvidenceKeys-remove id [] k = tt
EvidenceKeys-remove id (r ∷ rs) k = elim (Bool-cases (r.id == id)) [
  | inl hit ↦ rw hit (EvidenceKeys-remove id rs k.1)
  | inr miss ↦ rw miss (
    λ h. has_edge-remove id r.source_thing_id r.target_thing_id rs (k.0 h),
    EvidenceKeys-remove id rs k.1,
  )
]

pub EdgeKeys-mono :
    (ts us : List ThingRecord) (rs : List RelationshipRecord)
    → ((id : ℕ) → has_thing id ts ≡ true → has_thing id us ≡ true)
    → All (IsEdge ts) rs
    → All (IsEdge us) rs
EdgeKeys-mono ts us rs sub =
    All-mono (IsEdge ts) (IsEdge us)
      (λ r e. record {
        source_exists = sub r.source_thing_id e.source_exists;
        target_exists = sub r.target_thing_id e.target_exists;
        no_loop = e.no_loop;
      })
      rs
