-- ===== src/Spec/Invariants/WellFormed.antt =====
-- The invariants of the graph together.
use reli.Prelude.{
  ℕ, ◌≡◌, refl, true, List, [], ◌∷◌, ◌++◌, any-append, All-append, All-filter, ◌==◌, ℕ_equals, not,
}
use reli.DbModels.{ThingRecord, RelationshipRecord, Actor}
use reli.Database.Tables.{Rows, Graph, empty_graph, has_thing, put_thing}
use reli.Spec.Journal.{replay}
use reli.Spec.Step.{Step, Steps, Steps-invariant, Admissible, created, updated, related, unrelated}
use reli.Spec.Invariants.Replayed.{IsReplayed, Step-IsReplayed}
use reli.Spec.Invariants.Acyclic.{IsAcyclic, Step-IsAcyclic}
use reli.Spec.Invariants.Keys.{
  ThingKeys, RelationshipKeys, EvidenceKeys, EdgeKeys, IsEdge, ThingKeys-append, ThingKeys-put,
  RelationshipKeys-append, RelationshipKeys-remove, EvidenceKeys-append, EvidenceKeys-remove,
  EdgeKeys-mono, has_thing-put,
}

pub record WellFormed (g : Graph) : Type 0 where
  pub replayed : IsReplayed g
  pub thing_keys : ThingKeys g.things
  pub relationship_keys : RelationshipKeys g.relationships
  pub evidence_keys : EvidenceKeys g.relationships
  pub edge_keys : EdgeKeys g.rows
  pub acyclic : IsAcyclic g.relationships

pub empty-WellFormed : WellFormed empty_graph
unfolding replay
empty-WellFormed = record {
  replayed = refl;
  thing_keys = tt;
  relationship_keys = tt;
  evidence_keys = tt;
  edge_keys = tt;
  acyclic = λ x y e. cc;
}

has_thing-append :
    (id : ℕ) (ts us : List ThingRecord) → has_thing id ts ≡ true → has_thing id (ts ++ us) ≡ true
has_thing-append id ts us e = rw (any-append (λ (t : ThingRecord). t.id == id) ts us, e)

has_thing-after_put :
    (id : ℕ) (t : ThingRecord) (ts : List ThingRecord)
    → has_thing id ts ≡ true
    → has_thing id (put_thing t ts) ≡ true
has_thing-after_put id t ts e = rw (has_thing-put id t ts) e

new-IsEdge : (rows : Rows) (r : RelationshipRecord) → Admissible rows r → IsEdge rows.things r
new-IsEdge rows r a = record {
  source_exists = a.source_exists;
  target_exists = a.target_exists;
  no_loop = a.no_loop;
}

-- Every admissible change keeps a well-formed graph well-formed.
pub Step-WellFormed : {actor : Actor} (g h : Graph) → Step actor g h → WellFormed g → WellFormed h
Step-WellFormed g h (created _ t e fresh r) w = record {
  replayed = Step-IsReplayed _ _ (created _ t e fresh r) w.replayed;
  thing_keys = ThingKeys-append g.things t fresh w.thing_keys;
  relationship_keys = w.relationship_keys;
  evidence_keys = w.evidence_keys;
  edge_keys =
      EdgeKeys-mono g.things _ g.relationships (λ id. has_thing-append id g.things (t ∷ []))
        w.edge_keys;
  acyclic = w.acyclic;
}
Step-WellFormed g h (updated _ before t e there u r) w = record {
  replayed = Step-IsReplayed _ _ (updated _ before t e there u r) w.replayed;
  thing_keys = ThingKeys-put t g.things w.thing_keys;
  relationship_keys = w.relationship_keys;
  evidence_keys = w.evidence_keys;
  edge_keys =
      EdgeKeys-mono g.things _ g.relationships (λ id. has_thing-after_put id t g.things)
        w.edge_keys;
  acyclic = w.acyclic;
}
Step-WellFormed g h (related _ x e a r) w = record {
  replayed = Step-IsReplayed _ _ (related _ x e a r) w.replayed;
  thing_keys = w.thing_keys;
  relationship_keys = RelationshipKeys-append g.relationships x a.fresh w.relationship_keys;
  evidence_keys = EvidenceKeys-append g.relationships x a.no_duplicate w.evidence_keys;
  edge_keys =
      All-append (IsEdge g.things) g.relationships (x ∷ []) w.edge_keys (new-IsEdge g.rows x a, tt);
  acyclic = Step-IsAcyclic _ _ (related g x e a r) w.acyclic;
}
Step-WellFormed g h (unrelated _ x e there r) w = record {
  replayed = Step-IsReplayed _ _ (unrelated _ x e there r) w.replayed;
  thing_keys = w.thing_keys;
  relationship_keys = RelationshipKeys-remove x.id g.relationships w.relationship_keys;
  evidence_keys = EvidenceKeys-remove x.id g.relationships w.evidence_keys;
  edge_keys = All-filter (IsEdge g.things) (λ r. not (r.id == x.id)) g.relationships w.edge_keys;
  acyclic = Step-IsAcyclic _ _ (unrelated g x e there r) w.acyclic;
}

pub Steps-WellFormed : {actor : Actor} {g h : Graph} → Steps actor g h → WellFormed g → WellFormed h
Steps-WellFormed p = Steps-invariant WellFormed Step-WellFormed p
