-- ===== src/Service/Edges.antt =====
-- `relate`, `unrelate` and `collapse_duplicate_evidence` of backend/service.py.
use reli.Prelude.{
  ℕ, suc, String, Bool, ◌&&◌, ◌||◌, Option, none, some, List, [], ◌∷◌, ◌==◌, ℕ_equals,
  if◌then◌else◌, any, filter, ltb, leb, sort,
}
use reli.DbModels.{
  RelationshipRecord, RelationshipType, RelationshipType_equals, evidence_for, Actor,
  claude_scheduled,
}
use reli.Database.Tables.{find_relationship, find_edge}
use reli.Database.Session.{
  Error, integrity, duplicate_relationship, relationship_not_found, commit, rollback,
}
use reli.Exec.{pure, raise, gets, or_raise, ◌>>=◌, ◌>>◌, try}
use reli.Service.Writes.{Action, insert_relationship, delete_relationship}

-- `if existing is None: raise` and otherwise `raise DuplicateRelationship(existing) from exc`
unfoldable pub name_duplicate : Error → Option RelationshipRecord → Action RelationshipRecord
name_duplicate e none = raise e
name_duplicate e (some existing) = raise (duplicate_relationship existing)

-- `except IntegrityError`; every other exception passes.
unfoldable pub on_refused_edge : ℕ → ℕ → RelationshipType → Error → Action RelationshipRecord
unfolding rollback name_duplicate
on_refused_edge source target type (integrity kind) = do
  rollback
  existing ← gets (λ s. find_edge source target type s.pending.relationships)
  name_duplicate (integrity kind) existing
on_refused_edge source target type e = raise e

unfoldable pub relate : Actor → ℕ → ℕ → RelationshipType → Option String → Action RelationshipRecord
relate actor source target type context =
    try (do r ← insert_relationship actor source target type context; commit; pure r)
      (on_refused_edge source target type)

unfoldable pub unrelate : Actor → ℕ → Action Unit
unrelate actor relationship_id = do
  found ← gets (λ s. find_relationship relationship_id s.pending.relationships)
  r ← or_raise found (relationship_not_found relationship_id)
  delete_relationship actor r
  commit

-- `ORDER BY source_thing_id, target_thing_id, created_at, id`
abbrev pub evidence_before : RelationshipRecord → RelationshipRecord → Bool
evidence_before a b =
    ltb a.source_thing_id b.source_thing_id
    || a.source_thing_id == b.source_thing_id
      && (ltb a.target_thing_id b.target_thing_id
          || a.target_thing_id == b.target_thing_id
            && (ltb a.created_at b.created_at || a.created_at == b.created_at && leb a.id b.id))

abbrev pub evidence_edges : List RelationshipRecord → List RelationshipRecord
evidence_edges rs = sort evidence_before (filter (λ r. r.relationship_type == evidence_for) rs)

-- `pair in kept`
abbrev pub is_kept : RelationshipRecord → List (ℕ × ℕ) → Bool
is_kept r = any λ pair. pair.0 == r.source_thing_id && pair.1 == r.target_thing_id

-- The loop over the edges, with the pairs kept so far and the count of the removed.
unfoldable pub collapse_each : List (ℕ × ℕ) → ℕ → List RelationshipRecord → Action ℕ
collapse_each kept removed [] = pure removed
collapse_each kept removed (r ∷ rs) =
    let remove = delete_relationship claude_scheduled r >> collapse_each kept (suc removed) rs in
    let keep = collapse_each ((r.source_thing_id, r.target_thing_id) ∷ kept) removed rs in
    if is_kept r kept then remove else keep

unfoldable pub collapse_duplicate_evidence : Action ℕ
unfolding collapse_each
collapse_duplicate_evidence = do
  edges ← gets (λ s. evidence_edges s.pending.relationships)
  collapse_each [] 0 edges
