-- ===== src/Spec/Invariants/Replayed.antt =====
-- The journal is the whole record of how the rows came to be.
use reli.Prelude.{ℕ, ◌≡◌, ◌∙◌, Option, [], ◌∷◌, ◌++◌}
use reli.DbModels.{JournalRecord, Snapshot, Actor, Operation, EntityType}
use reli.Database.Tables.{Graph}
use reli.Spec.Journal.{replay, replay_change, replay-append}
use reli.Spec.Step.{Step, Records, created, updated, related, unrelated}

-- Reading the journal back gives the rows.
abbrev pub IsReplayed : Graph → Type 0
IsReplayed g = replay g.journal ≡ g.rows

-- One entry more, of what it records, is the change itself.
replay-Records :
    (g : Graph) (e : JournalRecord) {actor : Actor} {operation : Operation}
    {entity_type : EntityType} {id : ℕ} {before after : Option Snapshot}
    → Records e actor operation entity_type id before after
    → IsReplayed g
    → replay (g.journal ++ e ∷ []) ≡ replay_change operation id after g.rows
replay-Records g e r h =
    replay-append g.journal e ∙ (λ i. replay_change (r.did i) (r.which i) (r.to_state i) (h i))

pub Step-IsReplayed : {actor : Actor} (g h : Graph) → Step actor g h → IsReplayed g → IsReplayed h
Step-IsReplayed g h (created _ t e fresh r) p = replay-Records g e r p
Step-IsReplayed g h (updated _ before t e there u r) p = replay-Records g e r p
Step-IsReplayed g h (related _ x e a r) p = replay-Records g e r p
Step-IsReplayed g h (unrelated _ x e there r) p = replay-Records g e r p
