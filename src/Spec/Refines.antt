-- ===== src/Spec/Refines.antt =====
-- backend/service.py refines the transition relation: what a session has committed and what it has
-- written since are sequences of admissible, journalled changes by the actor of the call.
pub mod Primitives
pub mod Operations
pub mod Collapse
pub mod Backfill
use reli.DbModels.{Actor}
use reli.Database.Tables.{Graph}
use reli.Database.Session.{Session}
use reli.Spec.Step.{Steps}

-- From `base`, the commits so far; from the last commit, the open transaction.
abbrev pub Traces : Actor → Graph → Session → Type 0
Traces actor base s = Steps actor base s.committed × Steps actor s.committed s.pending
