-- ===== src/Spec.antt =====
-- What backend/service.py promises of the graph, apart from how it does it: a transition relation in
-- which every change of a row is admissible and comes with its journal entry.
pub mod Journal
pub mod Step
pub mod Refines
pub mod Requests
pub mod Quiet
pub mod Atomic
pub mod Effects
pub mod Sequence
pub mod Invariants
