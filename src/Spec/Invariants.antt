-- ===== src/Spec/Invariants.antt =====
-- What every admissible change keeps of the graph.
pub mod Replayed
pub mod Acyclic
pub mod Keys
pub mod WellFormed
pub mod Heartbeat
