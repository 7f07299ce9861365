-- ===== src/Service.antt =====
-- backend/service.py: the only write path into the graph.
pub mod Bounds
pub mod ChildOf
pub mod Writes
pub mod Things
pub mod Edges
pub mod Preferences
pub mod Requests
