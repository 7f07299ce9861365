-- ===== src/Queries.antt =====
-- backend/queries.py: the read-only queries over the graph. A query reads the graph as the session's
-- open transaction sees it.
pub mod Order
pub mod Standing
pub mod Tree
pub mod Related
pub mod JournalWindows
pub mod UserModel
pub mod Listing
pub mod Paging
