-- ===== src/Database.antt =====
-- The graph tables as Postgres keeps them, and the session a request runs in (backend/db_engine.py,
-- and the constraints that backend/db_models.py declares).
pub mod Tables
pub mod Session
