-- ===== src/Spec/Effects.antt =====
-- What a call of backend/service.py that returns has done.
pub mod Update
