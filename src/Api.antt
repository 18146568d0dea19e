-- ===== src/Api.antt =====
-- internal/api: the REST endpoints.
pub mod Tasks
