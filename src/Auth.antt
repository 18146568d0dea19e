-- ===== src/Auth.antt =====
-- internal/auth: who may talk to the server.
pub mod Digest
