-- ===== src/Repository.antt =====
-- The Redis repositories (pkg/repository).
pub mod Worker
pub mod Container
