-- ===== src/WorkerNode.antt =====
-- The worker process (pkg/worker).
pub mod Gpu
pub mod Network
pub mod Requests
pub mod Lifecycle
