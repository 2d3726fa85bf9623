-- ===== src/Autoscaler.antt =====
-- The autoscalers: pkg/abstractions/endpoint/autoscaler.go, taskqueue/autoscaler.go and
-- pod/autoscaler.go, with the instance that they drive, pkg/abstractions/common/instance.go.
pub mod Scale
pub mod Instance
pub mod Bounds
