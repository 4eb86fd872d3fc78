-- ===== src/Operator.antt =====
-- pkg/operator: what runs around the controllers.
pub mod LeaderElection
pub mod Shutdown
