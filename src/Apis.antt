-- ===== src/Apis.antt =====
-- pkg/apis: the types of the operator and the calculations on them.
pub mod Policy
pub mod NodeType
pub mod ReplicaState
pub mod Configuration
pub mod Leadership
pub mod DisruptionPolicy
pub mod ControllerConfiguration
