-- ===== src/Annotations.antt =====
-- internal/annotations: the annotations and labels that configure a workload.
pub mod Parser
pub mod DisruptionWindow
