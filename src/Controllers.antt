-- ===== src/Controllers.antt =====
-- pkg/controllers: the reconcilers and the eviction of pods.
pub mod Eviction
pub mod Manager
pub mod NamespaceFilter
pub mod Reconciler
pub mod StatefulSet
pub mod Deployment
