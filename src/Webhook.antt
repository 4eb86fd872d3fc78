-- ===== src/Webhook.antt =====
-- pkg/webhook: the admission of pods.
pub mod AdmissionState
pub mod JsonPointer
pub mod Placement
pub mod Owners
pub mod Mutate
