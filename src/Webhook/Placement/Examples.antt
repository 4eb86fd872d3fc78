-- ===== src/Webhook/Placement/Examples.antt =====
-- Patches and capacity types at a concrete pod.
use spotalis.Common.{◌≡◌, refl, if◌then◌else◌, none, some, str_eq}
use spotalis.Webhook.AdmissionState.{spot}
use spotalis.Webhook.Placement.{
  PodSpec, default_label_config, node_selector_patches, get_pod_capacity_type,
}
use spotalis.Webhook.Placement.ReadBack.{apply_patches, get_pod_capacity_type-patched}

-- A pod that asks for an architecture.
abbrev arm_pod : PodSpec
arm_pod = record {
  node_selector = some (λ k. if str_eq k "kubernetes.io/arch" then some "arm64" else none);
  node_affinity = none;
}

get_pod_capacity_type-patched_example :
    get_pod_capacity_type default_label_config
      (apply_patches (node_selector_patches default_label_config arm_pod spot) arm_pod)
    ≡ spot
get_pod_capacity_type-patched_example =
    get_pod_capacity_type-patched default_label_config arm_pod spot refl
