-- ===== src/Kube.antt =====
-- The objects of the Kubernetes API, as records of the fields that the code reads and writes, and
-- the errors of its calls. A map of strings is a function, and a nil map or pointer is `none`.
use spotalis.Common.{ℕ, String, Bool, Option, List, ℤ}
use spotalis.Common.Text.{Text}

abbrev pub StringMap : Type 0
StringMap = String → Option Text

-- metav1.Object
pub record ObjectMeta : Type 0 where
  pub labels : Option StringMap
  pub annotations : Option StringMap

-- What the predicates of k8s.io/apimachinery/pkg/api/errors tell apart.
pub data ApiError : Type 0 where
  not_found too_many_requests other_error : ApiError

-- metav1.LabelSelector, of which only the match labels are read directly.
pub record LabelSelector : Type 0 where
  pub match_labels : List (String × String)

-- corev1.PodPhase
pub data PodPhase : Type 0 where
  pending running succeeded failed unknown_phase : PodPhase

-- corev1.PodCondition: is its type "Ready", and is its status "True".
pub record PodCondition : Type 0 where
  pub is_ready_type : Bool
  pub is_true : Bool

-- corev1.Pod; an unassigned pod has the empty node name.
pub record Pod : Type 0 where
  pub name : Text
  pub namespace : String
  pub labels : StringMap
  pub node_name : String
  pub deletion_timestamp : Option ℕ
  pub phase : PodPhase
  pub conditions : List PodCondition
  pub node_selector : StringMap

-- policyv1.PodDisruptionBudget
pub record PodDisruptionBudget : Type 0 where
  pub name : String
  pub selector : Option LabelSelector
  pub disruptions_allowed : ℤ
  pub current_healthy : ℤ
  pub desired_healthy : ℤ
  pub expected_pods : ℤ
