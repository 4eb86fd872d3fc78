-- ===== src/Webhook/Owners.antt =====
-- The workload that a pod belongs to, in pkg/webhook/mutate.go: the owner references that are
-- followed, and the configuration that is read. The answers of the API server are arguments.
use spotalis.Common.{
  String, Bool, false, if◌then◌else◌, Option, none, some, List, [], ◌∷◌, Result, ok, err, ℤ, str_eq,
}
use spotalis.Kube.{ObjectMeta, ApiError}
use spotalis.Apis.Configuration.{WorkloadConfiguration}
use spotalis.Annotations.Parser.{has_spotalis_annotations, parse_workload_configuration}
use spotalis.Observation.{Workload}

-- The kinds of owners that the code tells apart.
pub data OwnerKind : Type 0 where
  replica_set stateful_set deployment other_kind : OwnerKind

-- metav1.OwnerReference
pub record OwnerReference : Type 0 where
  pub kind : OwnerKind
  pub name : String
  pub uid : String
  pub controller : Option Bool

pub record ReplicaSet : Type 0 where
  pub uid : String
  pub owners : List OwnerReference

-- appsv1.Deployment or appsv1.StatefulSet
pub record WorkloadObject : Type 0 where
  pub meta : ObjectMeta
  pub workload : Workload
  pub replicas : Option ℤ  -- int32

-- What Client.Get answers for a namespace and a name.
pub record Cluster : Type 0 where
  pub get_replica_set : String → String → Result ApiError ReplicaSet
  pub get_deployment : String → String → Result ApiError WorkloadObject
  pub get_stateful_set : String → String → Result ApiError WorkloadObject

pub data OwnerError : Type 0 where
  get_failed : ApiError → OwnerError
  uid_mismatch no_supported_owner : OwnerError

-- The UID of the owner reference has to be that of the object.
abbrev pub identified : String → String → WorkloadObject → Result OwnerError WorkloadObject
identified uid expected o = if str_eq uid expected then ok o else err uid_mismatch

abbrev pub got : String → Result ApiError WorkloadObject → Result OwnerError WorkloadObject
got expected (err e) = err (get_failed e)
got expected (ok o) = identified o.workload.uid expected o

abbrev pub is_controller : Option Bool → Bool
is_controller none = false
is_controller (some b) = b

-- A ReplicaSet is controlled by at most one Deployment that is looked at.
unfoldable pub controlling_deployment :
    Cluster → String → List OwnerReference → Option (Result OwnerError WorkloadObject)
controlling_deployment c ns [] = none
controlling_deployment c ns (r ∷ rs) =
    let rest = controlling_deployment c ns rs in
    elim r.kind [
      | deployment ↦
          if is_controller r.controller then some (got r.uid (c.get_deployment ns r.name)) else rest
      | _ ↦ rest
    ]

abbrev pub or_next :
    Option (Result OwnerError WorkloadObject)
    → Result OwnerError WorkloadObject
    → Result OwnerError WorkloadObject
or_next none next = next
or_next (some r) next = r

unfoldable pub workload_for_pod :
    Cluster → String → List OwnerReference → Result OwnerError WorkloadObject
unfolding controlling_deployment
workload_for_pod c ns [] = err no_supported_owner
workload_for_pod c ns (r ∷ rs) =
    let rest = workload_for_pod c ns rs in
    elim r.kind [
      | replica_set ↦ elim (c.get_replica_set ns r.name) [
        | err e ↦ err (get_failed e)
        | ok s ↦
            if str_eq s.uid r.uid
            then or_next (controlling_deployment c ns s.owners) rest
            else err uid_mismatch
      ]
      | stateful_set ↦ got r.uid (c.get_stateful_set ns r.name)
      | _ ↦ rest
    ]

-- A workload without an annotation of Spotalis has no configuration; the errors are not told apart.
unfoldable pub get_config_from_workload :
    Result ApiError WorkloadObject → Option (Option WorkloadConfiguration)
get_config_from_workload (err e) = none
get_config_from_workload (ok o) =
    if has_spotalis_annotations o.meta
    then elim (parse_workload_configuration o.meta) [ err e ↦ none | ok w ↦ some (some w) ]
    else some none

-- The first owner of the kind Deployment counts.
unfoldable pub config_of_deployment :
    Cluster → String → List OwnerReference → Option (Option WorkloadConfiguration)
unfolding get_config_from_workload
config_of_deployment c ns [] = some none
config_of_deployment c ns (r ∷ rs) =
    let rest = config_of_deployment c ns rs in
    elim r.kind [ deployment ↦ get_config_from_workload (c.get_deployment ns r.name) | _ ↦ rest ]

unfoldable pub get_config_from_replica_set :
    Cluster → String → String → Option (Option WorkloadConfiguration)
unfolding config_of_deployment
get_config_from_replica_set c ns name = elim (c.get_replica_set ns name) [
  | err e ↦ none
  | ok s ↦ config_of_deployment c ns s.owners
]

-- An error or a missing configuration lets the next owner be tried.
abbrev pub or_next_config :
    Option (Option WorkloadConfiguration)
    → Option WorkloadConfiguration
    → Option WorkloadConfiguration
or_next_config none next = next
or_next_config (some none) next = next
or_next_config (some (some w)) next = some w

-- The kind and the name, which go to the log, are left out.
unfoldable pub get_workload_config_for_pod :
    Cluster → String → List OwnerReference → Option WorkloadConfiguration
unfolding get_config_from_replica_set get_config_from_workload
get_workload_config_for_pod c ns [] = none
get_workload_config_for_pod c ns (r ∷ rs) =
    let rest = get_workload_config_for_pod c ns rs in
    elim r.kind [
      | replica_set ↦ or_next_config (get_config_from_replica_set c ns r.name) rest
      | stateful_set ↦ or_next_config (get_config_from_workload (c.get_stateful_set ns r.name)) rest
      | deployment ↦ or_next_config (get_config_from_workload (c.get_deployment ns r.name)) rest
      | other_kind ↦ rest
    ]
