-- ===== src/Kube/Pods.antt =====
-- Daemon sets as far as pkg/monitoring/daemonsets.go fills their fields. A resource quantity is its
-- text.
use verrazzano_operator.Prelude.{String, Bool, ℕ, List}
use verrazzano_operator.Prelude.Maps.{Map}
use verrazzano_operator.Kube.Objects.{ObjectMeta}

-- A volume of the host.
pub record Volume : Type 0 where
  pub name : String
  pub host_path : String

pub record VolumeMount : Type 0 where
  pub name : String
  pub read_only : Bool
  pub mount_path : String

pub record ContainerPort : Type 0 where
  pub name : String
  pub container_port : ℕ
  pub host_port : ℕ
  pub protocol : String

pub record ResourceRequirements : Type 0 where
  pub limits : Map String
  pub requests : Map String

pub record Container : Type 0 where
  pub name : String
  pub image : String
  pub args : List String
  pub ports : List ContainerPort
  pub resources : ResourceRequirements
  pub volume_mounts : List VolumeMount
  pub image_pull_policy : String

pub record Toleration : Type 0 where
  pub effect : String
  pub operator : String

pub record PodSpec : Type 0 where
  pub volumes : List Volume
  pub containers : List Container
  pub restart_policy : String
  pub dns_policy : String
  pub service_account_name : String
  pub host_network : Bool
  pub host_pid : Bool
  pub node_selector : Map String
  pub run_as_user : ℕ
  pub tolerations : List Toleration

pub record DaemonSet : Type 0 where
  pub metadata : ObjectMeta
  pub match_labels : Map String
  pub update_strategy : String
  pub template_labels : Map String
  pub annotations : Map String
  pub pod : PodSpec
