-- ===== src/Kube/Objects.antt =====
-- The objects of the Kubernetes API as far as pkg/ reads or writes their fields. The parent passes
-- the names on.
use verrazzano_operator.Prelude.{String, ℕ, Option, List}
use verrazzano_operator.Prelude.Maps.{Map}

pub record ObjectMeta : Type 0 where
  pub name : String
  pub namespace : String
  pub labels : Map String
  pub resource_version : String
  pub owner_references : List String
  pub uid : String

pub record Namespace : Type 0 where
  pub metadata : ObjectMeta
  pub finalizers : List String

pub record Secret : Type 0 where
  pub metadata : ObjectMeta
  -- A key with a nil value is left out, like a missing one.
  pub content : Map String
  pub secret_type : String

pub record ServiceAccount : Type 0 where
  pub metadata : ObjectMeta
  pub image_pull_secrets : List String

pub record ConfigMap : Type 0 where
  pub metadata : ObjectMeta
  -- `none` is the nil map.
  pub content : Option (Map String)

pub record PolicyRule : Type 0 where
  pub api_groups : List String
  pub resources : List String
  pub verbs : List String
  pub resource_names : List String
  pub non_resource_urls : List String

pub record ClusterRole : Type 0 where
  pub metadata : ObjectMeta
  pub rules : List PolicyRule

pub record Subject : Type 0 where
  pub kind : String
  pub name : String
  pub namespace : String

pub record RoleRef : Type 0 where
  pub api_group : String
  pub kind : String
  pub name : String

pub record ClusterRoleBinding : Type 0 where
  pub metadata : ObjectMeta
  pub subjects : List Subject
  pub role_ref : RoleRef

-- `manifest` stands for the fields that the program only passes on.
pub record Workload : Type 0 where
  pub metadata : ObjectMeta
  pub manifest : String

pub record ServicePort : Type 0 where
  pub name : String
  pub port : ℕ
  pub target_port : ℕ
  pub protocol : String

pub record Service : Type 0 where
  pub metadata : ObjectMeta
  pub ports : List ServicePort
  pub selector : Map String
  pub service_type : String
