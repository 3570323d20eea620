-- ===== src/Types.antt =====
-- pkg/types/types.go. The mutex of a model/binding pair is left out: handlers run one at a time.
use verrazzano_operator.Prelude.{String, ℕ, Option, List}
use verrazzano_operator.Prelude.Maps.{Map}
use verrazzano_operator.Kube.{ConfigMap, Service, Workload}

pub record MatchRequest : Type 0 where
  pub uri : Map String
  pub port : ℕ

pub record IngressDestination : Type 0 where
  pub host : String
  pub port : ℕ
  pub match_requests : List MatchRequest
  pub domain_name : String

pub record Ingress : Type 0 where
  pub name : String
  pub destination : List IngressDestination

pub record RemoteRestConnection : Type 0 where
  pub name : String
  pub remote_namespace : String
  pub remote_cluster_name : String
  pub local_namespace : String
  pub port : ℕ

-- The nil slice is `[]`: the program makes its slices by `append` alone, so none is empty and not
-- nil.
pub record ManagedCluster : Type 0 where
  pub name : String
  pub namespaces : List String
  pub secrets : Map (List String)
  pub ingresses : Map (List Ingress)
  pub deployments : List Workload
  pub services : List Service
  pub config_maps : List ConfigMap
  pub remote_rests : Map (List RemoteRestConnection)

pub record KubernetesNamespace : Type 0 where
  pub name : String

pub record ClusterPlacement : Type 0 where
  pub name : String
  pub namespaces : List KubernetesNamespace

pub record ResourceLocationSpec : Type 0 where
  pub description : String
  pub model_name : String
  pub placement : List ClusterPlacement

-- Of the embedded metadata, the fields that the program reads.
pub record SyntheticBinding : Type 0 where
  pub name : String
  pub namespace : String
  pub resource_version : String
  pub deletion_timestamp : Option ℕ
  pub finalizers : List String
  pub spec : ResourceLocationSpec

pub record SyntheticModel : Type 0 where
  pub name : String
  pub resource_version : String

pub record SyntheticModelBinding : Type 0 where
  pub syn_binding : SyntheticBinding
  pub syn_model : SyntheticModel
  pub managed_clusters : Map ManagedCluster
  pub verrazzano_uri : String
  pub image_pull_secrets : List String
