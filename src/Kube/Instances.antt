-- ===== src/Kube/Instances.antt =====
-- Monitoring instances (the VerrazzanoMonitoringInstance of verrazzano-monitoring-operator) as far
-- as pkg/local/vmis.go reads or writes their fields.
use verrazzano_operator.Prelude.{String, Bool, List}
use verrazzano_operator.Prelude.Integers.{ℤ}
use verrazzano_operator.Kube.Objects.{ObjectMeta}

pub record Storage : Type 0 where
  pub size : String
  pub pvc_names : List String

pub record Grafana : Type 0 where
  pub enabled : Bool
  pub storage : Storage
  pub dashboards_config_map : String
  pub request_memory : String

pub record Prometheus : Type 0 where
  pub enabled : Bool
  pub storage : Storage
  pub request_memory : String

pub record ElasticsearchNode : Type 0 where
  pub replicas : ℤ
  pub request_memory : String

pub record Elasticsearch : Type 0 where
  pub enabled : Bool
  pub storage : Storage
  pub ingest_node : ElasticsearchNode
  pub master_node : ElasticsearchNode
  pub data_node : ElasticsearchNode

pub record Kibana : Type 0 where
  pub enabled : Bool
  pub request_memory : String

pub record InstanceSpec : Type 0 where
  pub uri : String
  pub auto_secret : Bool
  pub secrets_name : String
  pub cascading_delete : Bool
  pub grafana : Grafana
  pub ingress_target_dns_name : String
  pub prometheus : Prometheus
  pub elasticsearch : Elasticsearch
  pub kibana : Kibana
  pub service_type : String

pub record Instance : Type 0 where
  pub metadata : ObjectMeta
  pub spec : InstanceSpec
