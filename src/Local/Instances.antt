-- ===== src/Local/Instances.antt =====
-- pkg/local/vmis.go, createInstance and createStorageOption: the monitoring instance that is
-- wanted.
pub mod Built
use verrazzano_operator.Prelude.{Bool, String, true, none, some, [], ◌==◌, if◌then◌else◌, not, ◌&&◌}
use verrazzano_operator.Prelude.Integers.{ℤ}
use Prim.Native.String.{◌++◌ as str_append}
use verrazzano_operator.Constants.{verrazzano_namespace, vmi_secret_name}
use verrazzano_operator.Kube.{
  Answer, empty_uri, get_env, Storage, Grafana, Prometheus, ElasticsearchNode, Elasticsearch,
  Kibana, Instance,
}
use verrazzano_operator.Environment.Variables.{
  get_elasticsearch_data_storage_size, get_grafana_request_memory, get_grafana_data_storage_size,
  get_prometheus_request_memory, get_prometheus_data_storage_size, get_kibana_request_memory,
  get_elasticsearch_master_node_request_memory, get_elasticsearch_ingest_node_request_memory,
  get_elasticsearch_data_node_request_memory,
}
use verrazzano_operator.Prog.{Prog, ret, ask, ◌>>=◌}
use verrazzano_operator.Types.{SyntheticBinding}
use verrazzano_operator.Environment.{
  parse_bool, get_profile_binding_name, get_boolean, prom_enabled, es_enabled, grafana_enabled,
  kibana_enabled,
}
use verrazzano_operator.Environment.Replicas.{
  get_elasticsearch_master_node_replicas, get_elasticsearch_data_node_replicas,
  get_elasticsearch_ingest_node_replicas,
}
use verrazzano_operator.Util.{get_local_binding_labels, get_vmi_name_for_binding, get_vmi_uri}
use verrazzano_operator.Monitoring.Components.{named_meta}

-- A storage of the given size, without volume claims.
abbrev pub storage_of_size : String → Storage
storage_of_size size = record { size = size; pvc_names = [] }

-- The empty setting and the empty size are the same.
unfoldable pub create_storage_option : String → String → Storage
unfolding parse_bool
create_storage_option env_setting enable_monitoring_storage =
    elim (parse_bool enable_monitoring_storage) [
      | none ↦ storage_of_size ""
      | some monitoring_storage_enabled ↦
          if monitoring_storage_enabled && not (env_setting == "")
          then storage_of_size env_setting
          else storage_of_size ""
    ]

unfoldable pub create_grafana : String → String → Prog Grafana
unfolding get_boolean create_storage_option get_vmi_name_for_binding
create_grafana binding_name enable_monitoring_storage = do
  on ← get_boolean grafana_enabled
  size ← get_grafana_data_storage_size
  memory ← get_grafana_request_memory
  ret (record {
    enabled = on;
    storage = create_storage_option size enable_monitoring_storage;
    dashboards_config_map = str_append (get_vmi_name_for_binding binding_name) "-dashboards";
    request_memory = memory;
  })

unfoldable pub create_prometheus : String → Prog Prometheus
unfolding get_boolean create_storage_option
create_prometheus enable_monitoring_storage = do
  on ← get_boolean prom_enabled
  size ← get_prometheus_data_storage_size
  memory ← get_prometheus_request_memory
  ret (record {
    enabled = on;
    storage = create_storage_option size enable_monitoring_storage;
    request_memory = memory;
  })

-- A node, from its count and its memory.
unfoldable pub create_elasticsearch_node : Prog ℤ → Prog String → Prog ElasticsearchNode
create_elasticsearch_node count get_memory = do
  replicas ← count
  memory ← get_memory
  ret (record { replicas = replicas; request_memory = memory })

-- The literal, of its nodes.
unfoldable pub elasticsearch_of :
    Bool → Storage → ElasticsearchNode → ElasticsearchNode → ElasticsearchNode → Elasticsearch
elasticsearch_of on storage ingest master data_nodes = record {
  enabled = on;
  storage = storage;
  ingest_node = ingest;
  master_node = master;
  data_node = data_nodes;
}

unfoldable pub create_elasticsearch : String → Prog Elasticsearch
unfolding get_boolean create_storage_option create_elasticsearch_node
    get_elasticsearch_ingest_node_replicas get_elasticsearch_master_node_replicas
    get_elasticsearch_data_node_replicas elasticsearch_of
create_elasticsearch enable_monitoring_storage = do
  on ← get_boolean es_enabled
  size ← get_elasticsearch_data_storage_size
  ingest ←
      create_elasticsearch_node get_elasticsearch_ingest_node_replicas
        get_elasticsearch_ingest_node_request_memory
  master ←
      create_elasticsearch_node get_elasticsearch_master_node_replicas
        get_elasticsearch_master_node_request_memory
  data_nodes ←
      create_elasticsearch_node get_elasticsearch_data_node_replicas
        get_elasticsearch_data_node_request_memory
  ret (
      elasticsearch_of on (create_storage_option size enable_monitoring_storage) ingest master
        data_nodes)

unfoldable pub create_kibana : Prog Kibana
unfolding get_boolean
create_kibana = do
  on ← get_boolean kibana_enabled
  memory ← get_kibana_request_memory
  ret (record { enabled = on; request_memory = memory })

-- The literal of createInstance, of its parts.
unfoldable pub instance_of :
    SyntheticBinding → String → String → Grafana → Prometheus → Elasticsearch → Kibana → Instance
unfolding get_vmi_name_for_binding get_vmi_uri get_local_binding_labels
instance_of binding binding_name verrazzano_uri grafana prometheus elasticsearch kibana = record {
  metadata =
      named_meta (get_vmi_name_for_binding binding.name) verrazzano_namespace
        (get_local_binding_labels binding);
  spec = record {
    uri = get_vmi_uri binding_name verrazzano_uri;
    auto_secret = true;
    secrets_name = vmi_secret_name;
    cascading_delete = true;
    grafana = grafana;
    ingress_target_dns_name = str_append "verrazzano-ingress." verrazzano_uri;
    prometheus = prometheus;
    elasticsearch = elasticsearch;
    kibana = kibana;
    service_type = "ClusterIP";
  };
}

-- The parts are evaluated in the order in which they stand in the source.
unfoldable pub build_instance : SyntheticBinding → String → String → Prog Instance
unfolding get_profile_binding_name create_grafana create_prometheus create_elasticsearch
    create_kibana instance_of
build_instance binding verrazzano_uri enable_monitoring_storage = do
  binding_name ← get_profile_binding_name binding.name
  grafana ← create_grafana binding.name enable_monitoring_storage
  prometheus ← create_prometheus enable_monitoring_storage
  elasticsearch ← create_elasticsearch enable_monitoring_storage
  kibana ← create_kibana
  ret (instance_of binding binding_name verrazzano_uri grafana prometheus elasticsearch kibana)

unfoldable pub create_instance : SyntheticBinding → String → String → Prog (Answer Instance)
unfolding build_instance
create_instance binding verrazzano_uri enable_monitoring_storage =
    if verrazzano_uri == "" then ret (none, some empty_uri) else do
      new ← build_instance binding verrazzano_uri enable_monitoring_storage
      ret (some new, none)
