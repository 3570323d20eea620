-- ===== src/Environment/Variables.antt =====
-- pkg/util/env.go: the functions that return a variable as it is.
use verrazzano_operator.Prelude.{String}
use verrazzano_operator.Kube.{get_env}
use verrazzano_operator.Prog.{Prog, ask}

abbrev pub get_node_exporter_image : Prog String
get_node_exporter_image = ask (get_env "NODE_EXPORTER_IMAGE")

abbrev pub get_elasticsearch_master_node_request_memory : Prog String
get_elasticsearch_master_node_request_memory = ask (get_env "ES_MASTER_NODE_REQUEST_MEMORY")

abbrev pub get_elasticsearch_ingest_node_request_memory : Prog String
get_elasticsearch_ingest_node_request_memory = ask (get_env "ES_INGEST_NODE_REQUEST_MEMORY")

abbrev pub get_elasticsearch_data_node_request_memory : Prog String
get_elasticsearch_data_node_request_memory = ask (get_env "ES_DATA_NODE_REQUEST_MEMORY")

abbrev pub get_elasticsearch_data_storage_size : Prog String
get_elasticsearch_data_storage_size = ask (get_env "ES_DATA_STORAGE")

abbrev pub get_grafana_request_memory : Prog String
get_grafana_request_memory = ask (get_env "GRAFANA_REQUEST_MEMORY")

abbrev pub get_grafana_data_storage_size : Prog String
get_grafana_data_storage_size = ask (get_env "GRAFANA_DATA_STORAGE")

abbrev pub get_prometheus_request_memory : Prog String
get_prometheus_request_memory = ask (get_env "PROMETHEUS_REQUEST_MEMORY")

abbrev pub get_prometheus_data_storage_size : Prog String
get_prometheus_data_storage_size = ask (get_env "PROMETHEUS_DATA_STORAGE")

abbrev pub get_kibana_request_memory : Prog String
get_kibana_request_memory = ask (get_env "KIBANA_REQUEST_MEMORY")
