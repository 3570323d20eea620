-- ===== src/Samples/Startup.antt =====
-- Properties of the start of the program, and of the composition of the Create functions, at sample
-- inputs.
use verrazzano_operator.Prelude.{◌≡◌, ◌≢◌, refl, true, [], ◌+◌}
use verrazzano_operator.Constants.{vmi_system_binding_name}
use verrazzano_operator.Kube.{RestConfig, nil_channel}
use verrazzano_operator.Prog.Rules.{Runs}
use verrazzano_operator.Managed.Connections.{build_managed_cluster_connection}
use verrazzano_operator.Managed.Connections.Built.{
  Builds, BuildOutcome, build_managed_cluster_connection_lem,
}
use verrazzano_operator.Packages.{ClusterInfo, own_packages, managed_package, util_package}
use verrazzano_operator.Util.{get_managed_clusters_for_verrazzano_binding}
use verrazzano_operator.Controller.Resources.{create_managed_cluster_resources_for_binding}
use verrazzano_operator.Controller.Placing.{
  WritesToPair, create_managed_cluster_resources_for_binding_lem,
}
use verrazzano_operator.Controller.Startup.{create_update_global_entities_goroutine}
use verrazzano_operator.Controller.Startup.Running.{
  WritesAndSleeps, sleeps, create_update_global_entities_goroutine_lem,
}
use verrazzano_operator.Entry.{Flags, main}
use verrazzano_operator.Entry.Unstoppable.{NeverStops, main_lem}
use verrazzano_operator.Samples.{bob_binding, bob_pair, bob_conns, all_conns}
use verrazzano_operator.Samples.Clusters.{bob-IsWellKeyed, bob-filtered}
use verrazzano_operator.Samples.Sources.{no_asset, no_credentials, no_data, source_controller}

abbrev no_info : ClusterInfo
no_info = record {
  container_runtime = "unknown";
  managed_cluster_name = "";
  elasticsearch_url = "";
  elasticsearch_username = "";
  elasticsearch_password = "";
  elasticsearch_ca_bundle = "";
}

abbrev in_cluster : RestConfig
in_cluster = record { id = 1 }

abbrev sample_flags : Flags
sample_flags = record {
  master_url = "";
  kubeconfig = "";
  watch_namespace = "";
  verrazzano_uri = "v8o.example.com";
  enable_monitoring_storage = "true";
  start_controller = true;
}

source-managed : source_controller.packages.managed ≡ managed_package
unfolding own_packages
source-managed = refl

source-filter : source_controller.packages.filter ≡ get_managed_clusters_for_verrazzano_binding
unfolding own_packages util_package
source-filter = refl

create_managed_cluster_resources_for_binding_lem_example :
    Runs
      (WritesToPair bob_pair all_conns)
      (λ h err. Unit {0})
      (bob_binding.name ≢ vmi_system_binding_name)
      []
      (create_managed_cluster_resources_for_binding bob_pair no_info source_controller)
create_managed_cluster_resources_for_binding_lem_example =
    create_managed_cluster_resources_for_binding_lem bob_pair all_conns bob_conns bob-IsWellKeyed
      bob-filtered no_info source_controller source-managed source-filter refl []

build_managed_cluster_connection_lem_example :
    Runs
      (Builds "" nil_channel)
      (BuildOutcome "" nil_channel)
      ⊥
      []
      (build_managed_cluster_connection "" nil_channel)
build_managed_cluster_connection_lem_example =
    build_managed_cluster_connection_lem "" nil_channel []

main_lem_example :
    Runs NeverStops
      (λ h u. ⊥)
      (Unit {0})
      []
      (main sample_flags (own_packages no_asset no_credentials no_data))
main_lem_example = main_lem sample_flags no_asset no_credentials no_data []

create_update_global_entities_goroutine_lem_example :
    Runs
      (WritesAndSleeps no_asset no_credentials no_data bob_binding source_controller refl)
      (λ h u. sleeps h ≡ sleeps [] + 2)
      ⊥
      []
      (create_update_global_entities_goroutine 2 bob_binding source_controller)
create_update_global_entities_goroutine_lem_example =
    create_update_global_entities_goroutine_lem no_asset no_credentials no_data bob_binding
      source_controller refl 2 []
