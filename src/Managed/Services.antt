-- ===== src/Managed/Services.antt =====
-- pkg/managed/services.go.
use verrazzano_operator.Prelude.{String, false, Option, List, [], ◌∷◌, ◌==◌, if◌then◌else◌}
use verrazzano_operator.Prelude.Maps.{Map}
use verrazzano_operator.Constants.{
  vmi_system_binding_name, node_exporter_name, monitoring_namespace, service_app_label,
}
use verrazzano_operator.Kube.{Error, Connection, Service, services}
use verrazzano_operator.Prog.{Prog}
use verrazzano_operator.Types.{ManagedCluster, SyntheticModelBinding}
use verrazzano_operator.Util.{get_managed_binding_labels}
use verrazzano_operator.Monitoring.Components.{named_meta, get_node_exporter_labels}
use verrazzano_operator.Managed.Shared.{create_in_clusters, delete_in_clusters, cleanup_orphaned}

unfoldable pub new_services : String → List Service
unfolding get_node_exporter_labels
new_services managed_cluster_name =
    record {
      metadata =
          named_meta node_exporter_name monitoring_namespace
            (get_node_exporter_labels managed_cluster_name);
      ports = record { name = "metrics"; port = 9100; target_port = 9100; protocol = "TCP" } ∷ [];
      selector = (service_app_label, node_exporter_name) ∷ [];
      service_type = "ClusterIP";
    }
    ∷ []

unfoldable pub services_for : SyntheticModelBinding → String × ManagedCluster → List Service
unfolding new_services
services_for mb kv =
    if mb.syn_binding.name == vmi_system_binding_name then new_services kv.0 else kv.1.services

unfoldable pub create_services : SyntheticModelBinding → Map Connection → Prog (Option Error)
unfolding create_in_clusters services_for
create_services mb conns = create_in_clusters services mb.managed_clusters conns (services_for mb)

unfoldable pub delete_services : SyntheticModelBinding → Map Connection → Prog (Option Error)
unfolding delete_in_clusters get_managed_binding_labels
delete_services mb conns =
    delete_in_clusters services conns (get_managed_binding_labels mb.syn_binding) (λ _. false)

unfoldable pub service_names : List Service → List String
service_names [] = []
service_names (service ∷ rest) = service.metadata.name ∷ service_names rest

unfoldable pub cleanup_orphaned_services :
    SyntheticModelBinding → Map Connection → Prog (Option Error)
unfolding cleanup_orphaned service_names
cleanup_orphaned_services mb available =
    cleanup_orphaned services mb available (λ mc. service_names mc.services)
