-- ===== src/Monitoring/Components.antt =====
-- pkg/monitoring/utils.go, clusterroles.go and clusterrolebinding.go.
use verrazzano_operator.Prelude.{String, List, [], ◌∷◌, ◌==◌, if◌then◌else◌}
use verrazzano_operator.Prelude.Maps.{Map}
use verrazzano_operator.Constants.{
  node_exporter_name, monitoring_namespace, service_app_label, verrazzano_binding,
  verrazzano_cluster, vmi_system_binding_name,
}
use verrazzano_operator.Kube.{ObjectMeta, ClusterRole, ClusterRoleBinding}

-- The metadata literal of an object with these three fields set.
abbrev pub named_meta : String → String → Map String → ObjectMeta
named_meta name namespace labels = record {
  name = name;
  namespace = namespace;
  labels = labels;
  resource_version = "";
  owner_references = [];
  uid = "";
}

unfoldable pub get_node_exporter_labels : String → Map String
get_node_exporter_labels managed_cluster_name =
    (service_app_label, node_exporter_name)
    ∷ (verrazzano_binding, vmi_system_binding_name)
    ∷ (verrazzano_cluster, managed_cluster_name)
    ∷ []

-- A nil map is empty here.
unfoldable pub get_monitoring_component_labels : String → String → Map String
unfolding get_node_exporter_labels
get_monitoring_component_labels managed_cluster_name component_name =
    if component_name == node_exporter_name
    then get_node_exporter_labels managed_cluster_name
    else []

unfoldable pub get_monitoring_namespace : String → String
get_monitoring_namespace component_name =
    if component_name == node_exporter_name then monitoring_namespace else ""

unfoldable pub get_monitoring_components : List String
get_monitoring_components = node_exporter_name ∷ []

unfoldable pub create_monitoring_cluster_roles : String → Map String → ClusterRole
create_monitoring_cluster_roles name labels = record {
  metadata = named_meta name "" labels;
  rules =
      record {
        api_groups = "extensions" ∷ [];
        resources = "podsecuritypolicies" ∷ [];
        verbs = "use" ∷ [];
        resource_names = "system-node-exporter" ∷ [];
        non_resource_urls = [];
      }
      ∷ [];
}

unfoldable pub get_system_cluster_roles : String → List ClusterRole
unfolding create_monitoring_cluster_roles get_node_exporter_labels
get_system_cluster_roles managed_cluster_name =
    create_monitoring_cluster_roles node_exporter_name
      (get_node_exporter_labels managed_cluster_name)
    ∷ []

-- The binding of a cluster role to the service account of the same name.
abbrev pub role_binding : String → String → Map String → ClusterRoleBinding
role_binding namespace name labels = record {
  metadata = named_meta name "" labels;
  subjects = record { kind = "ServiceAccount"; name = name; namespace = namespace } ∷ [];
  role_ref = record { api_group = "rbac.authorization.k8s.io"; kind = "ClusterRole"; name = name };
}

unfoldable pub create_system_cluster_role_binding :
    String → String → Map String → ClusterRoleBinding
create_system_cluster_role_binding namespace name labels = role_binding namespace name labels

unfoldable pub get_system_cluster_role_bindings : String → List ClusterRoleBinding
unfolding create_system_cluster_role_binding get_node_exporter_labels
get_system_cluster_role_bindings managed_cluster_name =
    create_system_cluster_role_binding monitoring_namespace node_exporter_name
      (get_node_exporter_labels managed_cluster_name)
    ∷ []
