-- ===== src/Managed/ServiceAccounts.antt =====
-- pkg/managed/serviceaccount.go.
use verrazzano_operator.Prelude.{String, Option, List, [], ◌∷◌, ◌++◌, ◌==◌, if◌then◌else◌}
use verrazzano_operator.Prelude.Maps.{Map}
use verrazzano_operator.Constants.{vmi_system_binding_name}
use verrazzano_operator.Kube.{Error, Connection, ServiceAccount, service_accounts}
use verrazzano_operator.Prog.{Prog}
use verrazzano_operator.Types.{ManagedCluster}
use verrazzano_operator.Util.{get_managed_labels_no_binding, get_service_account_name_for_system}
use verrazzano_operator.Monitoring.Components.{
  named_meta, get_monitoring_components, get_monitoring_component_labels, get_monitoring_namespace,
}
use verrazzano_operator.Managed.Shared.{create_in_clusters}

abbrev pub service_account : String → String → Map String → List String → ServiceAccount
service_account name namespace labels pull = record {
  metadata = named_meta name namespace labels;
  image_pull_secrets = pull;
}

-- The loop breaks after its first round for the system binding.
unfoldable pub new_service_accounts :
    String → List String → String → Map String → String → List String → List ServiceAccount
new_service_accounts binding_name [] name labels namespace_name pull = []
new_service_accounts binding_name (namespace ∷ rest) name labels namespace_name pull =
    let others = new_service_accounts binding_name rest name labels namespace_name pull in
    if binding_name == vmi_system_binding_name
    then service_account name namespace_name labels pull ∷ []
    else service_account name namespace labels pull ∷ others

-- The loop over the monitoring components.
unfoldable pub monitoring_service_accounts :
    String → List String → String × ManagedCluster → List String → List ServiceAccount
unfolding new_service_accounts get_monitoring_component_labels get_monitoring_namespace
monitoring_service_accounts binding_name pull kv [] = []
monitoring_service_accounts binding_name pull kv (component ∷ rest) =
    new_service_accounts binding_name kv.1.namespaces component
      (get_monitoring_component_labels kv.0 component) (get_monitoring_namespace component) pull
    ++ monitoring_service_accounts binding_name pull kv rest

unfoldable pub service_accounts_for :
    String → List String → String × ManagedCluster → List ServiceAccount
unfolding monitoring_service_accounts new_service_accounts get_monitoring_components
    get_managed_labels_no_binding
service_accounts_for binding_name pull kv =
    if binding_name == vmi_system_binding_name
    then monitoring_service_accounts binding_name pull kv get_monitoring_components
    else new_service_accounts binding_name kv.1.namespaces get_service_account_name_for_system
        (get_managed_labels_no_binding kv.0) "" pull

unfoldable pub create_service_accounts :
    String → List String → Map ManagedCluster → Map Connection → Prog (Option Error)
unfolding create_in_clusters service_accounts_for
create_service_accounts binding_name pull clusters conns =
    create_in_clusters service_accounts clusters conns (service_accounts_for binding_name pull)
