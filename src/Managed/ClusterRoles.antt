-- ===== src/Managed/ClusterRoles.antt =====
-- pkg/managed/clusterroles.go.
pub mod PolicyRules
use verrazzano_operator.Prelude.{String, Bool, true, Option, List, [], ◌∷◌, ◌==◌, if◌then◌else◌}
use verrazzano_operator.Prelude.Maps.{Map}
use verrazzano_operator.Constants.{
  vmi_system_binding_name, verrazzano_system, verrazzano_system_admin,
}
use verrazzano_operator.Kube.{Error, Connection, ClusterRole, cluster_roles}
use verrazzano_operator.Prog.{Prog}
use verrazzano_operator.Types.{ManagedCluster, SyntheticBinding, SyntheticModelBinding}
use verrazzano_operator.Util.{
  get_managed_labels_no_binding, get_service_account_name_for_system,
  get_managed_clusters_for_verrazzano_binding,
}
use verrazzano_operator.Monitoring.Components.{named_meta, get_system_cluster_roles}
use verrazzano_operator.Managed.ClusterRoles.PolicyRules.{policy_rules}
use verrazzano_operator.Managed.Shared.{
  create_in_clusters, cleanup_in_unmatched, delete_in_clusters, when_filtered, label_selector,
}

unfoldable pub managed_cluster_role : String → ClusterRole
unfolding get_managed_labels_no_binding
managed_cluster_role cluster_name = record {
  metadata =
      named_meta get_service_account_name_for_system ""
        (get_managed_labels_no_binding cluster_name);
  rules = policy_rules;
}

unfoldable pub new_cluster_roles : SyntheticBinding → String → List ClusterRole
unfolding managed_cluster_role get_system_cluster_roles
new_cluster_roles binding cluster_name =
    if binding.name == vmi_system_binding_name
    then get_system_cluster_roles cluster_name
    else managed_cluster_role cluster_name ∷ []

unfoldable pub create_cluster_roles : SyntheticModelBinding → Map Connection → Prog (Option Error)
unfolding create_in_clusters new_cluster_roles
create_cluster_roles mb conns =
    create_in_clusters cluster_roles mb.managed_clusters conns
      (λ kv. new_cluster_roles mb.syn_binding kv.0)

unfoldable pub cleanup_orphaned_cluster_roles :
    SyntheticModelBinding → Map Connection → Prog (Option Error)
unfolding cleanup_in_unmatched
cleanup_orphaned_cluster_roles mb available = cleanup_in_unmatched cluster_roles mb available

unfoldable pub is_system_cluster_role : ClusterRole → Bool
is_system_cluster_role o =
    if o.metadata.name == verrazzano_system
    then true
    else o.metadata.name == verrazzano_system_admin

unfoldable pub delete_cluster_roles :
    SyntheticModelBinding → Map Connection → Bool → Prog (Option Error)
unfolding delete_in_clusters label_selector is_system_cluster_role
    get_managed_clusters_for_verrazzano_binding
delete_cluster_roles mb available binding_label =
    when_filtered (get_managed_clusters_for_verrazzano_binding mb available) λ conns.
      delete_in_clusters cluster_roles conns
        (λ cluster_name. label_selector mb cluster_name binding_label) is_system_cluster_role
