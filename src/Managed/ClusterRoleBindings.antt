-- ===== src/Managed/ClusterRoleBindings.antt =====
-- pkg/managed/clusterrolebinding.go.
use verrazzano_operator.Prelude.{String, Bool, true, Option, List, [], ◌∷◌, ◌==◌, if◌then◌else◌}
use verrazzano_operator.Prelude.Maps.{Map}
use verrazzano_operator.Constants.{
  vmi_system_binding_name, verrazzano_system, verrazzano_system_admin,
}
use verrazzano_operator.Kube.{Error, Connection, ClusterRoleBinding, cluster_role_bindings}
use verrazzano_operator.Prog.{Prog}
use verrazzano_operator.Types.{SyntheticBinding, SyntheticModelBinding}
use verrazzano_operator.Util.{
  get_managed_labels_no_binding, get_service_account_name_for_system,
  get_managed_cluster_namespace_for_system, get_managed_clusters_for_verrazzano_binding,
}
use verrazzano_operator.Monitoring.Components.{role_binding, get_system_cluster_role_bindings}
use verrazzano_operator.Managed.Shared.{
  create_in_clusters, cleanup_in_unmatched, delete_in_clusters, when_filtered, label_selector,
}

unfoldable pub get_managed_cluster_role_binding : String → ClusterRoleBinding
unfolding get_managed_labels_no_binding
get_managed_cluster_role_binding managed_cluster_name =
    role_binding get_managed_cluster_namespace_for_system get_service_account_name_for_system
      (get_managed_labels_no_binding managed_cluster_name)

unfoldable pub new_cluster_role_bindings : SyntheticBinding → String → List ClusterRoleBinding
unfolding get_managed_cluster_role_binding get_system_cluster_role_bindings
new_cluster_role_bindings binding managed_cluster_name =
    if binding.name == vmi_system_binding_name
    then get_system_cluster_role_bindings managed_cluster_name
    else get_managed_cluster_role_binding managed_cluster_name ∷ []

unfoldable pub create_cluster_role_bindings :
    SyntheticModelBinding → Map Connection → Prog (Option Error)
unfolding create_in_clusters new_cluster_role_bindings
create_cluster_role_bindings mb conns =
    create_in_clusters cluster_role_bindings mb.managed_clusters conns
      (λ kv. new_cluster_role_bindings mb.syn_binding kv.0)

unfoldable pub cleanup_orphaned_cluster_role_bindings :
    SyntheticModelBinding → Map Connection → Prog (Option Error)
unfolding cleanup_in_unmatched
cleanup_orphaned_cluster_role_bindings mb available =
    cleanup_in_unmatched cluster_role_bindings mb available

unfoldable pub is_system_cluster_role_binding : ClusterRoleBinding → Bool
is_system_cluster_role_binding o =
    if o.metadata.name == verrazzano_system
    then true
    else o.metadata.name == verrazzano_system_admin

unfoldable pub delete_cluster_role_bindings :
    SyntheticModelBinding → Map Connection → Bool → Prog (Option Error)
unfolding delete_in_clusters label_selector is_system_cluster_role_binding
    get_managed_clusters_for_verrazzano_binding
delete_cluster_role_bindings mb available binding_label =
    when_filtered (get_managed_clusters_for_verrazzano_binding mb available) λ conns.
      delete_in_clusters cluster_role_bindings conns
        (λ cluster_name. label_selector mb cluster_name binding_label)
        is_system_cluster_role_binding
