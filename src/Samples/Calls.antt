-- ===== src/Samples/Calls.antt =====
-- Witnesses for pkg/managed and pkg/local.
use verrazzano_operator.Prelude.{true, false, []}
use verrazzano_operator.Prelude.Slices.{All}
use verrazzano_operator.Kube.{deployments, services, cluster_roles, cluster_role_bindings}
use verrazzano_operator.Prog.Rules.{Runs, OnSuccess}
use verrazzano_operator.Util.{get_managed_clusters_for_verrazzano_binding}
use verrazzano_operator.Managed.Shared.{
  create_in_clusters, delete_in_clusters, cleanup_orphaned, bound_selector,
}
use verrazzano_operator.Managed.Shared.Creating.{
  Writes, Planned, ClusterSettled, create_in_clusters_lem,
}
use verrazzano_operator.Managed.Shared.Deleting.{DeletesListed, Cleared, delete_in_clusters_lem}
use verrazzano_operator.Managed.Shared.Cleaning.{DeletesOrphans, AllTidy, cleanup_orphaned_lem}
use verrazzano_operator.Managed.Namespaces.{
  create_namespaces, delete_namespaces, cleanup_orphaned_namespaces,
}
use verrazzano_operator.Managed.Namespaces.Creates.{
  CreatesAbsent, IsPlaced, ClusterPrepared, create_namespaces_lem,
}
use verrazzano_operator.Managed.Namespaces.Deletes.{
  NamespaceCalls, MayDelete, AllFiltered, ClusterCleared, delete_namespaces_lem,
}
use verrazzano_operator.Managed.Namespaces.Orphans.{MayCleanUp}
use verrazzano_operator.Managed.Namespaces.Cleanup.{CleanedUp, cleanup_orphaned_namespaces_lem}
use verrazzano_operator.Managed.Secrets.{create_secrets}
use verrazzano_operator.Managed.Secrets.Sources.{CopiesOnly}
use verrazzano_operator.Managed.Secrets.Copies.{ReachesFiltered}
use verrazzano_operator.Managed.Secrets.Copies.{create_secrets-Only}
use verrazzano_operator.Managed.ClusterRoles.{delete_cluster_roles, is_system_cluster_role}
use verrazzano_operator.Managed.ClusterRoleBindings.{
  delete_cluster_role_bindings, is_system_cluster_role_binding,
}
use verrazzano_operator.Managed.Spared.{Clears, delete_roles_lem}
use verrazzano_operator.Kube.{secrets, config_maps, instances}
use verrazzano_operator.Local.Secrets.{delete_secrets}
use verrazzano_operator.Local.ConfigMaps.{delete_config_maps}
use verrazzano_operator.Local.Vmis.{delete_vmi}
use verrazzano_operator.Local.Deleted.{DeletesAllOwn, delete_local_lem}
use verrazzano_operator.Samples.{bob_binding, bob_pair, bob_clusters, bob_conns, all_conns}
use verrazzano_operator.Samples.Clusters.{bob-IsWellKeyed, bob-Covers}

create_in_clusters_lem_example :
    Runs
      (Writes (Planned deployments bob_clusters bob_conns (λ kv. kv.1.deployments)))
      (OnSuccess
        (λ h. All (ClusterSettled deployments bob_conns (λ kv. kv.1.deployments) h) bob_clusters))
      ⊥
      []
      (create_in_clusters deployments bob_clusters bob_conns (λ kv. kv.1.deployments))
create_in_clusters_lem_example =
    create_in_clusters_lem deployments bob_clusters bob_conns (λ kv. kv.1.deployments) bob-Covers []

delete_in_clusters_lem_example :
    Runs
      (DeletesListed services bob_conns (bound_selector bob_pair) (λ o. false))
      (OnSuccess (λ h. All (Cleared services (bound_selector bob_pair) (λ o. false) h) bob_conns))
      ⊥
      []
      (delete_in_clusters services bob_conns (bound_selector bob_pair) (λ o. false))
delete_in_clusters_lem_example =
    delete_in_clusters_lem services bob_conns (bound_selector bob_pair) (λ o. false) []

cleanup_orphaned_lem_example :
    Runs
      (DeletesOrphans services bob_pair (λ mc. mc.namespaces))
      (OnSuccess (
        AllTidy services bob_pair all_conns
          (λ mc. mc.namespaces)
          (get_managed_clusters_for_verrazzano_binding bob_pair all_conns)))
      ⊥
      []
      (cleanup_orphaned services bob_pair all_conns (λ mc. mc.namespaces))
cleanup_orphaned_lem_example =
    cleanup_orphaned_lem services bob_pair all_conns (λ mc. mc.namespaces) bob-IsWellKeyed []

create_namespaces_lem_example :
    Runs
      (CreatesAbsent (IsPlaced bob_pair.managed_clusters bob_conns) bob_binding)
      (OnSuccess (λ h. All (ClusterPrepared bob_binding bob_conns h) bob_clusters))
      ⊥
      []
      (create_namespaces bob_pair bob_conns)
create_namespaces_lem_example = create_namespaces_lem bob_pair bob_conns bob-Covers []

delete_namespaces_lem_example :
    Runs
      (NamespaceCalls (MayDelete bob_pair true))
      (OnSuccess (λ h.
        AllFiltered
          (get_managed_clusters_for_verrazzano_binding bob_pair all_conns)
          (ClusterCleared bob_pair true h)))
      ⊥
      []
      (delete_namespaces bob_pair all_conns true)
delete_namespaces_lem_example = delete_namespaces_lem bob_pair all_conns true []

cleanup_orphaned_namespaces_lem_example :
    Runs
      (NamespaceCalls (MayCleanUp bob_pair []))
      (OnSuccess (
        CleanedUp bob_pair all_conns
          (get_managed_clusters_for_verrazzano_binding bob_pair all_conns)))
      ⊥
      []
      (cleanup_orphaned_namespaces bob_pair all_conns [])
cleanup_orphaned_namespaces_lem_example =
    cleanup_orphaned_namespaces_lem bob_pair all_conns [] bob-IsWellKeyed []

create_secrets-Only_example :
    Runs
      (CopiesOnly (ReachesFiltered bob_pair all_conns))
      (λ h err. Unit {0})
      (Unit {0})
      []
      (create_secrets bob_pair all_conns)
create_secrets-Only_example = create_secrets-Only bob_pair all_conns []

delete_local_lem_example :
    DeletesAllOwn secrets bob_binding (delete_secrets bob_binding)
    × DeletesAllOwn config_maps bob_binding (delete_config_maps bob_binding)
    × DeletesAllOwn instances bob_binding (delete_vmi bob_binding)
delete_local_lem_example = delete_local_lem bob_binding

delete_roles_lem_example :
    Clears bob_pair all_conns false cluster_roles is_system_cluster_role
      (delete_cluster_roles bob_pair all_conns false)
    × Clears bob_pair all_conns false cluster_role_bindings is_system_cluster_role_binding
        (delete_cluster_role_bindings bob_pair all_conns false)
delete_roles_lem_example = delete_roles_lem bob_pair all_conns false
