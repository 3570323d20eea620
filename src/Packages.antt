-- ===== src/Packages.antt =====
-- pkg/controller/controller.go: the interfaces through which the controller calls the other
-- packages, and the implementation `managedPackage`. Go's nil map is the empty list.
use verrazzano_operator.Prelude.{◌⊎◌, String, Bool, Option, List}
use verrazzano_operator.Prelude.Maps.{Map}
use verrazzano_operator.Kube.{Error, Answer, Connection, Channel, Informer, wait_for_cache_sync}
use verrazzano_operator.Managed.Connections.{build_managed_cluster_connection}
use verrazzano_operator.Prog.{Prog, panic, ask}
use verrazzano_operator.Types.{ManagedCluster, SyntheticBinding, SyntheticModelBinding}
use verrazzano_operator.Util.{Filtered, get_managed_clusters_for_verrazzano_binding}
use verrazzano_operator.Monitoring.VmiSecrets.{create_vmi_secrets}
use verrazzano_operator.Managed.Namespaces.{
  create_namespaces, cleanup_orphaned_namespaces, delete_namespaces,
}
use verrazzano_operator.Managed.Secrets.{create_secrets}
use verrazzano_operator.Managed.ServiceAccounts.{create_service_accounts}
use verrazzano_operator.Managed.ConfigMaps.{create_config_maps, cleanup_orphaned_config_maps}
use verrazzano_operator.Managed.ClusterRoles.{
  create_cluster_roles, cleanup_orphaned_cluster_roles, delete_cluster_roles,
}
use verrazzano_operator.Managed.ClusterRoleBindings.{
  create_cluster_role_bindings, cleanup_orphaned_cluster_role_bindings,
  delete_cluster_role_bindings,
}
use verrazzano_operator.Managed.Deployments.{
  create_deployments, delete_deployments, cleanup_orphaned_deployments,
}
use verrazzano_operator.Managed.DaemonSets.{create_daemon_sets}
use verrazzano_operator.Managed.Services.{
  create_services, delete_services, cleanup_orphaned_services,
}
use verrazzano_operator.Local.Secrets.{delete_secrets}
use verrazzano_operator.Local.ConfigMaps.{delete_config_maps, update_config_maps}
use verrazzano_operator.Local.Vmis.{delete_vmi, create_update_vmi}
use verrazzano_operator.Local.AcmeDns.{AcmeDns, update_acme_dns_secret}

-- ClusterInfo of pkg/monitoring/utils.go
pub record ClusterInfo : Type 0 where
  pub container_runtime : String
  pub managed_cluster_name : String
  pub elasticsearch_url : String
  pub elasticsearch_username : String
  pub elasticsearch_password : String
  pub elasticsearch_ca_bundle : String

-- A function of a model/binding pair and of connections.
abbrev pub Operation : Type 0
Operation = SyntheticModelBinding → Map Connection → Prog (Option Error)

-- The methods that the controller calls. Arguments that are the same at each call, such as the
-- clients, are left out.
pub record ManagedInterface : Type 0 where
  pub build_managed_cluster_connection : String → Channel → Prog (Answer Connection)
  pub create_namespaces : Operation
  pub create_secrets : ClusterInfo → Operation
  pub create_service_accounts :
      String → List String → Map ManagedCluster → Map Connection → Prog (Option Error)
  pub create_config_maps : ClusterInfo → Operation
  pub create_cluster_roles : Operation
  pub create_cluster_role_bindings : Operation
  pub create_services : Operation
  pub create_deployments : String → Operation
  pub create_daemon_sets : String → ClusterInfo → Operation
  pub cleanup_orphaned_custom_resources : Operation
  pub cleanup_orphaned_service_entries : Operation
  pub cleanup_orphaned_ingresses : Operation
  pub cleanup_orphaned_cluster_role_bindings : Operation
  pub cleanup_orphaned_cluster_roles : Operation
  pub cleanup_orphaned_config_maps : Operation
  pub cleanup_orphaned_namespaces :
      SyntheticModelBinding → Map Connection → Map SyntheticModelBinding → Prog (Option Error)
  pub cleanup_orphaned_services : Operation
  pub cleanup_orphaned_deployments : Operation
  pub delete_custom_resources : Operation
  pub delete_cluster_role_bindings :
      SyntheticModelBinding → Map Connection → Bool → Prog (Option Error)
  pub delete_cluster_roles : SyntheticModelBinding → Map Connection → Bool → Prog (Option Error)
  pub delete_namespaces : SyntheticModelBinding → Map Connection → Bool → Prog (Option Error)
  pub delete_services : Operation
  pub delete_deployments : Operation

pub record LocalInterface : Type 0 where
  pub delete_vmi : SyntheticBinding → Prog (Option Error)
  pub delete_secrets : SyntheticBinding → Prog (Option Error)
  pub delete_config_maps : SyntheticBinding → Prog (Option Error)
  -- the URI, and whether monitoring storage is enabled
  pub create_update_vmi : SyntheticBinding → String → String → Prog (Option Error)
  pub update_config_maps : SyntheticBinding → Prog (Option Error)
  -- the secret's name and the URI
  pub update_acme_dns_secret : SyntheticBinding → String → String → Prog (Option Error)

-- The fields of the controller that are interfaces, and its caches' WaitForCacheSync.
pub record Packages : Type 0 where
  pub managed : ManagedInterface
  pub local : LocalInterface
  pub filter : SyntheticModelBinding → Map Connection → Filtered
  pub create_vmi_secrets : SyntheticBinding → Prog (Option Error)
  pub wait_for_cache_sync : Channel → List Informer → Prog Bool

-- Calling a method of the embedded interface, which is nil, dereferences nil.
abbrev pub not_implemented : Operation
not_implemented mb conns = panic

-- `managedPackage`: its methods delegate to pkg/managed, and the others are those of the embedded
-- interface.
unfoldable pub managed_package : ManagedInterface
unfolding create_namespaces cleanup_orphaned_namespaces delete_namespaces create_secrets
    create_service_accounts create_config_maps cleanup_orphaned_config_maps create_cluster_roles
    cleanup_orphaned_cluster_roles delete_cluster_roles create_cluster_role_bindings
    cleanup_orphaned_cluster_role_bindings delete_cluster_role_bindings create_deployments
    delete_deployments cleanup_orphaned_deployments create_services delete_services
    cleanup_orphaned_services create_daemon_sets build_managed_cluster_connection
managed_package = record {
  build_managed_cluster_connection = build_managed_cluster_connection;
  create_namespaces = create_namespaces;
  create_secrets = λ info. create_secrets;
  create_service_accounts = create_service_accounts;
  create_config_maps = λ info. create_config_maps;
  create_cluster_roles = create_cluster_roles;
  create_cluster_role_bindings = create_cluster_role_bindings;
  create_services = create_services;
  create_deployments = λ uri. create_deployments;
  create_daemon_sets = λ uri info. create_daemon_sets;
  cleanup_orphaned_custom_resources = not_implemented;
  cleanup_orphaned_service_entries = not_implemented;
  cleanup_orphaned_ingresses = not_implemented;
  cleanup_orphaned_cluster_role_bindings = cleanup_orphaned_cluster_role_bindings;
  cleanup_orphaned_cluster_roles = cleanup_orphaned_cluster_roles;
  cleanup_orphaned_config_maps = cleanup_orphaned_config_maps;
  cleanup_orphaned_namespaces = cleanup_orphaned_namespaces;
  cleanup_orphaned_services = cleanup_orphaned_services;
  cleanup_orphaned_deployments = cleanup_orphaned_deployments;
  delete_custom_resources = not_implemented;
  delete_cluster_role_bindings = delete_cluster_role_bindings;
  delete_cluster_roles = delete_cluster_roles;
  delete_namespaces = delete_namespaces;
  delete_services = delete_services;
  delete_deployments = delete_deployments;
}

-- `localPackage`: its methods delegate to pkg/local.
unfoldable pub local_package :
    (String → String ⊎ Error)
    → (String → Map AcmeDns ⊎ Error)
    → (Map AcmeDns → String ⊎ Error)
    → LocalInterface
unfolding delete_vmi delete_secrets delete_config_maps create_update_vmi update_config_maps
    update_acme_dns_secret
local_package asset unmarshal marshal = record {
  delete_vmi = delete_vmi;
  delete_secrets = delete_secrets;
  delete_config_maps = delete_config_maps;
  create_update_vmi = create_update_vmi;
  update_config_maps = update_config_maps asset;
  update_acme_dns_secret = update_acme_dns_secret unmarshal marshal;
}

-- `cachePackage`, `utilPackage` and `monitoringPackage` have one method each, which delegates.
abbrev pub cache_package : Channel → List Informer → Prog Bool
cache_package stop_ch informers = ask (wait_for_cache_sync stop_ch informers)

unfoldable pub util_package : SyntheticModelBinding → Map Connection → Filtered
unfolding get_managed_clusters_for_verrazzano_binding
util_package = get_managed_clusters_for_verrazzano_binding

unfoldable pub monitoring_package : SyntheticBinding → Prog (Option Error)
unfolding create_vmi_secrets
monitoring_package = create_vmi_secrets

-- The packages that NewController installs.
unfoldable pub own_packages :
    (String → String ⊎ Error)
    → (String → Map AcmeDns ⊎ Error)
    → (Map AcmeDns → String ⊎ Error)
    → Packages
unfolding managed_package local_package monitoring_package util_package
own_packages asset unmarshal marshal = record {
  managed = managed_package;
  local = local_package asset unmarshal marshal;
  filter = util_package;
  create_vmi_secrets = monitoring_package;
  wait_for_cache_sync = cache_package;
}
