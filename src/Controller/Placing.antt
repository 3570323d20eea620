-- ===== src/Controller/Placing.antt =====
-- pkg/controller/controller.go, createManagedClusterResourcesForBinding with the packages of the
-- source.
use verrazzano_operator.Prelude.{
  String, ◌≡◌, ◌≢◌, refl, ◌==◌, eq_iff, arith, Option, List, [], ◌∷◌, inl, inr, Bool-cases,
}
use verrazzano_operator.Prelude.Maps.{Map}
use verrazzano_operator.Constants.{vmi_system_binding_name}
use verrazzano_operator.Kube.{
  service_accounts, config_maps, cluster_roles, cluster_role_bindings, deployments, services, Error,
  Client, Connection, Kind, Obj, History, Request,
}
use verrazzano_operator.Prog.{Prog}
use verrazzano_operator.Prog.Rules.{Runs-mono, Runs-weaken, Runs-excuse}
use verrazzano_operator.Types.{ManagedCluster, SyntheticModelBinding}
use verrazzano_operator.Util.{filtered, get_managed_clusters_for_verrazzano_binding}
use verrazzano_operator.Util.Clusters.{
  Covers, Reaches, IsWellKeyed, get_managed_clusters-Covers, Covers-available, Reaches-available,
}
use verrazzano_operator.Managed.Shared.{create_in_clusters}
use verrazzano_operator.Managed.Shared.Creating.{Planned, create_in_clusters_lem}
use verrazzano_operator.Managed.Namespaces.Creates.{IsPlaced, create_namespaces_lem}
use verrazzano_operator.Managed.Secrets.{create_secrets, get_filtered_connections}
use verrazzano_operator.Managed.Secrets.Copies.{ReachesFiltered, create_secrets-Only}
use verrazzano_operator.Managed.DaemonSets.Creates.{create_daemon_sets_lem}
use verrazzano_operator.Managed.Reaching.{
  WritesThrough, Writes-WritesThrough, CreatesAbsent-WritesThrough, CopiesOnly-WritesThrough,
  WritesNodeExporters-WritesThrough, create_secrets-system,
}
use verrazzano_operator.Managed.Namespaces.{create_namespaces}
use verrazzano_operator.Managed.DaemonSets.{create_daemon_sets}
use verrazzano_operator.Managed.ServiceAccounts.{create_service_accounts, service_accounts_for}
use verrazzano_operator.Managed.ConfigMaps.{create_config_maps, config_maps_for}
use verrazzano_operator.Managed.ClusterRoles.{create_cluster_roles, new_cluster_roles}
use verrazzano_operator.Managed.ClusterRoleBindings.{
  create_cluster_role_bindings, new_cluster_role_bindings,
}
use verrazzano_operator.Managed.Deployments.{create_deployments}
use verrazzano_operator.Managed.Services.{create_services, services_for}
use verrazzano_operator.Packages.{ClusterInfo, managed_package}
use verrazzano_operator.Controller.{Controller}
use verrazzano_operator.Controller.Resources.{
  nil_if_unavailable, create_managed_cluster_resources_for_binding,
}
use verrazzano_operator.Controller.Steps.{Allowed, Runs-run_all}

-- The writes to the clusters of the pair, through the connections that are available.
abbrev pub WritesToPair : SyntheticModelBinding → Map Connection → History → Request → Type 0
WritesToPair mb available = WritesThrough (Reaches mb.managed_clusters available)

module _ (mb : SyntheticModelBinding) (available conns : Map Connection)
    (keyed : IsWellKeyed mb.managed_clusters)
    (all_there : get_managed_clusters_for_verrazzano_binding mb available ≡ filtered conns) where
  conns-Covers : Covers mb.managed_clusters conns
  conns-Covers = get_managed_clusters-Covers mb available conns keyed all_there

  available-Covers : Covers mb.managed_clusters available
  available-Covers = Covers-available mb available conns keyed all_there

  reaches :
      (c : Client) → Reaches mb.managed_clusters conns c → Reaches mb.managed_clusters available c
  reaches c r = Reaches-available mb available conns c keyed all_there r

  -- The loop of a Create function, with whatever it plans.
  Allowed-create_in_clusters :
      (k : Kind) (objs : String × ManagedCluster → List (Obj k))
      → Allowed (WritesToPair mb available) ⊥ (create_in_clusters k mb.managed_clusters conns objs)
  Allowed-create_in_clusters k objs h =
      Runs-mono _ h (λ _ _ _. tt)
        (Runs-weaken _ h
          (Writes-WritesThrough (Reaches mb.managed_clusters available)
            (Planned k mb.managed_clusters conns objs)
            (λ c k' o (kv, conn, o', i, found, e, planned, eo). reaches c (kv, conn, i, found, e)))
          (create_in_clusters_lem k mb.managed_clusters conns objs conns-Covers h))

  ReachesFiltered-Reaches :
      (c : Client) → ReachesFiltered mb available c → Reaches mb.managed_clusters available c
  unfolding get_filtered_connections
  ReachesFiltered-Reaches c (m, e, r) =
      elim (Bool-cases (mb.syn_binding.name == vmi_system_binding_name)) [
        | inl s ↦ let e' = rw s at e in let same : m ≡ available = cc in rw same at r
        | inr s ↦ Reaches-available mb available m c keyed (rw s at e) r
      ]

  same : nil_if_unavailable (get_managed_clusters_for_verrazzano_binding mb available) ≡ conns
  same = rw all_there refl

  -- A panic is excused where the binding is not that of the system.
  abbrev pub IsOther : Type 0
  IsOther = mb.syn_binding.name ≢ vmi_system_binding_name

  Allowed-create_secrets : Allowed (WritesToPair mb available) IsOther (create_secrets mb available)
  Allowed-create_secrets h = elim (Bool-cases (mb.syn_binding.name == vmi_system_binding_name)) [
    | inl s ↦ Runs-excuse _ h absurd (
        Runs-weaken _ h (λ _ _ g. absurd g)
          (create_secrets-system mb available
            ((eq_iff mb.syn_binding.name vmi_system_binding_name).0 s) available-Covers h))
    | inr s ↦
        Runs-excuse _ h (λ u. ground (arith, eq_iff mb.syn_binding.name vmi_system_binding_name))
          (Runs-weaken _ h
            (CopiesOnly-WritesThrough (Reaches mb.managed_clusters available)
              (ReachesFiltered mb available) ReachesFiltered-Reaches)
            (create_secrets-Only mb available h))
  ]

  Allowed-create_namespaces : Allowed (WritesToPair mb available) ⊥ (create_namespaces mb conns)
  Allowed-create_namespaces h =
      Runs-mono _ h (λ _ _ _. tt)
        (Runs-weaken _ h
          (CreatesAbsent-WritesThrough (Reaches mb.managed_clusters available)
            (IsPlaced mb.managed_clusters conns)
            (λ c cluster n (kv, conn, i, found, e, name, placed). reaches c (kv, conn, i, found, e))
            mb.syn_binding)
          (create_namespaces_lem mb conns conns-Covers h))

  Allowed-create_daemon_sets : Allowed (WritesToPair mb available) ⊥ (create_daemon_sets mb conns)
  Allowed-create_daemon_sets h =
      Runs-mono _ h (λ _ _ _. tt)
        (Runs-weaken _ h
          (WritesNodeExporters-WritesThrough (Reaches mb.managed_clusters available) mb conns
            reaches)
          (create_daemon_sets_lem mb conns conns-Covers h))

  abbrev excused :
      (p : Prog (Option Error))
      → Allowed (WritesToPair mb available) ⊥ p
      → Allowed (WritesToPair mb available) IsOther p
  excused p a h = Runs-excuse p h absurd (a h)

  -- With the packages of the source, and on a well-keyed pair whose clusters are all connected,
  -- createManagedClusterResourcesForBinding only reads, compares, creates and updates, and deletes
  -- nothing. It asks listers, creates and updates only through the connections of the pair's own
  -- clusters, and creates only what the cluster's lister did not find; besides it reads only secrets
  -- of the management cluster and the environment. For the system binding it does not panic.
  pub create_managed_cluster_resources_for_binding_lem :
      (info : ClusterInfo) (c : Controller)
      → c.packages.managed ≡ managed_package
      → c.packages.filter ≡ get_managed_clusters_for_verrazzano_binding
      → c.managed_cluster_connections ≡ available
      → Allowed
          (WritesToPair mb available)
          IsOther
          (create_managed_cluster_resources_for_binding mb info c)
  unfolding create_managed_cluster_resources_for_binding managed_package create_service_accounts
      create_config_maps create_cluster_roles create_cluster_role_bindings create_deployments
      create_services
  create_managed_cluster_resources_for_binding_lem info c own own_filter known h =
      rw (own, own_filter, known, same)
        (Runs-run_all (WritesToPair mb available) IsOther
          (create_namespaces mb conns
            ∷ create_secrets mb available
            ∷ create_in_clusters service_accounts mb.managed_clusters conns
                (service_accounts_for mb.syn_binding.name mb.image_pull_secrets)
            ∷ create_in_clusters config_maps mb.managed_clusters conns (config_maps_for mb)
            ∷ create_in_clusters cluster_roles mb.managed_clusters conns
                (λ kv. new_cluster_roles mb.syn_binding kv.0)
            ∷ create_in_clusters cluster_role_bindings mb.managed_clusters conns
                (λ kv. new_cluster_role_bindings mb.syn_binding kv.0)
            ∷ create_in_clusters deployments mb.managed_clusters conns (λ kv. kv.1.deployments)
            ∷ create_in_clusters services mb.managed_clusters conns (services_for mb)
            ∷ create_daemon_sets mb conns
            ∷ [])
          (
            excused _ Allowed-create_namespaces,
            (
              Allowed-create_secrets,
              (
                excused _ (Allowed-create_in_clusters service_accounts _),
                (
                  excused _ (Allowed-create_in_clusters config_maps _),
                  (
                    excused _ (Allowed-create_in_clusters cluster_roles _),
                    (
                      excused _ (Allowed-create_in_clusters cluster_role_bindings _),
                      (
                        excused _ (Allowed-create_in_clusters deployments _),
                        (
                          excused _ (Allowed-create_in_clusters services _),
                          (excused _ Allowed-create_daemon_sets, tt),
                        ),
                      ),
                    ),
                  ),
                ),
              ),
            ),
          )
          h)
