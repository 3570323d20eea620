-- ===== src/Controller/Handlers.antt =====
-- pkg/controller/controller.go: the handlers that call the other packages.
use verrazzano_operator.Prelude.{List, String, Option, none, some, [], ◌∷◌, if◌then◌else◌, is_some}
use verrazzano_operator.Prelude.Maps.{lookup, insert}
use verrazzano_operator.Constants.{
  acme_dns_secret, vmi_system_binding_name, verrazzano_system, verrazzano_operator_service_account,
  monitoring_namespace,
}
use verrazzano_operator.Kube.{
  Error, Answer, Informer, objects, managed, deployments, namespaces, secrets, ServiceAccount,
  service_accounts, Connection, management, live_get,
}
use verrazzano_operator.Prog.{Prog, ret, panic, ask, ◌>>=◌, ◌>>◌}
use verrazzano_operator.Types.{SyntheticBinding, SyntheticModel, SyntheticModelBinding}
use verrazzano_operator.Location.{create_synthetic_model_binding, new_managed_cluster}
use verrazzano_operator.Util.{contains}
use verrazzano_operator.Packages.{Packages, LocalInterface}
use verrazzano_operator.Controller.{
  Controller, binding_finalizer, adopt_binding, forget_binding, Noted, skip, sync, note_binding,
  renew_pair,
}
use verrazzano_operator.Controller.Resources.{
  run_all, delete_resources, wait_for_managed_clusters, get_cluster_info,
  create_managed_cluster_resources_for_binding, cleanup_orphaned_resources,
}

unfoldable pub process_application_binding_deleted : SyntheticBinding → Controller → Prog Controller
unfolding contains lookup delete_resources forget_binding
process_application_binding_deleted binding c =
    if contains binding.finalizers binding_finalizer
    then (elim (lookup binding.name c.synthetic_model_bindings) [
      | none ↦ ret c
      | some mb ↦ do
        err ← delete_resources binding mb c
        ret (if is_some err then c else forget_binding binding c)
    ])
    else ret c

-- createUpdateGlobalEntities, and the same calls for a binding.
unfoldable pub create_update_global_entities : SyntheticBinding → Controller → Prog (Option Error)
unfolding run_all
create_update_global_entities binding c =
    let p : Packages = c.packages in
    let l : LocalInterface = p.local in
    run_all (
      l.create_update_vmi binding c.verrazzano_uri c.enable_monitoring_storage
      ∷ p.create_vmi_secrets binding
      ∷ l.update_config_maps binding
      ∷ [])

-- What follows when all clusters of the binding are there.
unfoldable pub sync_resources :
    SyntheticBinding → SyntheticModelBinding → Controller → Prog (Option Error)
unfolding create_update_global_entities get_cluster_info cleanup_orphaned_resources
    create_managed_cluster_resources_for_binding
sync_resources binding mb c =
    let l : LocalInterface = c.packages.local in
    do
      create_update_global_entities binding c
      l.update_acme_dns_secret binding acme_dns_secret c.verrazzano_uri
      info ← get_cluster_info
      create_managed_cluster_resources_for_binding mb info c
      cleanup_orphaned_resources mb c

-- Nothing is left to do without a pair, or without its clusters.
unfoldable pub sync_binding : SyntheticBinding → Controller → Prog (Option Error)
unfolding lookup wait_for_managed_clusters sync_resources
sync_binding binding c = elim (lookup binding.name c.synthetic_model_bindings) [
  | none ↦ ret none
  | some mb ↦ do
    err ← wait_for_managed_clusters mb binding.name c
    (if is_some err then ret none else sync_resources binding mb c)
]

abbrev pub after_noted : SyntheticBinding → Noted → Prog Controller
after_noted binding (skip c) = ret c
after_noted binding (sync c) = do
  sync_binding binding (renew_pair binding c)
  ret (renew_pair binding c)

unfoldable pub process_application_binding_added : SyntheticBinding → Controller → Prog Controller
unfolding contains adopt_binding process_application_binding_deleted note_binding renew_pair
    sync_binding
process_application_binding_added binding c = elim binding.deletion_timestamp [
  | some t ↦
      if contains binding.finalizers binding_finalizer
      then process_application_binding_deleted binding (adopt_binding binding c)
      else ret c
  | none ↦ after_noted binding (note_binding binding c)
]

-- The in-memory binding and model of the system.
abbrev pub system_binding : SyntheticBinding
system_binding = record {
  name = vmi_system_binding_name;
  namespace = "";
  resource_version = "";
  deletion_timestamp = none;
  finalizers = [];
  spec = record { description = ""; model_name = ""; placement = [] };
}

abbrev pub system_model : SyntheticModel
system_model = record { name = vmi_system_binding_name; resource_version = "" }

-- The pair for the system, with the new cluster and its monitoring namespace.
unfoldable pub system_pair : String → Controller → SyntheticModelBinding
unfolding create_synthetic_model_binding insert
system_pair cluster_name c =
    let mb =
      create_synthetic_model_binding system_model system_binding c.verrazzano_uri
        c.image_pull_secrets in
    record mb {
      managed_clusters =
          insert cluster_name
            (record (new_managed_cluster cluster_name) { namespaces = monitoring_namespace ∷ [] })
            mb.managed_clusters;
    }

unfoldable pub put_connection : String → Connection → Controller → Controller
unfolding insert
put_connection cluster_name conn c = record c {
  managed_cluster_connections = insert cluster_name conn c.managed_cluster_connections;
}

-- The informers that processManagedCluster waits for.
abbrev pub synced_informers : Connection → List Informer
synced_informers conn =
    record { client = managed conn; resource = objects deployments }
    ∷ record { client = managed conn; resource = objects namespaces }
    ∷ record { client = managed conn; resource = objects secrets }
    ∷ []

abbrev pub when_built : String → Controller → Answer Connection → Prog Controller
when_built cluster_name c (found, some e) = ret c
when_built cluster_name c (none, none) = panic
when_built cluster_name c (some conn, none) =
    let c1 = put_connection cluster_name conn c in
    do
      c.packages.wait_for_cache_sync c.stop_ch (synced_informers conn)
      info ← get_cluster_info
      create_managed_cluster_resources_for_binding (system_pair cluster_name c1) info c1
      ret c1

abbrev pub with_service_account :
    String → String → Controller → Answer ServiceAccount → Prog Controller
with_service_account cluster_name kubeconfig_path c (found, some e) = ret c
with_service_account cluster_name kubeconfig_path c (none, none) = panic
with_service_account cluster_name kubeconfig_path c (some sa, none) =
    let c1 : Controller = record c { image_pull_secrets = sa.image_pull_secrets } in
    elim (lookup cluster_name c.managed_cluster_connections) [
      | some conn ↦ ret c1
      | none ↦ do
        answer ← c.packages.managed.build_managed_cluster_connection kubeconfig_path c1.stop_ch
        when_built cluster_name c1 answer
    ]

unfoldable pub process_managed_cluster : String → String → Controller → Prog Controller
unfolding lookup put_connection get_cluster_info create_managed_cluster_resources_for_binding
    system_pair
process_managed_cluster cluster_name kubeconfig_path c = do
  answer ←
      ask
        (live_get management service_accounts verrazzano_system verrazzano_operator_service_account)
  with_service_account cluster_name kubeconfig_path c answer
