-- ===== src/Controller/Resources.antt =====
-- pkg/controller/controller.go: the calls of the other packages that make, clean up and delete a
-- binding's resources, and the wait for its clusters.
use verrazzano_operator.Prelude.{
  String, ℕ, zero, suc, true, false, Option, none, some, List, [], ◌∷◌,
}
use verrazzano_operator.Prelude.Slices.{length}
use verrazzano_operator.Prelude.Maps.{Map, lookup}
use verrazzano_operator.Constants.{verrazzano_namespace}
use verrazzano_operator.Kube.{
  Error, clusters_timeout, clusters_still_missing, Answer, Secret, secrets, Connection, management,
  cached_get, list_nodes, timers, NodeList,
}
use verrazzano_operator.Prog.{Prog, ret, panic, ask, ◌>>=◌, ◌>>◌, for_each}
use verrazzano_operator.Types.{SyntheticBinding, SyntheticModelBinding}
use verrazzano_operator.Util.{Filtered, filtered, unavailable}
use verrazzano_operator.Packages.{ClusterInfo, ManagedInterface, LocalInterface}
use verrazzano_operator.Controller.{Controller}

-- Calls whose errors are only logged.
unfoldable pub run_all : List (Prog (Option Error)) → Prog (Option Error)
run_all [] = ret none
run_all (step ∷ rest) = step >> run_all rest

-- Calls up to the first that returns an error.
unfoldable pub run_until_error : List (Prog (Option Error)) → Prog (Option Error)
unfolding for_each
run_until_error = for_each (λ step. step)

-- A map that is nil after an error.
abbrev pub nil_if_unavailable : Filtered → Map Connection
nil_if_unavailable (unavailable e) = []
nil_if_unavailable (filtered m) = m

-- `nodes.Items[0]` of an empty list is a panic.
abbrev pub first_runtime : NodeList → Option Error → Prog String
first_runtime nodes err = elim nodes.size [
  | zero ↦ ret "unknown"
  | suc n ↦ elim err [
    | some e ↦ ret "unknown"
    | none ↦ elim nodes.runtimes [ [] ↦ panic | runtime ∷ rest ↦ ret runtime ]
  ]
]

unfoldable pub get_container_runtime : Prog String
get_container_runtime = do answer ← ask list_nodes; first_runtime answer.0 answer.1

abbrev pub mc_registration_secret : String
mc_registration_secret = "verrazzano-cluster-registration"

-- A field of a secret; the empty string for a missing key.
unfoldable pub field_of : String → Secret → String
unfolding lookup
field_of key secret = elim (lookup key secret.content) [ none ↦ "" | some v ↦ v ]

abbrev pub registered_info : String → Answer Secret → Prog ClusterInfo
registered_info runtime (found, some e) = ret (record {
  container_runtime = runtime;
  managed_cluster_name = "";
  elasticsearch_url = "";
  elasticsearch_username = "";
  elasticsearch_password = "";
  elasticsearch_ca_bundle = "";
})
registered_info runtime (none, none) = panic
registered_info runtime (some secret, none) = ret (record {
  container_runtime = runtime;
  managed_cluster_name = field_of "managed-cluster-name" secret;
  elasticsearch_url = field_of "es-url" secret;
  elasticsearch_username = field_of "username" secret;
  elasticsearch_password = field_of "password" secret;
  elasticsearch_ca_bundle = field_of "ca-bundle" secret;
})

unfoldable pub get_cluster_info : Prog ClusterInfo
unfolding get_container_runtime
get_cluster_info = do
  runtime ← get_container_runtime
  answer ← ask (cached_get management secrets verrazzano_namespace mc_registration_secret)
  registered_info runtime answer

unfoldable pub create_managed_cluster_resources_for_binding :
    SyntheticModelBinding → ClusterInfo → Controller → Prog (Option Error)
unfolding run_all
create_managed_cluster_resources_for_binding mb info c =
    let m : ManagedInterface = c.packages.managed in
    let conns = nil_if_unavailable (c.packages.filter mb c.managed_cluster_connections) in
    run_all (
      m.create_namespaces mb conns
      ∷ m.create_secrets info mb c.managed_cluster_connections
      ∷ m.create_service_accounts mb.syn_binding.name mb.image_pull_secrets mb.managed_clusters
          conns
      ∷ m.create_config_maps info mb conns
      ∷ m.create_cluster_roles mb conns
      ∷ m.create_cluster_role_bindings mb conns
      ∷ m.create_deployments c.verrazzano_uri mb conns
      ∷ m.create_services mb conns
      ∷ m.create_daemon_sets c.verrazzano_uri info mb conns
      ∷ [])

unfoldable pub cleanup_orphaned_resources : SyntheticModelBinding → Controller → Prog (Option Error)
unfolding run_all
cleanup_orphaned_resources mb c =
    let m : ManagedInterface = c.packages.managed in
    let available = c.managed_cluster_connections in
    run_all (
      m.cleanup_orphaned_custom_resources mb available
      ∷ m.cleanup_orphaned_services mb available
      ∷ m.cleanup_orphaned_deployments mb available
      ∷ m.cleanup_orphaned_service_entries mb available
      ∷ m.cleanup_orphaned_ingresses mb available
      ∷ m.cleanup_orphaned_cluster_role_bindings mb available
      ∷ m.cleanup_orphaned_cluster_roles mb available
      ∷ m.cleanup_orphaned_config_maps mb available
      ∷ m.cleanup_orphaned_namespaces mb available c.synthetic_model_bindings
      ∷ [])

-- The deletions in the order of processApplicationBindingDeleted, in three parts.
unfoldable pub delete_local_resources : SyntheticBinding → LocalInterface → Prog (Option Error)
unfolding run_until_error
delete_local_resources binding l =
    l.delete_vmi binding
    >> run_until_error (l.delete_secrets binding ∷ l.delete_config_maps binding ∷ [])

unfoldable pub delete_managed_resources : SyntheticModelBinding → Controller → Prog (Option Error)
unfolding run_until_error
delete_managed_resources mb c =
    let m : ManagedInterface = c.packages.managed in
    let available = c.managed_cluster_connections in
    let conns = nil_if_unavailable (c.packages.filter mb available) in
    run_until_error (
      m.delete_custom_resources mb available
      ∷ m.delete_services mb conns
      ∷ m.delete_deployments mb conns
      ∷ m.delete_cluster_role_bindings mb available true
      ∷ m.delete_cluster_roles mb available true
      ∷ m.delete_namespaces mb available true
      ∷ [])

-- `if len(m) == 1 { … }`
abbrev pub when_one : ℕ → Prog (Option Error) → Prog (Option Error)
when_one zero m = ret none
when_one (suc zero) m = m
when_one (suc (suc n)) m = ret none

-- What the pairs share goes with the last of them.
unfoldable pub delete_shared_resources : SyntheticModelBinding → Controller → Prog (Option Error)
unfolding run_until_error
delete_shared_resources mb c =
    let m : ManagedInterface = c.packages.managed in
    let available = c.managed_cluster_connections in
    when_one (length c.synthetic_model_bindings) (
      run_until_error (
        m.delete_cluster_role_bindings mb available false
        ∷ m.delete_cluster_roles mb available false
        ∷ m.delete_namespaces mb available false
        ∷ []))

unfoldable pub delete_resources :
    SyntheticBinding → SyntheticModelBinding → Controller → Prog (Option Error)
unfolding run_until_error delete_local_resources delete_managed_resources delete_shared_resources
delete_resources binding mb c = run_until_error (
    delete_local_resources binding c.packages.local
    ∷ delete_managed_resources mb c
    ∷ delete_shared_resources mb c
    ∷ [])

abbrev pub timeout_error : String → Option Error → Error
timeout_error binding_name none = clusters_timeout binding_name
timeout_error binding_name (some e) = clusters_still_missing binding_name e

-- The `select` loop, with the number of ticks before the timeout and the last error.
unfoldable pub await_clusters : String → Filtered → ℕ → Option Error → Option Error
await_clusters binding_name answer zero err = some (timeout_error binding_name err)
await_clusters binding_name (filtered m) (suc ticks) err = none
await_clusters binding_name (unavailable e) (suc ticks) err =
    await_clusters binding_name (unavailable e) ticks (some e)

-- The controller's connections do not change during the wait.
unfoldable pub wait_for_managed_clusters :
    SyntheticModelBinding → String → Controller → Prog (Option Error)
unfolding await_clusters
wait_for_managed_clusters mb binding_name c = do
  ticks ← ask (timers 60 5)
  let answer = c.packages.filter mb c.managed_cluster_connections
  ret (await_clusters binding_name answer ticks none)
