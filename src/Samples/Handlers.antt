-- ===== src/Samples/Handlers.antt =====
-- Witnesses for pkg/controller: packages whose deletions make one call each, and a controller that
-- has paired the sample binding.
use verrazzano_operator.Prelude.{
  ℕ, String, ◌≡◌, ◌≢◌, refl, true, Option, none, some, List, [], ◌∷◌, ◌⊎◌,
}
use verrazzano_operator.Prelude.Slices.{All, In}
use verrazzano_operator.Prelude.Maps.{lookup, insert}
use verrazzano_operator.Kube.{
  Error, Answer, Connection, Channel, nil_channel, History, Request, event, secrets, management,
  delete, timers,
}
use verrazzano_operator.Prog.{Prog, ret, ask}
use verrazzano_operator.Prog.Rules.{Runs}
use verrazzano_operator.Types.{SyntheticModel, SyntheticBinding}
use verrazzano_operator.Util.{get_managed_clusters_for_verrazzano_binding}
use verrazzano_operator.Packages.{Operation, ManagedInterface, LocalInterface, managed_package}
use verrazzano_operator.Controller.{
  Controller, add_pair, process_application_model_added, sync, note_binding,
}
use verrazzano_operator.Controller.Resources.{wait_for_managed_clusters}
use verrazzano_operator.Controller.Handlers.{process_application_binding_deleted, sync_resources}
use verrazzano_operator.Controller.Consistency.{IsConsistent}
use verrazzano_operator.Controller.Events.{
  Occurrence, model_added, model_deleted, binding_added, binding_deleted, cluster_added, handle_all,
  handle_all-IsConsistent,
}
use verrazzano_operator.Controller.Threshold.{IsKnown, HasCount, Skips, note_binding-period}
use verrazzano_operator.Controller.Pairing.{
  Waits, WaitOutcome, process_application_model_added_cases, wait_for_managed_clusters_lem,
}
use verrazzano_operator.Controller.Removal.{
  Step, local_secrets, local_config_maps, custom_resources, services, deployments, role_bindings,
  roles, namespaces,
}
use verrazzano_operator.Controller.Embedded.{
  process_application_binding_deleted-unchanged, sync_resources-panics,
}
use verrazzano_operator.Samples.{bob_binding, books_model, bob_pair, all_conns, east_conn}
use verrazzano_operator.Samples.Clusters.{bob-IsWellKeyed}

abbrev pub no_build : String → Channel → Prog (Answer Connection)
no_build path stop_ch = ret (some east_conn, none)

abbrev no_op : Operation
no_op mb conns = ret none

abbrev delete_named : String → Prog (Option Error)
delete_named name = ask (delete management secrets "" name)

abbrev pub sample_managed : ManagedInterface
sample_managed = record {
  build_managed_cluster_connection = no_build;
  create_namespaces = no_op;
  create_secrets = λ info. no_op;
  create_service_accounts = λ name pull clusters conns. ret none;
  create_config_maps = λ info. no_op;
  create_cluster_roles = no_op;
  create_cluster_role_bindings = no_op;
  create_services = no_op;
  create_deployments = λ uri. no_op;
  create_daemon_sets = λ uri info. no_op;
  cleanup_orphaned_custom_resources = no_op;
  cleanup_orphaned_service_entries = no_op;
  cleanup_orphaned_ingresses = no_op;
  cleanup_orphaned_cluster_role_bindings = no_op;
  cleanup_orphaned_cluster_roles = no_op;
  cleanup_orphaned_config_maps = no_op;
  cleanup_orphaned_namespaces = λ mb conns all. ret none;
  cleanup_orphaned_services = no_op;
  cleanup_orphaned_deployments = no_op;
  delete_custom_resources = λ mb conns. delete_named "custom resources";
  delete_cluster_role_bindings = λ mb conns bound. delete_named "role bindings";
  delete_cluster_roles = λ mb conns bound. delete_named "roles";
  delete_namespaces = λ mb conns bound. delete_named "namespaces";
  delete_services = λ mb conns. delete_named "services";
  delete_deployments = λ mb conns. delete_named "deployments";
}

abbrev pub sample_local : LocalInterface
sample_local = record {
  delete_vmi = λ b. delete_named "vmi";
  delete_secrets = λ b. delete_named "secrets";
  delete_config_maps = λ b. delete_named "config maps";
  create_update_vmi = λ b uri storage. ret none;
  update_config_maps = λ b. ret none;
  update_acme_dns_secret = λ b name uri. ret none;
}

abbrev pub controller_with : ManagedInterface → LocalInterface → Controller
controller_with managed own_local = record {
  packages = record {
    managed = managed;
    local = own_local;
    filter = get_managed_clusters_for_verrazzano_binding;
    create_vmi_secrets = λ b. ret none;
    wait_for_cache_sync = λ stop_ch informers. ret true;
  };
  verrazzano_uri = "v8o.example.com";
  enable_monitoring_storage = "true";
  image_pull_secrets = [];
  managed_cluster_connections = all_conns;
  application_models = ("books", books_model) ∷ [];
  application_bindings = ("bob", bob_binding) ∷ [];
  synthetic_model_bindings = ("bob", bob_pair) ∷ [];
  binding_sync_threshold = ("bob", 0) ∷ [];
  watch_namespace = "";
  stop_ch = nil_channel;
}

abbrev pub sample_controller : Controller
sample_controller = controller_with sample_managed sample_local

abbrev own_controller : Controller
own_controller = controller_with (managed_package) sample_local

abbrev step_name : Step → String
step_name local_secrets = "secrets"
step_name local_config_maps = "config maps"
step_name custom_resources = "custom resources"
step_name services = "services"
step_name deployments = "deployments"
step_name (role_bindings bound) = "role bindings"
step_name (roles bound) = "roles"
step_name (namespaces bound) = "namespaces"

-- The deletion was accepted.
abbrev Accepted : Step → History → Type 0
Accepted s h = In (event (delete management secrets "" (step_name s)) none) h

abbrev Deletes : History → Request → Type 0
Deletes h (delete c k ns n) = Unit
Deletes h _ = ⊥

process_application_binding_deleted-unchanged_example :
    Runs
      (λ h r. Unit {0})
      (λ h c'. c' ≡ own_controller)
      (Unit {0})
      []
      (process_application_binding_deleted bob_binding own_controller)
process_application_binding_deleted-unchanged_example =
    process_application_binding_deleted-unchanged own_controller refl bob_binding []

sync_resources-panics_example :
    Runs
      (λ h r. Unit {0})
      (λ h err. ⊥)
      (Unit {0})
      []
      (sync_resources bob_binding bob_pair own_controller)
sync_resources-panics_example = sync_resources-panics own_controller refl bob_binding bob_pair []

sample-IsConsistent : IsConsistent sample_controller
unfolding lookup
sample-IsConsistent = ((refl, tt), (((refl, bob-IsWellKeyed), (bob_binding, refl)), tt))

abbrev some_events : List Occurrence
some_events =
    model_added books_model
    ∷ binding_added bob_binding
    ∷ cluster_added "local" ""
    ∷ binding_deleted bob_binding
    ∷ model_deleted books_model
    ∷ []

handle_all-IsConsistent_example :
    Runs
      (λ h r. Unit {0})
      (λ h c. IsConsistent c)
      (Unit {0})
      []
      (handle_all some_events sample_controller)
handle_all-IsConsistent_example =
    handle_all-IsConsistent some_events sample_controller sample-IsConsistent []

bob-IsKnown : IsKnown bob_binding sample_controller
unfolding lookup
bob-IsKnown = (bob_binding, refl, refl)

bob-HasCount : HasCount bob_binding 0 sample_controller
unfolding lookup
bob-HasCount = refl

note_binding-period_example :
    (c4 : Controller) × (c5 : Controller) × Skips bob_binding 4 sample_controller c4
    × (note_binding bob_binding c4 ≡ sync c5)
    × IsKnown bob_binding c5
    × HasCount bob_binding 0 c5
note_binding-period_example =
    note_binding-period bob_binding sample_controller bob-IsKnown bob-HasCount

-- The binding waits for its model.
abbrev waiting_controller : Controller
waiting_controller = record sample_controller {
  application_models = [];
  synthetic_model_bindings = [];
}

no-models :
    (old : SyntheticModel)
    → lookup "books" waiting_controller.application_models ≡ some old
    → old.resource_version ≢ books_model.resource_version
unfolding lookup
no-models old e = cc

process_application_model_added_cases_example :
    let c = waiting_controller in
    let c1 : Controller = record c {
      application_models = insert "books" books_model c.application_models;
    } in
    (All (λ kv. Waits books_model c kv.1 → ⊥) c.application_bindings
      × (process_application_model_added books_model c ≡ c1))
    ⊎ ((kv : String × SyntheticBinding) × In kv c.application_bindings
        × Waits books_model c kv.1
        × (process_application_model_added books_model c ≡ add_pair books_model kv.1 c1))
process_application_model_added_cases_example =
    process_application_model_added_cases books_model waiting_controller no-models

wait_for_managed_clusters_lem_example :
    Runs
      (λ h r. (h ≡ []) × (r ≡ timers 60 5))
      (λ h err.
        (ticks : ℕ) × (h ≡ event (timers 60 5) ticks ∷ [])
        × WaitOutcome bob_pair "bob" all_conns ticks err)
      ⊥
      []
      (wait_for_managed_clusters bob_pair "bob" sample_controller)
wait_for_managed_clusters_lem_example =
    wait_for_managed_clusters_lem bob_pair "bob" sample_controller refl []
