-- ===== src/Controller/Startup.antt =====
-- pkg/controller/controller.go: NewController, Run, and the goroutine of the global entities.
-- Logging, the event recorder, which nothing uses, and the empty event handler of the instances'
-- informer are left out.
pub mod Made
pub mod Running
use verrazzano_operator.Prelude.{
  String, ℕ, zero, suc, Bool, not, Option, none, some, List, [], ◌∷◌, ◌⊎◌, inl, inr, if◌then◌else◌,
}
use verrazzano_operator.Kube.{
  Error, caches_not_synced, RestConfig, kubernetes, verrazzano_operator_client, vmo, api_extensions,
  nil_channel, management, objects, secrets, config_maps, instances, Informer, Factory,
  start_informers, update_global_entities, new_client_set, spawn, sleep, receive, exit,
}
use verrazzano_operator.Prog.{Prog, ret, call, ask, ◌>>=◌, ◌>>◌}
use verrazzano_operator.Types.{SyntheticBinding}
use verrazzano_operator.Signals.{setup_signal_handler}
use verrazzano_operator.Packages.{Packages}
use verrazzano_operator.Controller.{Controller}
use verrazzano_operator.Controller.Handlers.{
  create_update_global_entities, process_managed_cluster, system_binding,
}

-- log.Fatalf does not return.
abbrev pub fatal : {A : Type 0} → Prog A
fatal = call (exit 1) (λ never. absurd never)

-- `if err != nil { zap.S().Fatalf(…) }`
abbrev pub or_fatal : {A B : Type 0} → (A → Prog B) → A ⊎ Error → Prog B
or_fatal next (inl a) = next a
or_fatal next (inr e) = fatal

-- The factories of informers: for all namespaces if the watched one is empty.
abbrev pub kube_informer_factory : String → Factory
kube_informer_factory watch_namespace = record {
  client = management;
  namespace = watch_namespace;
  resources = objects secrets ∷ objects config_maps ∷ [];
}

abbrev pub vmo_informer_factory : String → Factory
vmo_informer_factory watch_namespace = record {
  client = management;
  namespace = watch_namespace;
  resources = objects instances ∷ [];
}

-- The literal of NewController, which leaves the field `stopCh` out.
unfoldable pub first_controller : Packages → String → String → String → Controller
first_controller packages watch_namespace verrazzano_uri enable_monitoring_storage = record {
  packages = packages;
  verrazzano_uri = verrazzano_uri;
  enable_monitoring_storage = enable_monitoring_storage;
  image_pull_secrets = [];
  managed_cluster_connections = [];
  application_models = [];
  application_bindings = [];
  synthetic_model_bindings = [];
  binding_sync_threshold = [];
  watch_namespace = watch_namespace;
  stop_ch = nil_channel;
}

-- The informers that NewController waits for.
abbrev pub first_informers : List Informer
first_informers =
    record { client = management; resource = objects secrets }
    ∷ record { client = management; resource = objects instances }
    ∷ []

abbrev pub execute_create_update_global_entities : SyntheticBinding → Controller → Prog (Unit {0})
execute_create_update_global_entities binding c = ask (spawn (update_global_entities binding.name))

abbrev pub when_synced : Controller → Bool → Prog (Controller × Option Error)
when_synced c ok =
    if not ok
    then ret (c, some caches_not_synced)
    else (execute_create_update_global_entities system_binding c >> ret (c, none))

-- NewController after the clients are made.
unfoldable pub start_controller : Bool → Controller → Prog (Controller × Option Error)
unfolding setup_signal_handler
start_controller only_one_signal_handler c = do
  stop_ch ← setup_signal_handler only_one_signal_handler
  ask (spawn (start_informers (kube_informer_factory c.watch_namespace) stop_ch))
  ask (spawn (start_informers (vmo_informer_factory c.watch_namespace) stop_ch))
  ok ← c.packages.wait_for_cache_sync c.stop_ch first_informers
  when_synced c ok

-- The clients are used through calls alone, so that only their errors are looked at. The first
-- argument says whether SetupSignalHandler was called before.
unfoldable pub new_controller :
    Bool → Packages → RestConfig → String → String → String → Prog (Controller × Option Error)
unfolding first_controller start_controller
new_controller only_one_signal_handler packages config watch_namespace verrazzano_uri
      enable_monitoring_storage =
    ask (new_client_set kubernetes config)
    >>= or_fatal λ kube_client_set.
      ask (new_client_set verrazzano_operator_client config)
      >>= or_fatal λ verrazzano_operator_client_set.
        ask (new_client_set vmo config)
        >>= or_fatal λ vmo_client_set.
          ask (new_client_set api_extensions config)
          >>= or_fatal λ kube_ext_client_set.
            start_controller only_one_signal_handler
              (first_controller packages watch_namespace verrazzano_uri enable_monitoring_storage)

-- The first rounds of the endless loop of createUpdateGlobalEntitiesGoroutine.
unfoldable pub create_update_global_entities_goroutine :
    ℕ → SyntheticBinding → Controller → Prog (Unit {0})
unfolding create_update_global_entities
create_update_global_entities_goroutine zero binding c = ret tt
create_update_global_entities_goroutine (suc rounds) binding c = do
  create_update_global_entities binding c
  ask (sleep 60)
  create_update_global_entities_goroutine rounds binding c

-- The connection is recorded in the controller itself, which is returned with the error.
unfoldable pub run : String → Controller → Prog (Controller × Option Error)
unfolding process_managed_cluster
run kubeconfig_path c = do
  c1 ← process_managed_cluster "local" kubeconfig_path c
  ask (receive c1.stop_ch)
  ret (c1, none)
