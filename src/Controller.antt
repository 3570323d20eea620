-- ===== src/Controller.antt =====
-- pkg/controller/controller.go: the controller's state, and its handlers for models and bindings as
-- far as they change that state alone. Handlers run one at a time; logging is left out.
pub mod Resources
pub mod Handlers
pub mod Consistency
pub mod Pairing
pub mod Threshold
pub mod Keeping
pub mod Events
pub mod Removal
pub mod Embedded
pub mod Steps
pub mod Globals
pub mod Placing
pub mod Info
pub mod Joining
pub mod Startup
pub mod Unused
use verrazzano_operator.Prelude.{
  String, ℕ, ◌+◌, Option, none, some, List, [], ◌∷◌, ◌==◌, if◌then◌else◌, ltb, is_some,
}
use verrazzano_operator.Prelude.Maps.{Map, lookup, insert, without}
use verrazzano_operator.Kube.{Connection, Channel}
use verrazzano_operator.Types.{SyntheticBinding, SyntheticModel, SyntheticModelBinding}
use verrazzano_operator.Location.{create_synthetic_model_binding, update_synthetic_model_binding}
use verrazzano_operator.Packages.{Packages}

pub record Controller : Type 0 where
  pub packages : Packages
  pub verrazzano_uri : String
  pub enable_monitoring_storage : String
  pub image_pull_secrets : List String
  pub managed_cluster_connections : Map Connection
  pub application_models : Map SyntheticModel
  pub application_bindings : Map SyntheticBinding
  pub synthetic_model_bindings : Map SyntheticModelBinding
  pub binding_sync_threshold : Map ℕ
  pub watch_namespace : String
  pub stop_ch : Channel

abbrev pub binding_finalizer : String
binding_finalizer = "vb.verrazzano.io"

-- `c.SyntheticModelBindings[binding.Name] = CreateSyntheticModelBinding(model, binding, …)`
unfoldable pub add_pair : SyntheticModel → SyntheticBinding → Controller → Controller
unfolding insert create_synthetic_model_binding
add_pair model binding c = record c {
  synthetic_model_bindings =
      insert binding.name
        (create_synthetic_model_binding model binding c.verrazzano_uri c.image_pull_secrets)
        c.synthetic_model_bindings;
}

-- The loop of processApplicationModelAdded, which stops at the first binding that gets a pair.
unfoldable pub pair_first : SyntheticModel → Map SyntheticBinding → Controller → Controller
unfolding lookup add_pair
pair_first model [] c = c
pair_first model ((key, binding) ∷ rest) c =
    let next = pair_first model rest c in
    elim (lookup binding.name c.synthetic_model_bindings) [
      | some mb ↦ next
      | none ↦ if model.name == binding.spec.model_name then add_pair model binding c else next
    ]

unfoldable pub put_model : SyntheticModel → Controller → Controller
unfolding insert pair_first
put_model model c =
    let c1 : Controller = record c {
      application_models = insert model.name model c.application_models;
    } in
    pair_first model c1.application_bindings c1

unfoldable pub process_application_model_added : SyntheticModel → Controller → Controller
unfolding lookup put_model
process_application_model_added model c = elim (lookup model.name c.application_models) [
  | none ↦ put_model model c
  | some existing ↦
      if existing.resource_version == model.resource_version then c else put_model model c
]

unfoldable pub process_application_model_deleted : SyntheticModel → Controller → Controller
unfolding lookup without
process_application_model_deleted model c =
    if is_some (lookup model.name c.application_models)
    then record c { application_models = without model.name c.application_models }
    else c

unfoldable pub put_binding : SyntheticBinding → Controller → Controller
unfolding insert
put_binding binding c = record c {
  application_bindings = insert binding.name binding c.application_bindings;
}

unfoldable pub set_count : SyntheticBinding → ℕ → Controller → Controller
unfolding insert
set_count binding n c = record c {
  binding_sync_threshold = insert binding.name n c.binding_sync_threshold;
}

-- Whether processApplicationBindingAdded goes on after it has recorded the binding.
pub data Noted : Type 0 where
  skip : Controller → Noted
  sync : Controller → Noted

-- A missing count reads as 0 and is set to 0.
unfoldable pub count_sync : SyntheticBinding → Controller → Noted
unfolding lookup set_count
count_sync binding c = elim (lookup binding.name c.binding_sync_threshold) [
  | none ↦ skip (set_count binding 0 c)
  | some counter ↦
      let c1 = set_count binding (counter + 1) c in
      if ltb counter 4 then skip c1 else sync (set_count binding 0 c1)
]

unfoldable pub note_binding : SyntheticBinding → Controller → Noted
unfolding lookup count_sync put_binding
note_binding binding c = elim (lookup binding.name c.application_bindings) [
  | none ↦ sync (put_binding binding c)
  | some existing ↦
      if existing.resource_version == binding.resource_version
      then count_sync binding c
      else sync (put_binding binding c)
]

-- The pair is made, or made again, if its model is known.
unfoldable pub renew_pair : SyntheticBinding → Controller → Controller
unfolding lookup insert add_pair update_synthetic_model_binding
renew_pair binding c = elim (lookup binding.spec.model_name c.application_models) [
  | none ↦ c
  | some model ↦ elim (lookup binding.name c.synthetic_model_bindings) [
    | none ↦ add_pair model binding c
    | some mb ↦ record c {
      synthetic_model_bindings =
          insert binding.name
            (update_synthetic_model_binding mb model binding c.verrazzano_uri c.image_pull_secrets)
            c.synthetic_model_bindings;
    }
  ]
]

unfoldable pub adopt_pair : SyntheticBinding → Controller → Controller
unfolding lookup add_pair
adopt_pair binding c = elim (lookup binding.name c.synthetic_model_bindings) [
  | some mb ↦ c
  | none ↦ elim (lookup binding.spec.model_name c.application_models) [
    | none ↦ c
    | some model ↦ add_pair model binding c
  ]
]

-- A binding whose deletion has begun is recorded, and paired, if it was not.
unfoldable pub adopt_binding : SyntheticBinding → Controller → Controller
unfolding lookup put_binding adopt_pair
adopt_binding binding c =
    adopt_pair binding
      (if is_some (lookup binding.name c.application_bindings) then c else put_binding binding c)

-- The end of processApplicationBindingDeleted.
unfoldable pub forget_binding : SyntheticBinding → Controller → Controller
unfolding without
forget_binding binding c = record c {
  application_bindings = without binding.name c.application_bindings;
  synthetic_model_bindings = without binding.name c.synthetic_model_bindings;
  binding_sync_threshold = without binding.name c.binding_sync_threshold;
}
