-- ===== src/Controller/Removal.antt =====
-- pkg/controller/controller.go, processApplicationBindingDeleted: what has been deleted when a
-- binding is forgotten.
use verrazzano_operator.Prelude.{ℕ, zero, suc, Bool, true, false, Option, List, [], ◌∷◌}
use verrazzano_operator.Prelude.Slices.{All, length}
use verrazzano_operator.Kube.{Error, Request, History}
use verrazzano_operator.Prog.{Prog}
use verrazzano_operator.Prog.Rules.{Runs, Lasts, OnSuccess}
use verrazzano_operator.Types.{SyntheticBinding, SyntheticModelBinding}
use verrazzano_operator.Controller.{Controller}
use verrazzano_operator.Controller.Resources.{nil_if_unavailable}

-- The deletions that have to succeed.
pub data Step : Type 0 where
  local_secrets local_config_maps custom_resources services deployments : Step
  role_bindings roles namespaces : Bool → Step

abbrev pub run_step :
    SyntheticBinding → SyntheticModelBinding → Controller → Step → Prog (Option Error)
run_step b mb c local_secrets = c.packages.local.delete_secrets b
run_step b mb c local_config_maps = c.packages.local.delete_config_maps b
run_step b mb c custom_resources =
    c.packages.managed.delete_custom_resources mb c.managed_cluster_connections
run_step b mb c services =
    c.packages.managed.delete_services mb
      (nil_if_unavailable (c.packages.filter mb c.managed_cluster_connections))
run_step b mb c deployments =
    c.packages.managed.delete_deployments mb
      (nil_if_unavailable (c.packages.filter mb c.managed_cluster_connections))
run_step b mb c (role_bindings bound) =
    c.packages.managed.delete_cluster_role_bindings mb c.managed_cluster_connections bound
run_step b mb c (roles bound) =
    c.packages.managed.delete_cluster_roles mb c.managed_cluster_connections bound
run_step b mb c (namespaces bound) =
    c.packages.managed.delete_namespaces mb c.managed_cluster_connections bound

abbrev pub local_steps : List Step
local_steps = local_secrets ∷ local_config_maps ∷ []

abbrev pub managed_steps : List Step
managed_steps =
    custom_resources
    ∷ services
    ∷ deployments
    ∷ role_bindings true
    ∷ roles true
    ∷ namespaces true
    ∷ []

-- What the pairs share goes with the last of them.
abbrev pub steps_when_one : ℕ → List Step
steps_when_one zero = []
steps_when_one (suc zero) = role_bindings false ∷ roles false ∷ namespaces false ∷ []
steps_when_one (suc (suc n)) = []

abbrev pub shared_steps : Controller → List Step
shared_steps c = steps_when_one (length c.synthetic_model_bindings)

-- `Done s` is what the deletion `s` promises when it returns no error.
module _ (b : SyntheticBinding) (mb : SyntheticModelBinding) (c : Controller)
    (G : History → Request → Type 0) (X : Type 0) (Done : Step → History → Type 0)
    (lasts : (s : Step) → Lasts (Done s))
    (promised : (s : Step) (h : History)
      → Runs G (OnSuccess (Done s)) X h (run_step b mb c s)) where
  -- Everything that the handler deletes for the binding has been deleted.
  abbrev pub Deleted : History → Type 0
  Deleted h =
      All (λ s. Done s h) local_steps
      × All (λ s. Done s h) managed_steps
      × All (λ s. Done s h) (shared_steps c)
