-- ===== src/Samples/Sources.antt =====
-- Properties of the controller with the packages of the source, at sample inputs.
use verrazzano_operator.Prelude.{String, refl, [], ◌⊎◌, inr}
use verrazzano_operator.Prelude.Maps.{Map}
use verrazzano_operator.Kube.{Error, api}
use verrazzano_operator.Prog.Rules.{Runs}
use verrazzano_operator.Packages.{own_packages}
use verrazzano_operator.Local.AcmeDns.{AcmeDns}
use verrazzano_operator.Controller.Globals.{WritesGlobals, create_update_global_entities_lem}
use verrazzano_operator.Controller.{Controller}
use verrazzano_operator.Controller.Handlers.{create_update_global_entities}
use verrazzano_operator.Samples.{bob_binding}
use verrazzano_operator.Samples.Handlers.{sample_controller}

abbrev pub no_asset : String → String ⊎ Error
no_asset name = inr (api "no such asset")

abbrev pub no_credentials : String → Map AcmeDns ⊎ Error
no_credentials text = inr (api "no credentials")

abbrev pub no_data : Map AcmeDns → String ⊎ Error
no_data m = inr (api "no data")

-- The packages of the source.
abbrev pub source_controller : Controller
source_controller = record sample_controller {
  packages = own_packages no_asset no_credentials no_data;
}

create_update_global_entities_lem_example :
    Runs
      (WritesGlobals no_asset bob_binding)
      (λ h err. Unit {0})
      ⊥
      []
      (create_update_global_entities bob_binding source_controller)
create_update_global_entities_lem_example =
    create_update_global_entities_lem bob_binding source_controller no_asset no_credentials no_data
      refl []
