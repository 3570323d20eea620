-- ===== src/Controller/Globals.antt =====
-- pkg/controller/controller.go, createUpdateGlobalEntities with the packages that NewController
-- installs.
use verrazzano_operator.Prelude.{String, ◌≡◌, ◌⊎◌, inl, inr, [], ◌∷◌}
use verrazzano_operator.Prelude.Maps.{Map}
use verrazzano_operator.Kube.{Error, History, Request}
use verrazzano_operator.Prog.Rules.{Ensures, Runs-mono, Runs-weaken}
use verrazzano_operator.Types.{SyntheticBinding}
use verrazzano_operator.Local.AcmeDns.{AcmeDns}
use verrazzano_operator.Local.Vmis.Updates.{WritesOwn, create_update_vmi_lem}
use verrazzano_operator.Local.ConfigMaps.Updates.{WritesDashboards, update_config_maps_lem}
use verrazzano_operator.Monitoring.VmiSecrets.Creates.{WritesVmiSecret, create_vmi_secrets_lem}
use verrazzano_operator.Packages.{own_packages, local_package}
use verrazzano_operator.Local.Vmis.{create_update_vmi}
use verrazzano_operator.Local.ConfigMaps.{update_config_maps}
use verrazzano_operator.Monitoring.VmiSecrets.{create_vmi_secrets}
use verrazzano_operator.Controller.{Controller}
use verrazzano_operator.Controller.Steps.{Allowed, Runs-run_all}
use verrazzano_operator.Controller.Resources.{run_all}
use verrazzano_operator.Controller.Handlers.{create_update_global_entities}

-- The calls that one of the three functions may make.
abbrev pub WritesGlobals : (String → String ⊎ Error) → SyntheticBinding → History → Request → Type 0
WritesGlobals asset b h r = WritesOwn b h r ⊎ WritesVmiSecret b h r ⊎ WritesDashboards asset b h r

-- createUpdateGlobalEntities, with the packages that NewController installs, does not panic,
-- whatever Kubernetes answers. It makes only calls that CreateUpdateVmi, CreateVmiSecrets or
-- UpdateConfigMaps may make for the binding: it writes only the binding's own instance, with the
-- volume claims of the one found, the VMI secret where it is missing or not complete, and the
-- binding's config map, and deletes only secrets and config maps that were listed for the binding
-- and have other names.
pub create_update_global_entities_lem :
    (b : SyntheticBinding) (c : Controller) (asset : String → String ⊎ Error)
    (unmarshal : String → Map AcmeDns ⊎ Error) (marshal : Map AcmeDns → String ⊎ Error)
    → c.packages ≡ own_packages asset unmarshal marshal
    → Ensures (WritesGlobals asset b) (λ h err. Unit {0}) (create_update_global_entities b c)
unfolding create_update_global_entities run_all own_packages local_package
create_update_global_entities_lem b c asset unmarshal marshal own h = rw own (
    Runs-run_all (WritesGlobals asset b) ⊥
      (create_update_vmi b c.verrazzano_uri c.enable_monitoring_storage
        ∷ create_vmi_secrets b
        ∷ update_config_maps asset b
        ∷ [])
      (vmi, (secrets, (dashboards, tt))) h)
  where
    vmi :
        Allowed
          (WritesGlobals asset b)
          ⊥
          (create_update_vmi b c.verrazzano_uri c.enable_monitoring_storage)
    vmi h' =
        Runs-mono _ h' (λ _ _ _. tt)
          (Runs-weaken _ h' (λ _ _ g. inl g)
            (create_update_vmi_lem b c.verrazzano_uri c.enable_monitoring_storage h'))

    secrets : Allowed (WritesGlobals asset b) ⊥ (create_vmi_secrets b)
    secrets h' =
        Runs-mono _ h' (λ _ _ _. tt)
          (Runs-weaken _ h' (λ _ _ g. inr (inl g)) (create_vmi_secrets_lem b h'))

    dashboards : Allowed (WritesGlobals asset b) ⊥ (update_config_maps asset b)
    dashboards h' =
        Runs-mono _ h' (λ _ _ _. tt)
          (Runs-weaken _ h' (λ _ _ g. inr (inr g)) (update_config_maps_lem asset b h'))
