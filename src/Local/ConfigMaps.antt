-- ===== src/Local/ConfigMaps.antt =====
-- pkg/local/configmaps.go. assets.Asset, which the build generates from the dashboards, is an
-- argument: it gives the content of an asset, or an error.
pub mod Dashboards
pub mod Updates
use Prim.Native.Char.{code}
use Prim.Native.String.{◌++◌ as str_append}
use verrazzano_operator.Prelude.{
  String, Bool, true, false, Option, none, some, List, [], ◌∷◌, ◌++◌, ◌==◌, ◌&&◌, if◌then◌else◌,
  ◌⊎◌, inl, inr,
}
use verrazzano_operator.Prelude.Integers.{is_byte}
use verrazzano_operator.Prelude.Maps.{Map, lookup, insert}
use verrazzano_operator.Constants.{
  verrazzano_namespace, vmi_system_binding_name, system_dashboards, default_dashboards,
}
use verrazzano_operator.Kube.{
  Error, Answer, ConfigMap, config_maps, management, cached_get, update, delete, cached_list,
}
use verrazzano_operator.Prog.{
  Prog, ret, ask, ◌>>=◌, or_return, unless, for_each_listed, for_listed, for_each,
}
use verrazzano_operator.Types.{SyntheticBinding}
use verrazzano_operator.Util.{
  get_local_binding_labels, get_vmi_name_for_binding, remove_duplicate_values, contains,
}
use verrazzano_operator.Environment.{shared_vmi_default}
use verrazzano_operator.Monitoring.Components.{named_meta}
use verrazzano_operator.Local.Secrets.{binding_selector}

unfoldable pub delete_config_maps : SyntheticBinding → Prog (Option Error)
unfolding for_each_listed
delete_config_maps binding =
    for_each_listed management config_maps "" (binding_selector binding)
      λ o. ask (delete management config_maps o.metadata.namespace o.metadata.name)

-- strings.Replace(dashboard, "/", "-", -1)
unfoldable pub replace_slashes : String → String
replace_slashes String.[] = String.[]
replace_slashes (String.◌∷◌ c rest) =
    let later = replace_slashes rest in
    if is_byte (code c) b'/' then String.◌∷◌ "-" later else String.◌∷◌ c later

-- The dashboards of a binding; the first argument is whether the shared instance is on.
unfoldable pub dashboards_for : Bool → String → List String
unfolding remove_duplicate_values
dashboards_for true binding_name =
    if binding_name == vmi_system_binding_name
    then remove_duplicate_values (system_dashboards ++ default_dashboards)
    else []
dashboards_for false binding_name =
    if binding_name == vmi_system_binding_name then system_dashboards else default_dashboards

-- reflect.DeepEqual of two maps that are not nil: each has the entries of the other.
unfoldable pub has_entries : Map String → Map String → Bool
unfolding lookup
has_entries m [] = true
has_entries m ((key, value) ∷ rest) =
    let others = has_entries m rest in
    elim (lookup key m) [ none ↦ false | some held ↦ (held == value) && others ]

-- The nil map and a map that is not nil are different.
unfoldable pub deep_equal : Option (Map String) → Option (Map String) → Bool
unfolding has_entries
deep_equal none none = true
deep_equal none (some b) = false
deep_equal (some a) none = false
deep_equal (some a) (some b) = has_entries a b && has_entries b a

-- The config map with the given content.
abbrev pub config_map_with : SyntheticBinding → Map String → ConfigMap
config_map_with binding content = record {
  metadata =
      named_meta (str_append (get_vmi_name_for_binding binding.name) "-dashboards")
        verrazzano_namespace (get_local_binding_labels binding);
  content = some content;
}

abbrev pub config_map_of : SyntheticBinding → Map String ⊎ Error → ConfigMap ⊎ Error
config_map_of binding (inl content) = inl (config_map_with binding content)
config_map_of binding (inr err) = inr err

module _ (asset : String → String ⊎ Error) where
  -- The loop over the dashboards.
  unfoldable pub add_dashboards : Map String → List String → Map String ⊎ Error
  unfolding insert replace_slashes
  add_dashboards acc [] = inl acc
  add_dashboards acc (dashboard ∷ rest) = elim (asset dashboard) [
    | inl content ↦ add_dashboards (insert (replace_slashes dashboard) content acc) rest
    | inr err ↦ inr err
  ]

  unfoldable pub new_config_map : SyntheticBinding → Prog (ConfigMap ⊎ Error)
  unfolding shared_vmi_default add_dashboards dashboards_for get_local_binding_labels
      get_vmi_name_for_binding
  new_config_map binding = do
    shared ← shared_vmi_default
    ret (config_map_of binding (add_dashboards [] (dashboards_for shared binding.name)))

-- The owner references and the labels stay those of the config map that exists.
abbrev pub keep_owner : ConfigMap → ConfigMap → ConfigMap
keep_owner existing new = record new {
  metadata = record new.metadata {
    owner_references = existing.metadata.owner_references;
    labels = existing.metadata.labels;
  };
}

-- The first part of UpdateConfigMaps; a config map that does not exist is not created.
unfoldable pub update_config_map : ConfigMap → Option ConfigMap → Prog (Option Error)
unfolding deep_equal
update_config_map new none = ret none
update_config_map new (some existing) =
    unless (deep_equal existing.content new.content)
      (ask (update management config_maps new.metadata.namespace (keep_owner existing new)))

-- The second part.
unfoldable pub delete_other_config_maps : SyntheticBinding → List String → Prog (Option Error)
unfolding for_each contains
delete_other_config_maps binding config_map_names = do
  existing ←
      ask (cached_list management config_maps verrazzano_namespace (binding_selector binding))
  for_listed
      (λ o.
        unless (contains config_map_names o.metadata.name)
          (ask (delete management config_maps o.metadata.namespace o.metadata.name)))
      existing

abbrev pub after_new_config_map : SyntheticBinding → ConfigMap ⊎ Error → Prog (Option Error)
unfolding update_config_map delete_other_config_maps
after_new_config_map binding (inr err) = ret (some err)
after_new_config_map binding (inl new) = do
  existing ← ask (cached_get management config_maps new.metadata.namespace new.metadata.name)
  err ← update_config_map new existing.0
  or_return err (delete_other_config_maps binding (new.metadata.name ∷ []))

unfoldable pub update_config_maps :
    (String → String ⊎ Error) → SyntheticBinding → Prog (Option Error)
unfolding new_config_map update_config_map delete_other_config_maps
update_config_maps asset binding = new_config_map asset binding >>= after_new_config_map binding
