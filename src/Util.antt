-- ===== src/Util.antt =====
-- pkg/util/utils.go: labels, names, and the choice of clusters for a binding. Proofs in the
-- children.
pub mod Strings
pub mod Clusters
use verrazzano_operator.Prelude.{
  String, Bool, true, false, Option, none, some, List, [], ◌∷◌, ◌==◌, if◌then◌else◌, is_some,
}
use verrazzano_operator.Prelude.Maps.{Map, lookup, insert}
use verrazzano_operator.Constants.{
  verrazzano_group, verrazzano_binding, verrazzano_cluster, verrazzano_prefix, verrazzano_system,
  k8s_app_label, istio_injection, enabled, vmi_system_binding_name,
}
use verrazzano_operator.Kube.{Error, cluster_not_found, Connection}
use verrazzano_operator.Types.{
  ManagedCluster, SyntheticBinding, SyntheticModelBinding, ClusterPlacement,
}
use Prim.Native.String.{◌++◌ as str_append}

unfoldable pub get_managed_binding_labels : SyntheticBinding → String → Map String
get_managed_binding_labels binding managed_cluster_name =
    (k8s_app_label, verrazzano_group)
    ∷ (verrazzano_binding, binding.name)
    ∷ (verrazzano_cluster, managed_cluster_name)
    ∷ (istio_injection, enabled)
    ∷ []

unfoldable pub get_managed_labels_no_binding : String → Map String
get_managed_labels_no_binding managed_cluster_name =
    (k8s_app_label, verrazzano_group) ∷ (verrazzano_cluster, managed_cluster_name) ∷ []

unfoldable pub get_managed_namespace_for_binding : SyntheticBinding → String
get_managed_namespace_for_binding binding =
    str_append verrazzano_prefix (str_append "-" binding.name)

unfoldable pub get_local_binding_labels : SyntheticBinding → Map String
get_local_binding_labels binding =
    (k8s_app_label, verrazzano_group) ∷ (verrazzano_binding, binding.name) ∷ []

abbrev pub get_managed_cluster_namespace_for_system : String
get_managed_cluster_namespace_for_system = verrazzano_system

unfoldable pub get_vmi_name_for_binding : String → String
get_vmi_name_for_binding binding_name = binding_name

unfoldable pub get_vmi_uri : String → String → String
get_vmi_uri binding_name uri = str_append "vmi." (str_append binding_name (str_append "." uri))

abbrev pub get_service_account_name_for_system : String
get_service_account_name_for_system = verrazzano_system

unfoldable pub contains : List String → String → Bool
contains [] e = false
contains (a ∷ s) e = if a == e then true else contains s e

-- Go's `(map, error)`: the map is nil exactly where the error is not.
pub data Filtered : Type 0 where
  filtered : Map Connection → Filtered
  unavailable : Error → Filtered

-- The loop of GetManagedClustersForVerrazzanoBinding, over the map that is built up.
unfoldable pub filter_clusters :
    String → Map ManagedCluster → Map Connection → Map Connection → Filtered
unfolding lookup insert
filter_clusters binding [] available acc = filtered acc
filter_clusters binding ((key, managed_cluster) ∷ rest) available acc =
    elim (lookup managed_cluster.name available) [
      | none ↦ unavailable (cluster_not_found managed_cluster.name binding)
      | some conn ↦ filter_clusters binding rest available (insert managed_cluster.name conn acc)
    ]

unfoldable pub get_managed_clusters_for_verrazzano_binding :
    SyntheticModelBinding → Map Connection → Filtered
unfolding filter_clusters
get_managed_clusters_for_verrazzano_binding mb available =
    filter_clusters mb.syn_binding.name mb.managed_clusters available []

-- The inner loop of GetManagedClustersNotForVerrazzanoBinding: is the cluster in the binding?
unfoldable pub names_cluster : String → Map ManagedCluster → Bool
names_cluster cluster_name [] = false
names_cluster cluster_name ((key, managed_cluster) ∷ rest) =
    if cluster_name == managed_cluster.name then true else names_cluster cluster_name rest

unfoldable pub filter_not_clusters :
    Map ManagedCluster → Map Connection → Map Connection → Map Connection
unfolding names_cluster insert
filter_not_clusters clusters [] acc = acc
filter_not_clusters clusters ((cluster_name, conn) ∷ rest) acc =
    filter_not_clusters clusters rest
      (if names_cluster cluster_name clusters then acc else insert cluster_name conn acc)

unfoldable pub get_managed_clusters_not_for_verrazzano_binding :
    SyntheticModelBinding → Map Connection → Map Connection
unfolding filter_not_clusters
get_managed_clusters_not_for_verrazzano_binding mb available =
    filter_not_clusters mb.managed_clusters available []

unfoldable pub is_placed : String → List ClusterPlacement → Bool
is_placed cluster_name [] = false
is_placed cluster_name (placement ∷ rest) =
    if placement.name == cluster_name then true else is_placed cluster_name rest

unfoldable pub is_cluster_in_binding : String → Map SyntheticModelBinding → Bool
unfolding is_placed
is_cluster_in_binding cluster_name [] = false
is_cluster_in_binding cluster_name ((key, mb) ∷ rest) =
    if is_placed cluster_name mb.syn_binding.spec.placement
    then true
    else is_cluster_in_binding cluster_name rest

-- The loop of RemoveDuplicateValues: `seen` is the map `keys`.
unfoldable pub remove_seen : List String → List String → List String
unfolding contains
remove_seen seen [] = []
remove_seen seen (entry ∷ rest) =
    let skip = remove_seen seen rest in
    let keep = entry ∷ remove_seen (entry ∷ seen) rest in if contains seen entry then skip else keep

unfoldable pub remove_duplicate_values : List String → List String
unfolding remove_seen
remove_duplicate_values string_slice = remove_seen [] string_slice

unfoldable pub is_system_profile_binding_name : String → Bool
is_system_profile_binding_name binding_name = vmi_system_binding_name == binding_name
