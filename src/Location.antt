-- ===== src/Location.antt =====
-- pkg/controller/verrazzano_location.go: a model/binding pair and its clusters. `ManagedCluster` is
-- a pointer in the map there, so the namespace that is appended to it is in the map as well. The
-- lock is left out.
pub mod Shape
use verrazzano_operator.Prelude.{String, none, some, List, [], ◌∷◌, ◌++◌, if◌then◌else◌}
use verrazzano_operator.Prelude.Maps.{Map, lookup, insert}
use verrazzano_operator.Types.{
  ManagedCluster, SyntheticBinding, SyntheticModel, SyntheticModelBinding, ClusterPlacement,
}
use verrazzano_operator.Util.{contains, get_managed_cluster_namespace_for_system}

unfoldable pub append_namespace : List String → String → List String
unfolding contains
append_namespace namespaces namespace =
    if contains namespaces namespace then namespaces else namespaces ++ namespace ∷ []

-- The literal for a placement that has no cluster yet.
abbrev pub new_managed_cluster : String → ManagedCluster
new_managed_cluster name = record {
  name = name;
  namespaces = [];
  secrets = [];
  ingresses = [];
  deployments = [];
  services = [];
  config_maps = [];
  remote_rests = [];
}

unfoldable pub get_placements : SyntheticBinding → List ClusterPlacement
get_placements binding = binding.spec.placement

-- One round of the loop of buildSyntheticModelBinding.
unfoldable pub place_cluster : String → Map ManagedCluster → Map ManagedCluster
unfolding lookup insert append_namespace
place_cluster name clusters =
    let mc : ManagedCluster = elim (lookup name clusters) [
      | none ↦ new_managed_cluster name
      | some found ↦ found
    ] in
    insert name
      (record mc {
        namespaces = append_namespace mc.namespaces get_managed_cluster_namespace_for_system;
      })
      clusters

unfoldable pub place_clusters : List ClusterPlacement → Map ManagedCluster → Map ManagedCluster
unfolding place_cluster
place_clusters [] clusters = clusters
place_clusters (placement ∷ rest) clusters =
    place_clusters rest (place_cluster placement.name clusters)

unfoldable pub build_synthetic_model_binding : SyntheticModelBinding → SyntheticModelBinding
unfolding place_clusters get_placements
build_synthetic_model_binding mb = record mb {
  managed_clusters = place_clusters (get_placements mb.syn_binding) mb.managed_clusters;
}

unfoldable pub create_synthetic_model_binding :
    SyntheticModel → SyntheticBinding → String → List String → SyntheticModelBinding
unfolding build_synthetic_model_binding
create_synthetic_model_binding model binding uri image_pull_secrets =
    build_synthetic_model_binding (record {
      syn_binding = binding;
      syn_model = model;
      managed_clusters = [];
      verrazzano_uri = uri;
      image_pull_secrets = image_pull_secrets;
    })

-- The pair that the pointer is overwritten with.
unfoldable pub update_synthetic_model_binding :
    SyntheticModelBinding
    → SyntheticModel
    → SyntheticBinding
    → String
    → List String
    → SyntheticModelBinding
unfolding create_synthetic_model_binding
update_synthetic_model_binding mb model binding uri image_pull_secrets =
    create_synthetic_model_binding model binding uri image_pull_secrets
