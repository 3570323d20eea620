-- ===== src/Samples/Clusters.antt =====
-- Witnesses for pkg/util and verrazzano_location.go.
use verrazzano_operator.Prelude.{
  String, ◌≡◌, ◌≢◌, refl, none, some, [], ◌⊎◌, ◌==◌, if◌then◌else◌, true, false, eq_iff,
}
use verrazzano_operator.Prelude.Slices.{All, Any, Distinct}
use verrazzano_operator.Prelude.Maps.{Map, lookup, keys, insert}
use verrazzano_operator.Constants.{verrazzano_system, verrazzano_binding, istio_injection, enabled}
use verrazzano_operator.Kube.{Error, Connection}
use verrazzano_operator.Location.{create_synthetic_model_binding}
use verrazzano_operator.Location.Shape.{system_cluster, lookup-create_synthetic_model_binding}
use verrazzano_operator.Util.{
  filtered, unavailable, is_placed, get_managed_clusters_for_verrazzano_binding,
  get_managed_clusters_not_for_verrazzano_binding, filter_clusters, names_cluster,
}
use verrazzano_operator.Util.Clusters.{
  HasConnection, Blames, IsWellKeyed, Covers, get_managed_clusters_cases,
  lookup-get_managed_clusters, get_managed_clusters_partition,
}
use verrazzano_operator.Managed.Shared.{bound_selector}
use verrazzano_operator.Managed.Namespaces.{new_namespace_labels}
use verrazzano_operator.Managed.Namespaces.Creates.{Matches, new_namespace_labels_lem}
use verrazzano_operator.Samples.{
  bob_binding, books_model, bob_pair, bob_clusters, bob_conns, all_conns, west_conn,
}

east-west : ◌≢◌ {A = String} "east" "west"
east-west p = let q : false ≡ true = (eq_iff "east" "west").1 p in cc

north-east : ◌≢◌ {A = String} "north" "east"
north-east p = let q : false ≡ true = (eq_iff "north" "east").1 p in cc

north-west : ◌≢◌ {A = String} "north" "west"
north-west p = let q : false ≡ true = (eq_iff "north" "west").1 p in cc

pub bob-IsWellKeyed : IsWellKeyed bob_clusters
bob-IsWellKeyed = ((refl, (refl, tt)), ((east-west, tt), (tt, tt)))

pub bob-filtered :
    get_managed_clusters_for_verrazzano_binding bob_pair all_conns ≡ filtered bob_conns
unfolding get_managed_clusters_for_verrazzano_binding filter_clusters lookup insert
bob-filtered = refl

all-Distinct : Distinct (keys all_conns)
all-Distinct = ((north-east, (north-west, tt)), ((east-west, tt), (tt, tt)))

pub bob-Covers : Covers bob_clusters bob_conns
unfolding lookup
bob-Covers = ((_, refl), ((_, refl), tt))

get_managed_clusters_cases_example :
    ((m : Map Connection) × (get_managed_clusters_for_verrazzano_binding bob_pair all_conns
        ≡ filtered m)
      × All (HasConnection all_conns) bob_clusters)
    ⊎ ((e : Error) × (get_managed_clusters_for_verrazzano_binding bob_pair all_conns
          ≡ unavailable e)
        × Any (Blames "bob" all_conns e) bob_clusters)
get_managed_clusters_cases_example = get_managed_clusters_cases bob_pair all_conns

lookup-get_managed_clusters_example :
    lookup "west" bob_conns
    ≡ (if names_cluster "west" bob_clusters then lookup "west" all_conns else none)
lookup-get_managed_clusters_example =
    lookup-get_managed_clusters bob_pair all_conns bob_conns "west" bob-filtered

west-available : lookup "west" all_conns ≡ some west_conn
unfolding lookup
west-available = refl

get_managed_clusters_partition_example :
    let others = get_managed_clusters_not_for_verrazzano_binding bob_pair all_conns in
    ((lookup "west" bob_conns ≡ some west_conn) × (lookup "west" others ≡ none))
    ⊎ ((lookup "west" bob_conns ≡ none) × (lookup "west" others ≡ some west_conn))
get_managed_clusters_partition_example =
    get_managed_clusters_partition bob_pair all_conns bob_conns "west" west_conn all-Distinct
      bob-filtered west-available

lookup-create_synthetic_model_binding_example :
    lookup "east" (create_synthetic_model_binding books_model bob_binding "uri" []).managed_clusters
    ≡ (if is_placed "east" bob_binding.spec.placement then some (system_cluster "east") else none)
lookup-create_synthetic_model_binding_example =
    lookup-create_synthetic_model_binding books_model bob_binding "uri" [] "east"

new_namespace_labels_lem_example :
    let labels = new_namespace_labels bob_binding "east" "bob" in
    ("bob" ≢ verrazzano_system → Matches (bound_selector bob_pair "east") labels)
    × (lookup verrazzano_binding labels ≡ (if verrazzano_system == "bob" then none else some "bob"))
    × (lookup istio_injection labels ≡ (if verrazzano_system == "bob" then none else some enabled))
new_namespace_labels_lem_example = new_namespace_labels_lem bob_pair "east" "bob"
