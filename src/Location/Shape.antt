-- ===== src/Location/Shape.antt =====
-- The clusters of a model/binding pair: one for each placement name, under its own name, with the
-- Verrazzano system namespace.
use verrazzano_operator.Prelude.{
  String, none, some, List, [], ◌∷◌, ◌≡◌, refl, ◌⊎◌, inl, inr, arith, eq_iff, if◌then◌else◌, ◌==◌,
  Option-cases, Bool-cases, ◌∙◌,
}
use verrazzano_operator.Prelude.Maps.{
  Map, lookup, lookup-insert, insert-Distinct, insert-Entries, lookup-Entries,
}
use verrazzano_operator.Types.{ManagedCluster, SyntheticBinding, SyntheticModel, ClusterPlacement}
use verrazzano_operator.Util.Clusters.{IsWellKeyed}
use verrazzano_operator.Util.{contains, is_placed, get_managed_cluster_namespace_for_system}
use verrazzano_operator.Location.{
  new_managed_cluster, place_cluster, place_clusters, create_synthetic_model_binding,
  append_namespace,
}

-- A new cluster with the Verrazzano system namespace and nothing else.
abbrev pub system_cluster : String → ManagedCluster
system_cluster name = record (new_managed_cluster name) {
  namespaces = get_managed_cluster_namespace_for_system ∷ [];
}

-- Each name has no cluster, or such a one.
abbrev IsSystemOnly : Map ManagedCluster → Type 0
IsSystemOnly m = (n : String) → (lookup n m ≡ none) ⊎ (lookup n m ≡ some (system_cluster n))

lookup-place_cluster :
    (name n : String) (m : Map ManagedCluster)
    → IsSystemOnly m
    → lookup n (place_cluster name m) ≡ (if name == n then some (system_cluster n) else lookup n m)
unfolding place_cluster append_namespace contains
lookup-place_cluster name n m fresh = elim (fresh name) [
  | inl e ↦ rw (e, place_cluster) (rw lookup-insert (ground (arith, eq_iff name n)))
  | inr e ↦ rw (e, place_cluster) (rw lookup-insert (ground (arith, eq_iff name n)))
]

place_cluster-IsSystemOnly :
    (name : String) (m : Map ManagedCluster) → IsSystemOnly m → IsSystemOnly (place_cluster name m)
place_cluster-IsSystemOnly name m fresh n = elim (Bool-cases (name == n)) [
  | inl e ↦ inr (lookup-place_cluster name n m fresh ∙ rw e)
  | inr e ↦ rw (lookup-place_cluster name n m fresh, e) (fresh n)
]

lookup-place_clusters :
    (ps : List ClusterPlacement) (m : Map ManagedCluster) (n : String)
    → IsSystemOnly m
    → lookup n (place_clusters ps m)
      ≡ (if is_placed n ps then some (system_cluster n) else lookup n m)
unfolding place_clusters is_placed
lookup-place_clusters [] m n fresh = refl
lookup-place_clusters (p ∷ ps) m n fresh = ground (
  arith,
  lookup-place_clusters ps (place_cluster p.name m) n (place_cluster-IsSystemOnly p.name m fresh),
  lookup-place_cluster p.name n m fresh,
)

-- CreateSyntheticModelBinding gives the pair one cluster for each name that the binding places,
-- with the Verrazzano system namespace alone, and no other cluster.
pub lookup-create_synthetic_model_binding :
    (model : SyntheticModel) (binding : SyntheticBinding) (uri : String) (pull : List String)
    (n : String)
    → lookup n (create_synthetic_model_binding model binding uri pull).managed_clusters
      ≡ (if is_placed n binding.spec.placement then some (system_cluster n) else none)
unfolding create_synthetic_model_binding lookup
lookup-create_synthetic_model_binding model binding uri pull n =
    lookup-place_clusters binding.spec.placement [] n (λ k. inl refl)

place_cluster-IsWellKeyed :
    (name : String) (m : Map ManagedCluster) → IsWellKeyed m → IsWellKeyed (place_cluster name m)
unfolding place_cluster
place_cluster-IsWellKeyed name m w = elim (Option-cases (lookup name m)) [
  | inl e ↦
      rw (e, place_cluster)
        (insert-Entries (λ kv. kv.0 ≡ kv.1.name) name _ m refl w.0, insert-Distinct name _ m w.1)
  | inr (mc, e) ↦
      rw (e, place_cluster)
        (
          insert-Entries (λ kv. kv.0 ≡ kv.1.name) name _ m
              (lookup-Entries (λ kv. kv.0 ≡ kv.1.name) name mc m w.0 e) w.0,
          insert-Distinct name _ m w.1,
        )
]

place_clusters-IsWellKeyed :
    (ps : List ClusterPlacement) (m : Map ManagedCluster)
    → IsWellKeyed m
    → IsWellKeyed (place_clusters ps m)
unfolding place_clusters
place_clusters-IsWellKeyed [] m w = w
place_clusters-IsWellKeyed (p ∷ ps) m w =
    place_clusters-IsWellKeyed ps (place_cluster p.name m) (place_cluster-IsWellKeyed p.name m w)

-- In every pair that CreateSyntheticModelBinding makes, the keys of the map of clusters are
-- distinct and are the clusters' names.
pub create_synthetic_model_binding-IsWellKeyed :
    (model : SyntheticModel) (binding : SyntheticBinding) (uri : String) (pull : List String)
    → IsWellKeyed (create_synthetic_model_binding model binding uri pull).managed_clusters
unfolding create_synthetic_model_binding
create_synthetic_model_binding-IsWellKeyed model binding uri pull =
    place_clusters-IsWellKeyed binding.spec.placement [] (tt, tt)
