-- ===== src/Util/Clusters.antt =====
-- Which of the available connections a binding's clusters have, and which they do not.
use verrazzano_operator.Prelude.{
  sym, ◌∙◌, String, none, some, [], ◌∷◌, ◌≡◌, refl, ◌⊎◌, inl, inr, arith, eq_iff, if◌then◌else◌,
  Option-cases, or_else, true, ap, false, Bool,
}
use verrazzano_operator.Prelude.Slices.{All, Any, Distinct, In, All-In, All-self}
use verrazzano_operator.Prelude.Maps.{
  Map, lookup, insert, keys, lookup-insert, lookup-absent, insert-Entries,
}
use verrazzano_operator.Kube.{Error, cluster_not_found, Connection, Client, managed}
use verrazzano_operator.Types.{ManagedCluster, SyntheticModelBinding}
use verrazzano_operator.Util.{
  filtered, unavailable, filter_clusters, get_managed_clusters_for_verrazzano_binding,
  names_cluster, filter_not_clusters, get_managed_clusters_not_for_verrazzano_binding,
}

-- The connection of the entry's cluster is among those available, or is not.
abbrev pub HasConnection : Map Connection → String × ManagedCluster → Type 0
HasConnection available (key, mc) = (c : Connection) × (lookup mc.name available ≡ some c)

abbrev pub LacksConnection : Map Connection → String × ManagedCluster → Type 0
LacksConnection available (key, mc) = lookup mc.name available ≡ none

-- The error that names the first cluster without a connection.
abbrev pub Blames : String → Map Connection → Error → String × ManagedCluster → Type 0
Blames binding available e (key, mc) =
    (lookup mc.name available ≡ none) × (e ≡ cluster_not_found mc.name binding)

filter_clusters_cases :
    (binding : String) (clusters : Map ManagedCluster) (available acc : Map Connection)
    → ((m : Map Connection) × (filter_clusters binding clusters available acc ≡ filtered m)
        × All (HasConnection available) clusters)
      ⊎ ((e : Error) × (filter_clusters binding clusters available acc ≡ unavailable e)
          × Any (Blames binding available e) clusters)
unfolding filter_clusters
filter_clusters_cases binding [] available acc = inl (acc, refl, tt)
filter_clusters_cases binding ((key, mc) ∷ rest) available acc =
    elim (Option-cases (lookup mc.name available)) [
      | inl missing ↦
          inr
            (cluster_not_found mc.name binding, rw (missing, filter_clusters), inl (missing, refl))
      | inr (c, found) ↦
          elim (filter_clusters_cases binding rest available (insert mc.name c acc)) [
            | inl (m, e, a) ↦ inl (m, rw (found, filter_clusters) e, ((c, found), a))
            | inr (x, e, a) ↦ inr (x, rw (found, filter_clusters) e, inr a)
          ]
    ]

-- GetManagedClustersForVerrazzanoBinding returns a map exactly when every cluster of the binding
-- has a connection; otherwise its error names a cluster that has none.
pub get_managed_clusters_cases :
    (mb : SyntheticModelBinding) (available : Map Connection)
    → ((m : Map Connection) × (get_managed_clusters_for_verrazzano_binding mb available
          ≡ filtered m)
        × All (HasConnection available) mb.managed_clusters)
      ⊎ ((e : Error) × (get_managed_clusters_for_verrazzano_binding mb available ≡ unavailable e)
          × Any (Blames mb.syn_binding.name available e) mb.managed_clusters)
unfolding get_managed_clusters_for_verrazzano_binding
get_managed_clusters_cases mb available =
    filter_clusters_cases mb.syn_binding.name mb.managed_clusters available []

lookup-filter_clusters :
    (binding : String) (clusters : Map ManagedCluster) (available acc m : Map Connection)
    (n : String)
    → filter_clusters binding clusters available acc ≡ filtered m
    → lookup n m ≡ (if names_cluster n clusters then lookup n available else lookup n acc)
unfolding filter_clusters names_cluster
lookup-filter_clusters binding [] available acc m n h = ground arith
lookup-filter_clusters binding ((key, mc) ∷ rest) available acc m n h =
    elim (Option-cases (lookup mc.name available)) [
      | inl missing ↦ cc (rw (missing, filter_clusters) at h)
      | inr (c, found) ↦ ground (
        arith,
        found,
        eq_iff n mc.name,
        eq_iff mc.name n,
        lookup-filter_clusters binding rest available (insert mc.name c acc) m n,
        lookup-insert mc.name n c acc,
      )
    ]

-- GetManagedClustersForVerrazzanoBinding, when it succeeds, returns a map that has exactly the
-- names of the binding's clusters, each with its available connection.
pub lookup-get_managed_clusters :
    (mb : SyntheticModelBinding) (available m : Map Connection) (n : String)
    → get_managed_clusters_for_verrazzano_binding mb available ≡ filtered m
    → lookup n m ≡ (if names_cluster n mb.managed_clusters then lookup n available else none)
unfolding get_managed_clusters_for_verrazzano_binding lookup
lookup-get_managed_clusters mb available m n h =
    lookup-filter_clusters mb.syn_binding.name mb.managed_clusters available [] m n h

lookup-filter_not_clusters :
    (clusters : Map ManagedCluster) (available acc : Map Connection) (n : String)
    → Distinct (keys available)
    → lookup n (filter_not_clusters clusters available acc) ≡ (
        if names_cluster n clusters
        then lookup n acc
        else or_else (lookup n available) (lookup n acc))
unfolding filter_not_clusters lookup
lookup-filter_not_clusters clusters [] acc n d = ground arith
lookup-filter_not_clusters clusters ((k, c) ∷ rest) acc n d = ground (
  arith,
  eq_iff k n,
  lookup-absent k rest d.0,
  lookup-insert k n c acc,
  lookup-filter_not_clusters clusters rest acc n d.1,
  lookup-filter_not_clusters clusters rest (insert k c acc) n d.1,
)

-- GetManagedClustersNotForVerrazzanoBinding returns the available connections of the names that no
-- cluster of the binding has.
lookup-get_managed_clusters_not :
    (mb : SyntheticModelBinding) (available : Map Connection) (n : String)
    → Distinct (keys available)
    → lookup n (get_managed_clusters_not_for_verrazzano_binding mb available)
      ≡ (if names_cluster n mb.managed_clusters then none else lookup n available)
unfolding get_managed_clusters_not_for_verrazzano_binding lookup
lookup-get_managed_clusters_not mb available n d =
    ground (arith, lookup-filter_not_clusters mb.managed_clusters available [] n d)

-- When the clusters of a binding are all available, each available connection is in exactly one of
-- the two maps: the one for the binding or the one not for it.
pub get_managed_clusters_partition :
    (mb : SyntheticModelBinding) (available m : Map Connection) (n : String) (c : Connection)
    → Distinct (keys available)
    → get_managed_clusters_for_verrazzano_binding mb available ≡ filtered m
    → lookup n available ≡ some c
    → let others = get_managed_clusters_not_for_verrazzano_binding mb available in
      ((lookup n m ≡ some c) × (lookup n others ≡ none))
      ⊎ ((lookup n m ≡ none) × (lookup n others ≡ some c))
get_managed_clusters_partition mb available m n c d h e = ground (
  arith,
  lookup-get_managed_clusters mb available m n,
  lookup-get_managed_clusters_not mb available n d,
)

-- Each cluster has a connection under its key.
abbrev pub Covers : Map ManagedCluster → Map Connection → Type 0
Covers clusters conns = All (λ kv. (c : Connection) × (lookup kv.0 conns ≡ some c)) clusters

-- The client is that of the connection of one of the clusters.
abbrev pub Reaches : Map ManagedCluster → Map Connection → Client → Type 0
Reaches clusters conns c =
    (kv : String × ManagedCluster) × (conn : Connection) × In kv clusters
    × (lookup kv.0 conns ≡ some conn)
    × (c ≡ managed conn)

-- A map of clusters whose keys are distinct and are the clusters' names.
abbrev pub IsWellKeyed : Map ManagedCluster → Type 0
IsWellKeyed m = All (λ kv. kv.0 ≡ kv.1.name) m × Distinct (keys m)

names_cluster-In :
    (clusters : Map ManagedCluster) (kv : String × ManagedCluster)
    → In kv clusters
    → names_cluster kv.1.name clusters ≡ true
unfolding names_cluster
names_cluster-In [] kv m = elim m [ ]
names_cluster-In ((k, mc) ∷ rest) kv (inl e) =
    ground (arith, eq_iff kv.1.name mc.name, ap (λ (x : String × ManagedCluster). x.1.name) e)
names_cluster-In ((k, mc) ∷ rest) kv (inr m) =
    ground (arith, eq_iff kv.1.name mc.name, names_cluster-In rest kv m)

-- The map that GetManagedClustersForVerrazzanoBinding returns for a well-keyed pair has a
-- connection for each of its clusters, so that code which dereferences one does not panic.
pub get_managed_clusters-Covers :
    (mb : SyntheticModelBinding) (available m : Map Connection)
    → IsWellKeyed mb.managed_clusters
    → get_managed_clusters_for_verrazzano_binding mb available ≡ filtered m
    → Covers mb.managed_clusters m
get_managed_clusters-Covers mb available m w e = All-self mb.managed_clusters one
  where
    one :
        (kv : String × ManagedCluster)
        → In kv mb.managed_clusters
        → (c : Connection) × (lookup kv.0 m ≡ some c)
    one kv i = elim (get_managed_clusters_cases mb available) [
      | inl (m', e', has) ↦
          let (c, found) = All-In (HasConnection available) kv mb.managed_clusters has i in
          let named = names_cluster-In mb.managed_clusters kv i in
          let key = All-In (λ x. x.0 ≡ x.1.name) kv mb.managed_clusters w.0 i in
          (c, rw (key, lookup-get_managed_clusters mb available m kv.1.name e, named) found)
      | inr (x, e', _) ↦ cc
    ]

-- In a well-keyed pair the clusters have the connections that are available under their keys.
lookup-filtered :
    (mb : SyntheticModelBinding) (available m : Map Connection) (kv : String × ManagedCluster)
    → IsWellKeyed mb.managed_clusters
    → get_managed_clusters_for_verrazzano_binding mb available ≡ filtered m
    → In kv mb.managed_clusters
    → lookup kv.0 m ≡ lookup kv.0 available
lookup-filtered mb available m kv w e i =
    let named = names_cluster-In mb.managed_clusters kv i in
    let key = All-In (λ x. x.0 ≡ x.1.name) kv mb.managed_clusters w.0 i in
    ground (arith, lookup-get_managed_clusters mb available m kv.0 e)

pub Reaches-available :
    (mb : SyntheticModelBinding) (available m : Map Connection) (c : Client)
    → IsWellKeyed mb.managed_clusters
    → get_managed_clusters_for_verrazzano_binding mb available ≡ filtered m
    → Reaches mb.managed_clusters m c
    → Reaches mb.managed_clusters available c
Reaches-available mb available m c w e (kv, conn, i, found, client) =
    (kv, conn, i, sym (lookup-filtered mb available m kv w e i) ∙ found, client)

pub Covers-available :
    (mb : SyntheticModelBinding) (available m : Map Connection)
    → IsWellKeyed mb.managed_clusters
    → get_managed_clusters_for_verrazzano_binding mb available ≡ filtered m
    → Covers mb.managed_clusters available
Covers-available mb available m w e = All-self mb.managed_clusters λ kv i.
    let (c, found) =
      All-In (λ x. (c : Connection) × (lookup x.0 m ≡ some c)) kv mb.managed_clusters
        (get_managed_clusters-Covers mb available m w e) i in
    (c, sym (lookup-filtered mb available m kv w e i) ∙ found)

not_named-filter :
    (clusters : Map ManagedCluster) (available acc : Map Connection)
    → All (λ kv. names_cluster kv.0 clusters ≡ false) acc
    → All (λ kv. names_cluster kv.0 clusters ≡ false) (filter_not_clusters clusters available acc)
unfolding filter_not_clusters
not_named-filter clusters [] acc a = a
not_named-filter clusters ((k, c) ∷ rest) acc a = not_named-filter clusters rest _ (next _ refl)
  where
    next :
        (b : Bool)
        → names_cluster k clusters ≡ b
        → All (λ kv. names_cluster kv.0 clusters ≡ false) (if b then acc else insert k c acc)
    next true e = a
    next false e = insert-Entries (λ kv. names_cluster kv.0 clusters ≡ false) k c acc e a

-- No entry of the map for the other clusters has the name of one of the binding's clusters.
pub not_named :
    (mb : SyntheticModelBinding) (available : Map Connection)
    → All
        (λ kv. names_cluster kv.0 mb.managed_clusters ≡ false)
        (get_managed_clusters_not_for_verrazzano_binding mb available)
unfolding get_managed_clusters_not_for_verrazzano_binding
not_named mb available = not_named-filter mb.managed_clusters available [] tt
