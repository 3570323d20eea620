-- ===== src/Managed/Namespaces/Orphans.antt =====
-- Which namespaces CleanupOrphanedNamespaces may delete, and what it leaves.
use verrazzano_operator.Prelude.{◌≡◌, ◌≢◌, String, false, some, [], inl, inr, ◌⊎◌}
use verrazzano_operator.Prelude.Slices.{In}
use verrazzano_operator.Prelude.Maps.{Map, lookup}
use verrazzano_operator.Constants.{monitoring_namespace, verrazzano_namespace}
use verrazzano_operator.Kube.{History, Client, Connection, managed, Namespace, namespaces}
use verrazzano_operator.Prog.Rules.{Lasts}
use verrazzano_operator.Prog.Listed.{ListedAll, ListedAll-lasts}
use verrazzano_operator.Types.{ManagedCluster, SyntheticModelBinding}
use verrazzano_operator.Util.{
  contains, names_cluster, is_cluster_in_binding, get_managed_labels_no_binding,
}
use verrazzano_operator.Managed.Shared.Deleting.{labels_of, SparedOrDeleted, SparedOrDeleted-lasts}
use verrazzano_operator.Managed.Namespaces.Waits.{Removed, Removed-lasts}
use verrazzano_operator.Managed.Namespaces.Deletes.{ListedName}

-- In a cluster of the binding: a namespace that carries the binding's and the cluster's labels and
-- is not among those expected there.
abbrev pub Unexpected : SyntheticModelBinding → History → Client → String → Type 0
Unexpected mb h c n =
    (kv : String × ManagedCluster) × In kv mb.managed_clusters
    × (contains kv.1.namespaces n ≡ false)
    × ListedName c (labels_of mb kv.0) n h

-- In another cluster: a namespace with those labels, but for the monitoring namespace; or, if no
-- binding is placed on the cluster, one with the cluster's labels, but for the monitoring and the
-- Verrazzano system namespaces.
abbrev pub Abandoned :
    SyntheticModelBinding → Map SyntheticModelBinding → History → Client → String → Type 0
Abandoned mb all h c n =
    (cluster : String) × (names_cluster cluster mb.managed_clusters ≡ false)
    × (n ≢ monitoring_namespace)
    × (ListedName c (labels_of mb cluster) n h
        ⊎ ((is_cluster_in_binding cluster all ≡ false)
            × (n ≢ verrazzano_namespace)
            × ListedName c (get_managed_labels_no_binding cluster) n h))

abbrev pub MayCleanUp :
    SyntheticModelBinding → Map SyntheticModelBinding → History → Client → String → Type 0
MayCleanUp mb all h c n = Unexpected mb h c n ⊎ Abandoned mb all h c n

-- In a cluster of the binding every listed namespace is expected or its deletion was accepted.
-- Where nothing is expected, nothing is listed.
abbrev pub MatchedClean :
    SyntheticModelBinding → Map Connection → History → String × ManagedCluster → Type 0
MatchedClean mb matched h kv =
    (kv.1.namespaces ≡ [])
    ⊎ ((conn : Connection) × (lookup kv.0 matched ≡ some conn)
        × ListedAll (managed conn) namespaces "" (labels_of mb kv.0)
            (SparedOrDeleted (managed conn) namespaces
              (λ o. contains kv.1.namespaces o.metadata.name))
            h)

-- In another cluster every listed namespace of the binding is the monitoring namespace or was
-- removed.
abbrev pub MonitoringOrRemoved : Connection → Namespace → History → Type 0
MonitoringOrRemoved conn o h =
    (o.metadata.name ≡ monitoring_namespace) ⊎ Removed conn o.metadata.name h

abbrev pub UnmatchedClean : SyntheticModelBinding → History → String × Connection → Type 0
UnmatchedClean mb h kv =
    ListedAll (managed kv.1) namespaces "" (labels_of mb kv.0) (MonitoringOrRemoved kv.1) h

pub MonitoringOrRemoved-lasts :
    (conn : Connection) (o : Namespace) → Lasts (MonitoringOrRemoved conn o)
MonitoringOrRemoved-lasts conn o e h (inl p) = inl p
MonitoringOrRemoved-lasts conn o e h (inr r) = inr (Removed-lasts conn o.metadata.name e h r)

pub UnmatchedClean-lasts :
    (mb : SyntheticModelBinding) (kv : String × Connection) → Lasts (λ h. UnmatchedClean mb h kv)
UnmatchedClean-lasts mb kv =
    ListedAll-lasts (managed kv.1) namespaces "" (labels_of mb kv.0) (MonitoringOrRemoved kv.1)
      (MonitoringOrRemoved-lasts kv.1)

pub MatchedClean-lasts :
    (mb : SyntheticModelBinding) (matched : Map Connection) (kv : String × ManagedCluster)
    → Lasts (λ h. MatchedClean mb matched h kv)
MatchedClean-lasts mb matched kv e h (inl p) = inl p
MatchedClean-lasts mb matched kv e h (inr (conn, l, a)) = inr (
  conn,
  l,
  ListedAll-lasts (managed conn) namespaces "" (labels_of mb kv.0)
      (SparedOrDeleted (managed conn) namespaces (λ o. contains kv.1.namespaces o.metadata.name))
      (SparedOrDeleted-lasts (managed conn) namespaces _) e h a,
)
