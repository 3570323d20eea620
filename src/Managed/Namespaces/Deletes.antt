-- ===== src/Managed/Namespaces/Deletes.antt =====
-- Which namespaces DeleteNamespaces and CleanupOrphanedNamespaces delete.
use verrazzano_operator.Prelude.{
  ◌≡◌, ◌≢◌, String, Bool, true, false, none, List, inl, inr, refl, ◌⊎◌, arith, eq_iff, Bool-cases,
}
use verrazzano_operator.Prelude.Slices.{Any, All, In-Any}
use verrazzano_operator.Prelude.Maps.{Map}
use verrazzano_operator.Constants.{monitoring_namespace, verrazzano_namespace}
use verrazzano_operator.Kube.{
  History, Request, Client, Connection, managed, Namespace, namespaces, Selector, cached_list,
  live_get, delete, timers,
}
use verrazzano_operator.Prog.Rules.{
  Runs, returns, Ensures, OnSuccess, Lasts, Runs-mono, Runs-for_each,
}
use verrazzano_operator.Prog.Listed.{Listed, ListedAll, Runs-for_each_listed, ListedAll-lasts}
use verrazzano_operator.Types.{SyntheticModelBinding}
use verrazzano_operator.Util.{
  Filtered, filtered, unavailable, get_managed_clusters_for_verrazzano_binding,
}
use verrazzano_operator.Managed.Shared.{when_filtered, label_selector}
use verrazzano_operator.Managed.Namespaces.{
  is_system_namespace, delete_and_wait, delete_cluster_namespaces, delete_namespaces, for_each,
}
use verrazzano_operator.Managed.Namespaces.Waits.{Removed, Removed-lasts, Runs-delete_and_wait}

-- Only namespaces are listed, awaited and deleted, and deletions are restricted by `P`.
abbrev pub NamespaceCalls : (History → Client → String → Type 0) → History → Request → Type 0
NamespaceCalls P h (delete c namespaces ns n) = P h c n
NamespaceCalls P h (cached_list c namespaces ns s) = Unit
NamespaceCalls P h (live_get c namespaces ns n) = Unit
NamespaceCalls P h (timers t d) = Unit
NamespaceCalls P h _ = ⊥

-- A listing by the client and the selector holds an object of this name.
abbrev pub ListedName : Client → Selector → String → History → Type 0
ListedName c s n h =
    (list : List Namespace) × Listed c namespaces "" s list h × Any (λ o. o.metadata.name ≡ n) list

pub not_system :
    (n : String)
    → is_system_namespace n ≡ false
    → (n ≢ monitoring_namespace) × (n ≢ verrazzano_namespace)
unfolding is_system_namespace
not_system n h =
    (ground (arith, eq_iff n monitoring_namespace), ground (arith, eq_iff n verrazzano_namespace))

-- The namespace is one of the two that are never deleted, or it was removed.
abbrev pub SparedOrRemoved : Connection → Namespace → History → Type 0
SparedOrRemoved conn o h =
    (is_system_namespace o.metadata.name ≡ true) ⊎ Removed conn o.metadata.name h

SparedOrRemoved-lasts : (conn : Connection) (o : Namespace) → Lasts (SparedOrRemoved conn o)
SparedOrRemoved-lasts conn o e h (inl p) = inl p
SparedOrRemoved-lasts conn o e h (inr r) = inr (Removed-lasts conn o.metadata.name e h r)

-- DeleteNamespaces may delete a namespace if the lister gave it for the flag's selector, and it is
-- neither the monitoring nor the Verrazzano system namespace.
abbrev pub MayDelete : SyntheticModelBinding → Bool → History → Client → String → Type 0
MayDelete mb flag h c n =
    (n ≢ monitoring_namespace)
    × (n ≢ verrazzano_namespace)
    × ((cluster : String) × ListedName c (label_selector mb cluster flag) n h)

module _ (mb : SyntheticModelBinding) (flag : Bool) where
  Runs-delete_cluster_namespaces :
      (kv : String × Connection) (h : History)
      → Runs
          (NamespaceCalls (MayDelete mb flag))
          (OnSuccess (
            ListedAll
              (managed kv.1)
              namespaces
              ""
              (label_selector mb kv.0 flag)
              (SparedOrRemoved kv.1)))
          ⊥
          h
          (delete_cluster_namespaces mb flag kv)
  unfolding delete_cluster_namespaces
  Runs-delete_cluster_namespaces (cluster, conn) h =
      Runs-for_each_listed (managed conn) namespaces "" (label_selector mb cluster flag)
        (λ _. Unit {0}) (SparedOrRemoved conn) (λ _ _ _. tt) (SparedOrRemoved-lasts conn) _
        (λ list o m h' listed _. elim (Bool-cases (is_system_namespace o.metadata.name)) [
          | inl e ↦ rw e (returns h' none (λ _. inl e))
          | inr e ↦ rw e (
              Runs-mono (delete_and_wait conn cluster o.metadata.name) h' (λ h'' err q r. inr (q r))
                (Runs-delete_and_wait conn o.metadata.name cluster (λ _. tt) (λ _. tt) h'
                  (
                    (not_system _ e).0,
                    (not_system _ e).1,
                    (
                      cluster,
                      (list, listed, In-Any (λ x. x.metadata.name ≡ o.metadata.name) o list m refl),
                    ),
                  )))
        ])
        h tt tt

-- `P` holds of each of the binding's connections, if all of them are available.
abbrev pub AllFiltered : Filtered → (String × Connection → Type 0) → Type 0
AllFiltered (unavailable e) P = Unit
AllFiltered (filtered m) P = All P m

-- What DeleteNamespaces has done in a cluster: every namespace that the lister gave for the
-- selector was removed, but for the two that are never deleted.
abbrev pub ClusterCleared : SyntheticModelBinding → Bool → History → String × Connection → Type 0
ClusterCleared mb flag h kv =
    ListedAll (managed kv.1) namespaces "" (label_selector mb kv.0 flag) (SparedOrRemoved kv.1) h

ClusterCleared-lasts :
    (mb : SyntheticModelBinding) (flag : Bool) (kv : String × Connection)
    → Lasts (λ h. ClusterCleared mb flag h kv)
ClusterCleared-lasts mb flag kv =
    ListedAll-lasts (managed kv.1) namespaces "" (label_selector mb kv.0 flag)
      (SparedOrRemoved kv.1) (SparedOrRemoved-lasts kv.1)

-- DeleteNamespaces does not panic and makes no calls but to list, delete and await namespaces; it
-- deletes only namespaces that a lister gave for the selector of the flag, and never the monitoring
-- or the Verrazzano system namespace. Where it returns no error and all clusters of the binding are
-- available, each of those clusters is cleared of the namespaces that its lister gave.
pub delete_namespaces_lem :
    (mb : SyntheticModelBinding) (available : Map Connection) (flag : Bool)
    → Ensures
        (NamespaceCalls (MayDelete mb flag))
        (OnSuccess (λ h.
          AllFiltered
            (get_managed_clusters_for_verrazzano_binding mb available)
            (ClusterCleared mb flag h)))
        (delete_namespaces mb available flag)
unfolding delete_namespaces
delete_namespaces_lem mb available flag h =
    over (get_managed_clusters_for_verrazzano_binding mb available)
  where
    over :
        (f : Filtered)
        → Runs
            (NamespaceCalls (MayDelete mb flag))
            (OnSuccess (λ h'. AllFiltered f (ClusterCleared mb flag h')))
            ⊥
            h
            (when_filtered f (λ m. for_each (delete_cluster_namespaces mb flag) m))
    over (unavailable e) = returns h none (λ _. tt)
    over (filtered m) =
        Runs-for_each (λ _. Unit {0}) (λ kv h'. ClusterCleared mb flag h' kv) (λ _ _ _. tt)
          (ClusterCleared-lasts mb flag) (delete_cluster_namespaces mb flag) m
          (λ kv _ h' _. Runs-delete_cluster_namespaces mb flag kv h') h tt
