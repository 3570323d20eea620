-- ===== src/Managed/Shared/Cleaning.antt =====
-- What cleanup_orphaned does: only objects of the binding that are no longer expected go.
use verrazzano_operator.Prelude.{◌≡◌, refl, false, none, List, inl, inr, ◌⊎◌, String, arith}
use verrazzano_operator.Prelude.Slices.{In, All, All-In, All-map}
use verrazzano_operator.Prelude.Maps.{Map, lookup}
use verrazzano_operator.Kube.{
  History, Request, Connection, managed, Kind, Obj, meta, home, cached_list, delete, Request,
}
use verrazzano_operator.Prog.{or_return, ◌>>=◌}
use verrazzano_operator.Prog.Rules.{
  Runs, returns, Ensures, OnSuccess, Lasts, Runs-bind, Runs-mono, Runs-frame, Runs-weaken,
  Runs-for_each, Runs-must_lookup, Runs-or_return,
}
use verrazzano_operator.Prog.Listed.{Listed, ListedAll, ListedAll-lasts}
use verrazzano_operator.Types.{ManagedCluster, SyntheticModelBinding}
use verrazzano_operator.Util.{
  Filtered, filtered, unavailable, contains, names_cluster,
  get_managed_clusters_for_verrazzano_binding, get_managed_clusters_not_for_verrazzano_binding,
}
use verrazzano_operator.Util.Clusters.{IsWellKeyed, Covers, get_managed_clusters-Covers, not_named}
use verrazzano_operator.Managed.Shared.{
  when_filtered, bound_selector, cleanup_in_matched, cleanup_in_unmatched, cleanup_orphaned, some,
}
use verrazzano_operator.Managed.Shared.Deleting.{
  labels_of, SparedOrDeleted, SparedOrDeleted-lasts, Runs-delete_listed, DeletesListed, Cleared,
  delete_in_clusters_lem,
}

-- The cluster is one of the binding's, and the name is not expected there; or it is another
-- cluster.
abbrev pub IsOrphan :
    SyntheticModelBinding → (ManagedCluster → List String) → String → String → Type 0
IsOrphan mb expected cluster n =
    ((mc : ManagedCluster) × In (cluster, mc) mb.managed_clusters
      × (contains (expected mc) n ≡ false))
    ⊎ (names_cluster cluster mb.managed_clusters ≡ false)

-- Deletions are of orphans that a lister gave for the labels of the binding and of that cluster.
abbrev pub DeletesOrphans :
    (k : Kind) → SyntheticModelBinding → (ManagedCluster → List String) → History → Request → Type 0
DeletesOrphans k mb expected h (cached_list c k' ns s) = Unit
DeletesOrphans k mb expected h (delete c k' ns n) =
    (cluster : String) × (list : List (Obj k)) × (o : Obj k) × (k' ≡ k)
    × Listed c k "" (labels_of mb cluster) list h
    × In o list
    × (ns ≡ home k o)
    × (n ≡ (meta k o).name)
    × IsOrphan mb expected cluster (meta k o).name
DeletesOrphans k mb expected h _ = ⊥

-- In a cluster of the binding, each listed object is expected or its deletion was accepted.
abbrev pub Tidy :
    (k : Kind)
    → SyntheticModelBinding
    → Map Connection
    → (ManagedCluster → List String)
    → History
    → String × ManagedCluster
    → Type 0
Tidy k mb matched expected h kv =
    (conn : Connection) × (lookup kv.0 matched ≡ some conn)
    × ListedAll (managed conn) k "" (labels_of mb kv.0)
        (SparedOrDeleted (managed conn) k (λ o. contains (expected kv.1) (meta k o).name)) h

abbrev pub AllTidy :
    (k : Kind)
    → SyntheticModelBinding
    → Map Connection
    → (ManagedCluster → List String)
    → Filtered
    → History
    → Type 0
AllTidy k mb available expected (unavailable e) h = Unit
AllTidy k mb available expected (filtered matched) h =
    All (Tidy k mb matched expected h) mb.managed_clusters
    × All (Cleared k (labels_of mb) (λ _. false) h)
        (get_managed_clusters_not_for_verrazzano_binding mb available)

module _ (k : Kind) (mb : SyntheticModelBinding) (expected : ManagedCluster → List String) where
  Tidy-lasts :
      (matched : Map Connection) (kv : String × ManagedCluster)
      → Lasts (λ h. Tidy k mb matched expected h kv)
  Tidy-lasts matched kv e h (conn, l, a) = (
    conn,
    l,
    ListedAll-lasts (managed conn) k "" (labels_of mb kv.0)
        (SparedOrDeleted (managed conn) k (λ o. contains (expected kv.1) (meta k o).name))
        (SparedOrDeleted-lasts (managed conn) k _) e h a,
  )

  Runs-cleanup_in_matched :
      (matched : Map Connection) (h : History)
      → Covers mb.managed_clusters matched
      → Runs
          (DeletesOrphans k mb expected)
          (OnSuccess (λ h'. All (Tidy k mb matched expected h') mb.managed_clusters))
          ⊥
          h
          (cleanup_in_matched k mb matched expected)
  unfolding cleanup_in_matched bound_selector
  Runs-cleanup_in_matched matched h covers =
      Runs-for_each (λ _. Unit {0}) (λ kv h'. Tidy k mb matched expected h' kv) (λ _ _ _. tt)
        (Tidy-lasts matched) _ mb.managed_clusters
        (λ kv m h' _. Runs-bind _ _ h' (
          Runs-must_lookup kv.0 matched h'
            (λ missing.
              let (c, e) =
                All-In (λ x. (c : Connection) × (lookup x.0 matched ≡ some c)) kv
                  mb.managed_clusters covers m in
              ground arith)
            (λ conn found.
              Runs-mono _ h' (λ h'' err q p. (conn, found, q p))
                (Runs-delete_listed (managed conn) k (labels_of mb kv.0)
                  (λ o. contains (expected kv.1) (meta k o).name) (λ _. tt)
                  (λ h'' list o listed i e.
                    (kv.0, list, o, refl, listed, i, refl, refl, inl (kv.1, m, e)))
                  h'))))
        h tt

  Runs-cleanup_in_unmatched :
      (available : Map Connection) (h : History)
      → Runs
          (DeletesOrphans k mb expected)
          (OnSuccess (λ h'.
            All
              (Cleared k (labels_of mb) (λ _. false) h')
              (get_managed_clusters_not_for_verrazzano_binding mb available)))
          ⊥
          h
          (cleanup_in_unmatched k mb available)
  unfolding cleanup_in_unmatched bound_selector
  Runs-cleanup_in_unmatched available h = Runs-weaken _ h widen (
      delete_in_clusters_lem k (get_managed_clusters_not_for_verrazzano_binding mb available)
        (labels_of mb) (λ _. false) h)
    where
      others : Map Connection
      others = get_managed_clusters_not_for_verrazzano_binding mb available

      widen :
          (h' : History) (r : Request)
          → DeletesListed k others (labels_of mb) (λ _. false) h' r
          → DeletesOrphans k mb expected h' r
      widen h' (cached_list c k' ns s) g = tt
      widen h' (delete c k' ns n) (kv, list, o, m, ec, ek, listed, i, e, ens, en) = (
        kv.0,
        list,
        o,
        ek,
        rw ec listed,
        i,
        ens,
        en,
        inr (
            All-In (λ x. names_cluster x.0 mb.managed_clusters ≡ false) kv others
              (not_named mb available) m),
      )
      widen h' _ g = absurd g

-- The clean-up of deployments and services, on a well-keyed pair, does not panic. It deletes only
-- objects that a lister gave for the labels of the binding and a cluster, and which are not
-- expected there or whose cluster is not one of the binding's. Where it returns no error and all
-- clusters of the binding are available, each listed object in a cluster of the binding is expected
-- or was deleted, and each in another cluster was deleted.
pub cleanup_orphaned_lem :
    (k : Kind) (mb : SyntheticModelBinding) (available : Map Connection)
    (expected : ManagedCluster → List String)
    → IsWellKeyed mb.managed_clusters
    → Ensures
        (DeletesOrphans k mb expected)
        (OnSuccess (
          AllTidy k mb available expected
            (get_managed_clusters_for_verrazzano_binding mb available)))
        (cleanup_orphaned k mb available expected)
unfolding cleanup_orphaned
cleanup_orphaned_lem k mb available expected keyed h =
    over (get_managed_clusters_for_verrazzano_binding mb available) refl
  where
    over :
        (f : Filtered)
        → get_managed_clusters_for_verrazzano_binding mb available ≡ f
        → Runs (DeletesOrphans k mb expected) (OnSuccess (AllTidy k mb available expected f)) ⊥ h (
            when_filtered f λ matched. (do
              err ← cleanup_in_matched k mb matched expected
              or_return err (cleanup_in_unmatched k mb available)))
    over (unavailable x) e = returns h none (λ _. tt)
    over (filtered matched) e = Runs-bind _ _ h (
        Runs-mono _ h
          (λ h' err q. Runs-or_return err _ h' λ p.
            Runs-mono _ h' (λ h'' err' r p'. (r.1, r.0 p'))
              (Runs-frame (λ h''. All (Tidy k mb matched expected h'') mb.managed_clusters)
                (λ x h'' a.
                  All-map mb.managed_clusters (λ kv. Tidy-lasts k mb expected matched kv x h'') a)
                (cleanup_in_unmatched k mb available) h' (q p)
                (Runs-cleanup_in_unmatched k mb expected available h')))
          (Runs-cleanup_in_matched k mb expected matched h
            (get_managed_clusters-Covers mb available matched keyed e)))
