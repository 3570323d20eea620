-- ===== src/Managed/Namespaces/Cleanup.antt =====
-- Which namespaces CleanupOrphanedNamespaces deletes.
use verrazzano_operator.Prelude.{
  ◌≡◌, String, false, none, some, List, [], ◌∷◌, inl, inr, refl, ◌==◌, arith, eq_iff, Bool-cases,
}
use verrazzano_operator.Prelude.Slices.{In, In-Any, Any, All, All-In, All-map}
use verrazzano_operator.Prelude.Maps.{Map, lookup}
use verrazzano_operator.Constants.{monitoring_namespace}
use verrazzano_operator.Kube.{History, Request, Connection, managed, Namespace, namespaces}
use verrazzano_operator.Prog.{ret, for_each, or_return, ◌>>=◌, unless}
use verrazzano_operator.Prog.Rules.{
  Runs, returns, Ensures, OnSuccess, Runs-bind, Runs-mono, Runs-frame, Runs-for_each,
  Runs-must_lookup, Runs-or_return,
}
use verrazzano_operator.Prog.Listed.{Runs-for_each_listed}
use verrazzano_operator.Types.{ManagedCluster, SyntheticModelBinding}
use verrazzano_operator.Util.{
  Filtered, filtered, unavailable, contains, names_cluster, is_cluster_in_binding,
  get_managed_labels_no_binding, get_managed_clusters_for_verrazzano_binding,
  get_managed_clusters_not_for_verrazzano_binding,
}
use verrazzano_operator.Util.Clusters.{IsWellKeyed, get_managed_clusters-Covers, not_named}
use verrazzano_operator.Managed.Shared.{when_filtered, bound_selector, delete_listed}
use verrazzano_operator.Managed.Shared.Deleting.{Runs-delete_listed, labels_of}
use verrazzano_operator.Managed.Namespaces.{
  is_system_namespace, delete_and_wait, cleanup_matched, cleanup_bound, cleanup_unbound,
  cleanup_unmatched, cleanup_orphaned_namespaces,
}
use verrazzano_operator.Managed.Namespaces.Waits.{Runs-delete_and_wait}
use verrazzano_operator.Managed.Namespaces.Deletes.{NamespaceCalls, not_system}
use verrazzano_operator.Managed.Namespaces.Orphans.{
  MayCleanUp, MatchedClean, MonitoringOrRemoved, UnmatchedClean, MonitoringOrRemoved-lasts,
  UnmatchedClean-lasts, MatchedClean-lasts,
}

module _ (mb : SyntheticModelBinding) (all : Map SyntheticModelBinding) where
  abbrev CleanupCalls : History → Request → Type 0
  CleanupCalls = NamespaceCalls (MayCleanUp mb all)

  named :
      (list : List Namespace) (o : Namespace)
      → In o list
      → Any (λ x. x.metadata.name ≡ o.metadata.name) list
  named list o m = In-Any (λ x. x.metadata.name ≡ o.metadata.name) o list m refl

  Runs-cleanup_matched :
      (matched : Map Connection) (kv : String × ManagedCluster) (h : History)
      → In kv mb.managed_clusters
      → (c : Connection) × (lookup kv.0 matched ≡ some c)
      → Runs CleanupCalls
          (OnSuccess (λ h'. MatchedClean mb matched h' kv))
          ⊥
          h
          (cleanup_matched mb matched kv)
  unfolding cleanup_matched bound_selector
  Runs-cleanup_matched matched (key, mc) h m (c, found) = Runs-bind _ _ h (
      Runs-must_lookup key matched h (λ missing. ground arith)
        λ conn present. over conn present mc.namespaces refl)
    where
      over :
          (conn : Connection)
          → lookup key matched ≡ some conn
          → (ns : List String) → mc.namespaces ≡ ns
          → Runs CleanupCalls
              (OnSuccess (λ h'. MatchedClean mb matched h' (key, mc)))
              ⊥
              h
              (elim ns [
                | [] ↦ ret none
                | _ ∷ _ ↦
                    delete_listed
                      (managed conn)
                      namespaces
                      (labels_of mb key)
                      (λ o. contains mc.namespaces o.metadata.name)
              ])
      over conn present [] e = returns h none (λ _. inl e)
      over conn present (_ ∷ _) e =
          Runs-mono _ h (λ h' err q p. inr (conn, present, q p))
            (Runs-delete_listed (managed conn) namespaces (labels_of mb key)
              (λ o. contains mc.namespaces o.metadata.name) (λ _. tt)
              (λ h' list o listed i spared.
                inl ((key, mc), m, spared, (list, listed, named list o i)))
              h)

  module _ (cluster : String) (conn : Connection)
      (foreign : names_cluster cluster mb.managed_clusters ≡ false) where
    Runs-cleanup_bound :
        (h : History)
        → Runs CleanupCalls
            (OnSuccess (λ h'. UnmatchedClean mb h' (cluster, conn)))
            ⊥
            h
            (cleanup_bound mb cluster conn)
    unfolding cleanup_bound bound_selector
    Runs-cleanup_bound h =
        Runs-for_each_listed (managed conn) namespaces "" (labels_of mb cluster) (λ _. Unit {0})
          (MonitoringOrRemoved conn) (λ _ _ _. tt) (MonitoringOrRemoved-lasts conn) _
          (λ list o m h' listed _. elim (Bool-cases (o.metadata.name == monitoring_namespace)) [
            | inl e ↦ rw e (returns h' none (λ _. inl ((eq_iff _ _).0 e)))
            | inr e ↦ rw e (
                Runs-mono (delete_and_wait conn cluster o.metadata.name) h'
                  (λ h'' err q r. inr (q r))
                  (Runs-delete_and_wait conn o.metadata.name cluster (λ _. tt) (λ _. tt) h'
                    (inr (
                      cluster,
                      foreign,
                      ground (arith, eq_iff o.metadata.name monitoring_namespace),
                      inl (list, listed, named list o m),
                    ))))
          ])
          h tt tt

    Runs-cleanup_unbound :
        (h : History)
        → is_cluster_in_binding cluster all ≡ false
        → Runs CleanupCalls (OnSuccess (λ _. Unit {0})) ⊥ h (cleanup_unbound cluster conn)
    unfolding cleanup_unbound
    Runs-cleanup_unbound h unplaced =
        Runs-mono _ h (λ _ _ _ _. tt)
          (Runs-for_each_listed (managed conn) namespaces "" (get_managed_labels_no_binding cluster)
            (λ _. Unit {0}) (λ _ _. Unit {0}) (λ _ _ _. tt) (λ _ _ _ _. tt) _
            (λ list o m h' listed _. elim (Bool-cases (is_system_namespace o.metadata.name)) [
              | inl e ↦ rw e (returns h' none (λ _. tt))
              | inr e ↦ rw e (
                  Runs-mono (delete_and_wait conn cluster o.metadata.name) h' (λ _ _ _ _. tt)
                    (Runs-delete_and_wait conn o.metadata.name cluster (λ _. tt) (λ _. tt) h'
                      (inr (
                        cluster,
                        foreign,
                        (not_system _ e).0,
                        inr (unplaced, (not_system _ e).1, (list, listed, named list o m)),
                      ))))
            ])
            h tt tt)

    Runs-cleanup_unmatched :
        (h : History)
        → Runs CleanupCalls
            (OnSuccess (λ h'. UnmatchedClean mb h' (cluster, conn)))
            ⊥
            h
            (cleanup_unmatched mb all (cluster, conn))
    unfolding cleanup_unmatched
    Runs-cleanup_unmatched h = Runs-bind _ _ h (
        Runs-mono _ h (λ h' err q. Runs-or_return err _ h' (λ p. second h' (q p)))
          (Runs-cleanup_bound h))
      where
        second :
            (h' : History)
            → UnmatchedClean mb h' (cluster, conn)
            → Runs CleanupCalls
                (OnSuccess (λ h''. UnmatchedClean mb h'' (cluster, conn)))
                ⊥
                h'
                (unless (is_cluster_in_binding cluster all) (cleanup_unbound cluster conn))
        second h' clean = elim (Bool-cases (is_cluster_in_binding cluster all)) [
          | inl e ↦ rw e (returns h' none (λ _. clean))
          | inr e ↦ rw e (
              Runs-mono _ h' (λ h'' err q _. q.1)
                (Runs-frame (λ h''. UnmatchedClean mb h'' (cluster, conn))
                  (UnmatchedClean-lasts mb (cluster, conn)) (cleanup_unbound cluster conn) h' clean
                  (Runs-cleanup_unbound h' e)))
        ]

-- What a successful clean-up has established, if all clusters of the binding are available.
abbrev pub CleanedUp : SyntheticModelBinding → Map Connection → Filtered → History → Type 0
CleanedUp mb available (unavailable e) h = Unit
CleanedUp mb available (filtered matched) h =
    All (MatchedClean mb matched h) mb.managed_clusters
    × All (UnmatchedClean mb h) (get_managed_clusters_not_for_verrazzano_binding mb available)

-- CleanupOrphanedNamespaces, on a well-keyed pair, does not panic. In a cluster of the binding it
-- deletes only namespaces that carry the labels of the binding and the cluster and are not
-- expected; in other clusters only namespaces with those labels, less the monitoring namespace, or,
-- where no binding is placed on the cluster, with the cluster's labels, less the monitoring and the
-- system namespaces. Where it returns no error and all clusters of the binding are available, each
-- listed namespace is expected or its deletion was accepted in a cluster of the binding that
-- expects some, and is the monitoring namespace or was removed in the others.
pub cleanup_orphaned_namespaces_lem :
    (mb : SyntheticModelBinding) (available : Map Connection) (all : Map SyntheticModelBinding)
    → IsWellKeyed mb.managed_clusters
    → Ensures
        (NamespaceCalls (MayCleanUp mb all))
        (OnSuccess
          (CleanedUp mb available (get_managed_clusters_for_verrazzano_binding mb available)))
        (cleanup_orphaned_namespaces mb available all)
unfolding cleanup_orphaned_namespaces
cleanup_orphaned_namespaces_lem mb available all keyed h =
    over (get_managed_clusters_for_verrazzano_binding mb available) refl
  where
    unmatched : Map Connection
    unmatched = get_managed_clusters_not_for_verrazzano_binding mb available

    second :
        (h' : History)
        → Runs
            (NamespaceCalls (MayCleanUp mb all))
            (OnSuccess (λ h''. All (UnmatchedClean mb h'') unmatched))
            ⊥
            h'
            (for_each (cleanup_unmatched mb all) unmatched)
    second h' =
        Runs-for_each (λ _. Unit {0}) (λ kv h''. UnmatchedClean mb h'' kv) (λ _ _ _. tt)
          (UnmatchedClean-lasts mb) (cleanup_unmatched mb all) unmatched
          (λ kv m h'' _.
            Runs-cleanup_unmatched mb all kv.0 kv.1
              (All-In (λ x. names_cluster x.0 mb.managed_clusters ≡ false) kv unmatched
                (not_named mb available) m)
              h'')
          h' tt

    over :
        (f : Filtered)
        → get_managed_clusters_for_verrazzano_binding mb available ≡ f
        → Runs (NamespaceCalls (MayCleanUp mb all)) (OnSuccess (CleanedUp mb available f)) ⊥ h (
            when_filtered f λ matched. (do
              err ← for_each (cleanup_matched mb matched) mb.managed_clusters
              or_return err (for_each (cleanup_unmatched mb all) unmatched)))
    over (unavailable x) e = returns h none (λ _. tt)
    over (filtered matched) e = Runs-bind _ _ h (
        Runs-mono _ h
          (λ h' err q. Runs-or_return err _ h' λ p.
            Runs-mono _ h' (λ h'' err' r p'. (r.1, r.0 p'))
              (Runs-frame (λ h''. All (MatchedClean mb matched h'') mb.managed_clusters)
                (λ x h'' a.
                  All-map mb.managed_clusters (λ kv. MatchedClean-lasts mb matched kv x h'') a)
                (for_each (cleanup_unmatched mb all) unmatched) h' (q p) (second h')))
          (Runs-for_each (λ _. Unit {0}) (λ kv h'. MatchedClean mb matched h' kv) (λ _ _ _. tt)
            (MatchedClean-lasts mb matched) (cleanup_matched mb matched) mb.managed_clusters
            (λ kv m h' _. Runs-cleanup_matched mb all matched kv h' m (
              All-In (λ x. (c : Connection) × (lookup x.0 matched ≡ some c)) kv mb.managed_clusters
                (get_managed_clusters-Covers mb available matched keyed e) m))
            h tt))
