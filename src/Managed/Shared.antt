-- ===== src/Managed/Shared.antt =====
-- Code that the files of pkg/managed repeat: the label selectors, the early return when a cluster
-- of the binding is missing, and the loop that creates or updates an object.
pub mod Deleting
pub mod Creating
pub mod Cleaning
use verrazzano_operator.Prelude.{
  String, Bool, true, false, Option, none, some, List, [], ◌∷◌, ◌==◌, if◌then◌else◌,
}
use verrazzano_operator.Prelude.Maps.{Map}
use verrazzano_operator.Constants.{verrazzano_binding, verrazzano_cluster}
use verrazzano_operator.Kube.{
  Error, Connection, Selector, Client, Kind, Obj, meta, home, Answer, cached_get, create, update,
  delete, diff, managed,
}
use verrazzano_operator.Prog.{
  Prog, ret, ask, ◌>>=◌, unless, for_each_listed, must_lookup, for_each, or_return,
}
use verrazzano_operator.Types.{SyntheticModelBinding, ManagedCluster}
use verrazzano_operator.Util.{
  Filtered, filtered, unavailable, get_managed_labels_no_binding,
  get_managed_clusters_not_for_verrazzano_binding, contains,
  get_managed_clusters_for_verrazzano_binding,
}

-- labels.SelectorFromSet of the binding's and the cluster's labels
unfoldable pub bound_selector : SyntheticModelBinding → String → Selector
bound_selector mb cluster_name =
    (verrazzano_binding, mb.syn_binding.name) ∷ (verrazzano_cluster, cluster_name) ∷ []

-- The selector of the Delete functions that take a flag.
unfoldable pub label_selector : SyntheticModelBinding → String → Bool → Selector
unfolding get_managed_labels_no_binding
label_selector mb cluster_name binding_label =
    if binding_label
    then (verrazzano_binding, mb.syn_binding.name) ∷ []
    else get_managed_labels_no_binding cluster_name

-- `if err != nil { return nil }` after GetManagedClustersForVerrazzanoBinding
abbrev pub when_filtered : Filtered → (Map Connection → Prog (Option Error)) → Prog (Option Error)
when_filtered (unavailable e) body = ret none
when_filtered (filtered m) body = body m

-- Delete the listed objects, less those that `spare` picks, each in its own namespace.
unfoldable pub delete_listed : Client → (k : Kind) → Selector → (Obj k → Bool) → Prog (Option Error)
unfolding for_each_listed
delete_listed client k selector spare =
    for_each_listed client k "" selector
      λ o. unless (spare o) (ask (delete client k (home k o) (meta k o).name))

-- An object that exists: it is updated when diff.Diff finds a difference.
abbrev pub update_if_different :
    Client → (k : Kind) → Obj k → Option Error → String → Prog (Option Error)
update_if_different client k new err spec_diffs =
    if spec_diffs == "" then ret err else ask (update client k (home k new) new)

abbrev pub reconcile_found : Client → (k : Kind) → Obj k → Answer (Obj k) → Prog (Option Error)
reconcile_found client k new (none, err) = ask (create client k (home k new) new)
reconcile_found client k new (some existing, err) =
    ask (diff k existing new) >>= update_if_different client k new err

-- Look an object up; create it if it is absent, and otherwise update it if it is different.
unfoldable pub create_or_update : Client → (k : Kind) → Obj k → Prog (Option Error)
create_or_update client k new = do
  existing ← ask (cached_get client k (home k new) (meta k new).name)
  reconcile_found client k new existing

-- For each cluster, with its connection, create or update the objects that are expected there.
unfoldable pub create_in_clusters :
    (k : Kind)
    → Map ManagedCluster
    → Map Connection
    → (String × ManagedCluster → List (Obj k))
    → Prog (Option Error)
unfolding must_lookup for_each create_or_update
create_in_clusters k clusters conns objs =
    for_each
      (λ kv. do
        conn ← must_lookup kv.0 conns
        for_each (create_or_update (managed conn) k) (objs kv))
      clusters

-- For each connection, delete the objects that its selector lists, less those that are spared.
unfoldable pub delete_in_clusters :
    (k : Kind) → Map Connection → (String → Selector) → (Obj k → Bool) → Prog (Option Error)
unfolding for_each delete_listed
delete_in_clusters k conns selector spare =
    for_each (λ kv. delete_listed (managed kv.1) k (selector kv.0) spare) conns

-- For each cluster of the binding, delete the objects that carry the binding's and the cluster's
-- labels and are not among the names expected there.
unfoldable pub cleanup_in_matched :
    (k : Kind)
    → SyntheticModelBinding
    → Map Connection
    → (ManagedCluster → List String)
    → Prog (Option Error)
unfolding must_lookup for_each delete_listed contains bound_selector
cleanup_in_matched k mb matched expected =
    for_each
      (λ kv. do
        conn ← must_lookup kv.0 matched
        delete_listed (managed conn) k (bound_selector mb kv.0)
            (λ o. contains (expected kv.1) (meta k o).name))
      mb.managed_clusters

-- The other clusters: all objects with those labels go.
unfoldable pub cleanup_in_unmatched :
    Kind → SyntheticModelBinding → Map Connection → Prog (Option Error)
unfolding delete_in_clusters bound_selector get_managed_clusters_not_for_verrazzano_binding
cleanup_in_unmatched k mb available =
    delete_in_clusters k (get_managed_clusters_not_for_verrazzano_binding mb available)
      (bound_selector mb) (λ _. false)

-- CleanupOrphanedDeployments and CleanupOrphanedServices.
unfoldable pub cleanup_orphaned :
    (k : Kind)
    → SyntheticModelBinding
    → Map Connection
    → (ManagedCluster → List String)
    → Prog (Option Error)
unfolding cleanup_in_matched cleanup_in_unmatched get_managed_clusters_for_verrazzano_binding
cleanup_orphaned k mb available expected =
    when_filtered (get_managed_clusters_for_verrazzano_binding mb available) λ matched. do
      err ← cleanup_in_matched k mb matched expected
      or_return err (cleanup_in_unmatched k mb available)
