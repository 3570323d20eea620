-- ===== src/Managed/Namespaces.antt =====
-- pkg/managed/namespace.go. The loops over a cluster's connection also take its read lock, which is
-- left out; the dereference of a nil connection is a panic.
pub mod Waits
pub mod Creates
pub mod Deletes
pub mod Orphans
pub mod Cleanup
use verrazzano_operator.Prelude.{
  String, ℕ, zero, suc, Bool, true, not, ◌&&◌, Option, none, some, List, [], ◌∷◌, ◌==◌,
  if◌then◌else◌,
}
use verrazzano_operator.Prelude.Maps.{Map, insert}
use verrazzano_operator.Constants.{monitoring_namespace, verrazzano_namespace}
use verrazzano_operator.Kube.{
  Error, not_found, namespace_timeout, namespace_removal_failed, Answer, Namespace, Connection,
  managed, namespaces, cached_get, live_get, create, delete, timers,
}
use verrazzano_operator.Managed.Shared.{
  when_filtered, bound_selector, label_selector, delete_listed,
}
use verrazzano_operator.Prog.{
  Prog, ret, ask, ◌>>=◌, or_return, for_each, must_lookup, for_each_listed, unless,
}
use verrazzano_operator.Types.{ManagedCluster, SyntheticBinding, SyntheticModelBinding}
use verrazzano_operator.Util.{
  contains, get_managed_binding_labels, get_managed_labels_no_binding,
  get_managed_cluster_namespace_for_system, get_managed_clusters_for_verrazzano_binding,
  get_managed_clusters_not_for_verrazzano_binding, is_cluster_in_binding,
}

-- The labels of a new namespace.
unfoldable pub new_namespace_labels : SyntheticBinding → String → String → Map String
unfolding insert get_managed_binding_labels get_managed_labels_no_binding
new_namespace_labels binding cluster_name namespace =
    let binding_labels : Map String =
      (if get_managed_cluster_namespace_for_system == namespace
        then get_managed_labels_no_binding cluster_name
        else get_managed_binding_labels binding cluster_name) in
    if not (get_managed_cluster_namespace_for_system == namespace)
      && not (namespace == monitoring_namespace)
    then insert "istio-injection" "enabled" binding_labels
    else binding_labels

unfoldable pub new_namespace : SyntheticBinding → String → String → Namespace
unfolding new_namespace_labels
new_namespace binding cluster_name namespace = record {
  metadata = record {
    name = namespace;
    namespace = "";
    labels = new_namespace_labels binding cluster_name namespace;
    resource_version = "";
    owner_references = [];
    uid = "";
  };
  finalizers = "kubernetes" ∷ [];
}

unfoldable pub new_namespaces : SyntheticBinding → String → List String → List Namespace
unfolding new_namespace
new_namespaces binding cluster_name [] = []
new_namespaces binding cluster_name (namespace ∷ rest) =
    new_namespace binding cluster_name namespace ∷ new_namespaces binding cluster_name rest

-- The rest of the loop's body, on the lister's answer.
unfoldable pub create_if_absent : Connection → Namespace → Answer Namespace → Prog (Option Error)
create_if_absent conn new (some existing, err) = ret err
create_if_absent conn new (none, err) = ask (create (managed conn) namespaces "" new)

unfoldable pub create_namespace : Connection → List Namespace → Prog (Option Error)
unfolding create_if_absent for_each
create_namespace conn new_namespaces =
    for_each
      (λ new. do
        existing ← ask (cached_get (managed conn) namespaces "" new.metadata.name)
        create_if_absent conn new existing)
      new_namespaces

unfoldable pub create_namespaces : SyntheticModelBinding → Map Connection → Prog (Option Error)
unfolding create_namespace new_namespaces must_lookup for_each
create_namespaces mb filtered_connections =
    for_each
      (λ kv. do
        conn ← must_lookup kv.0 filtered_connections
        create_namespace conn (new_namespaces mb.syn_binding kv.1.name kv.1.namespaces))
      mb.managed_clusters

-- After a tick: has the namespace gone? `none` means that the wait goes on.
unfoldable pub removal_answer : String → String → Answer Namespace → Option (Option Error)
removal_answer namespace cluster (found, none) = none
removal_answer namespace cluster (found, some not_found) = some none
removal_answer namespace cluster (found, some e) =
    some (some (namespace_removal_failed namespace cluster e))

abbrev pub finish_or : Option (Option Error) → Prog (Option Error) → Prog (Option Error)
finish_or none rest = rest
finish_or (some err) rest = ret err

-- The `select` loop, with the number of ticks that it takes before the timeout.
unfoldable pub await_removal : Connection → String → String → ℕ → Prog (Option Error)
unfolding removal_answer
await_removal conn namespace cluster zero = ret (some (namespace_timeout namespace cluster))
await_removal conn namespace cluster (suc ticks) = do
  answer ← ask (live_get (managed conn) namespaces "" namespace)
  finish_or (removal_answer namespace cluster answer) (await_removal conn namespace cluster ticks)

-- Durations are in seconds.
unfoldable pub wait_for_ns_deletion : Connection → String → String → ℕ → ℕ → Prog (Option Error)
unfolding await_removal
wait_for_ns_deletion conn namespace cluster timeout tick = do
  ticks ← ask (timers timeout tick)
  await_removal conn namespace cluster ticks

-- Delete a namespace and wait until it is gone.
unfoldable pub delete_and_wait : Connection → String → String → Prog (Option Error)
unfolding wait_for_ns_deletion
delete_and_wait conn cluster name = do
  err ← ask (delete (managed conn) namespaces "" name)
  or_return err (wait_for_ns_deletion conn name cluster 120 1)

unfoldable pub is_system_namespace : String → Bool
is_system_namespace name =
    if name == monitoring_namespace then true else name == verrazzano_namespace

-- First loop of CleanupOrphanedNamespaces: a cluster of the binding.
unfoldable pub cleanup_matched :
    SyntheticModelBinding → Map Connection → String × ManagedCluster → Prog (Option Error)
unfolding must_lookup contains delete_listed bound_selector
cleanup_matched mb matched (cluster_name, mc) = do
  conn ← must_lookup cluster_name matched
  elim mc.namespaces [
    | [] ↦ ret none
    | _ ∷ _ ↦ for_each_listed (managed conn) namespaces "" (bound_selector mb cluster_name) λ ns.
        unless (contains mc.namespaces ns.metadata.name)
          (ask (delete (managed conn) namespaces "" ns.metadata.name))
  ]

-- Second loop: a cluster that the binding does not apply to.
unfoldable pub cleanup_bound : SyntheticModelBinding → String → Connection → Prog (Option Error)
unfolding delete_and_wait for_each_listed bound_selector
cleanup_bound mb cluster_name conn =
    for_each_listed (managed conn) namespaces "" (bound_selector mb cluster_name) λ ns.
      unless (ns.metadata.name == monitoring_namespace)
        (delete_and_wait conn cluster_name ns.metadata.name)

unfoldable pub cleanup_unbound : String → Connection → Prog (Option Error)
unfolding delete_and_wait for_each_listed is_system_namespace get_managed_labels_no_binding
cleanup_unbound cluster_name conn =
    for_each_listed (managed conn) namespaces "" (get_managed_labels_no_binding cluster_name) λ ns.
      unless (is_system_namespace ns.metadata.name)
        (delete_and_wait conn cluster_name ns.metadata.name)

unfoldable pub cleanup_unmatched :
    SyntheticModelBinding → Map SyntheticModelBinding → String × Connection → Prog (Option Error)
unfolding cleanup_bound cleanup_unbound is_cluster_in_binding
cleanup_unmatched mb all (cluster_name, conn) = do
  err ← cleanup_bound mb cluster_name conn
  or_return err
      (unless (is_cluster_in_binding cluster_name all) (cleanup_unbound cluster_name conn))

unfoldable pub cleanup_orphaned_namespaces :
    SyntheticModelBinding → Map Connection → Map SyntheticModelBinding → Prog (Option Error)
unfolding cleanup_matched cleanup_unmatched for_each get_managed_clusters_for_verrazzano_binding
    get_managed_clusters_not_for_verrazzano_binding
cleanup_orphaned_namespaces mb available all =
    when_filtered (get_managed_clusters_for_verrazzano_binding mb available) λ matched. do
      err ← for_each (cleanup_matched mb matched) mb.managed_clusters
      or_return err (
          for_each (cleanup_unmatched mb all)
            (get_managed_clusters_not_for_verrazzano_binding mb available))

unfoldable pub delete_cluster_namespaces :
    SyntheticModelBinding → Bool → String × Connection → Prog (Option Error)
unfolding label_selector delete_and_wait for_each_listed is_system_namespace
delete_cluster_namespaces mb binding_label (cluster_name, conn) =
    for_each_listed (managed conn) namespaces "" (label_selector mb cluster_name binding_label)
      λ ns.
        unless (is_system_namespace ns.metadata.name)
          (delete_and_wait conn cluster_name ns.metadata.name)

unfoldable pub delete_namespaces :
    SyntheticModelBinding → Map Connection → Bool → Prog (Option Error)
unfolding delete_cluster_namespaces for_each get_managed_clusters_for_verrazzano_binding
delete_namespaces mb available binding_label =
    when_filtered (get_managed_clusters_for_verrazzano_binding mb available)
      λ clusters. for_each (delete_cluster_namespaces mb binding_label) clusters
