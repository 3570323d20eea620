-- ===== src/Managed/Spared.antt =====
-- pkg/managed/clusterroles.go and clusterrolebinding.go: what their Delete functions delete.
use verrazzano_operator.Prelude.{String, Bool, none, Option}
use verrazzano_operator.Prelude.Slices.{All}
use verrazzano_operator.Prelude.Maps.{Map}
use verrazzano_operator.Kube.{
  Error, History, Request, Connection, Kind, Obj, Selector, cluster_roles, cluster_role_bindings,
}
use verrazzano_operator.Prog.{Prog}
use verrazzano_operator.Prog.Rules.{returns, Ensures, OnSuccess}
use verrazzano_operator.Types.{SyntheticModelBinding}
use verrazzano_operator.Util.{
  Filtered, filtered, unavailable, get_managed_clusters_for_verrazzano_binding,
}
use verrazzano_operator.Managed.Shared.{when_filtered, label_selector, delete_in_clusters}
use verrazzano_operator.Managed.Shared.Deleting.{DeletesListed, Cleared, delete_in_clusters_lem}
use verrazzano_operator.Managed.ClusterRoles.{delete_cluster_roles, is_system_cluster_role}
use verrazzano_operator.Managed.ClusterRoleBindings.{
  delete_cluster_role_bindings, is_system_cluster_role_binding,
}

module _ (k : Kind) (selector : String → Selector) (spare : Obj k → Bool) where
  -- Deletions are allowed in the binding's clusters, of what a lister gave and is not spared.
  abbrev pub DeletesIn : Filtered → History → Request → Type 0
  DeletesIn (unavailable e) h r = ⊥
  DeletesIn (filtered conns) h r = DeletesListed k conns selector spare h r

  -- Each of the binding's clusters is cleared, if all of them are available.
  abbrev pub ClearedIn : Filtered → History → Type 0
  ClearedIn (unavailable e) h = Unit
  ClearedIn (filtered conns) h = All (Cleared k selector spare h) conns

  when_filtered_lem :
      (f : Filtered)
      → Ensures
          (DeletesIn f)
          (OnSuccess (ClearedIn f))
          (when_filtered f (λ conns. delete_in_clusters k conns selector spare))
  when_filtered_lem (unavailable e) h = returns h none (λ p. tt)
  when_filtered_lem (filtered conns) h = delete_in_clusters_lem k conns selector spare h

module _ (mb : SyntheticModelBinding) (available : Map Connection) (flag : Bool) where
  -- The program deletes what the clusters' listers gave for the flag and is not spared, and on
  -- success all of it.
  abbrev pub Clears : (k : Kind) → (Obj k → Bool) → Prog (Option Error) → Type 0
  Clears k spare p =
      let f = get_managed_clusters_for_verrazzano_binding mb available in
      let selector : String → Selector = λ cluster. label_selector mb cluster flag in
      Ensures (DeletesIn k selector spare f) (OnSuccess (ClearedIn k selector spare f)) p

  delete_cluster_roles_lem :
      Clears cluster_roles is_system_cluster_role (delete_cluster_roles mb available flag)
  unfolding delete_cluster_roles
  delete_cluster_roles_lem =
      when_filtered_lem cluster_roles (λ cluster. label_selector mb cluster flag)
        is_system_cluster_role (get_managed_clusters_for_verrazzano_binding mb available)

  delete_cluster_role_bindings_lem :
      Clears cluster_role_bindings is_system_cluster_role_binding
        (delete_cluster_role_bindings mb available flag)
  unfolding delete_cluster_role_bindings
  delete_cluster_role_bindings_lem =
      when_filtered_lem cluster_role_bindings (λ cluster. label_selector mb cluster flag)
        is_system_cluster_role_binding (get_managed_clusters_for_verrazzano_binding mb available)

  -- DeleteClusterRoles and DeleteClusterRoleBindings do not panic. Each makes no call if a cluster
  -- of the binding is not available; otherwise it only lists and deletes, and it deletes only
  -- roles, or role bindings, that the lister of one of the binding's clusters gave for the selector
  -- of the flag, none of them one of the operator itself. Where it then returns no error, every
  -- listed one that is not one of those was deleted.
  pub delete_roles_lem :
      Clears cluster_roles is_system_cluster_role (delete_cluster_roles mb available flag)
      × Clears cluster_role_bindings is_system_cluster_role_binding
          (delete_cluster_role_bindings mb available flag)
  delete_roles_lem = (delete_cluster_roles_lem, delete_cluster_role_bindings_lem)
