-- ===== src/Managed/Deployments.antt =====
-- pkg/managed/deployment.go.
use verrazzano_operator.Prelude.{String, false, Option, List, [], ◌∷◌}
use verrazzano_operator.Prelude.Maps.{Map}
use verrazzano_operator.Kube.{Error, Connection, Workload, deployments}
use verrazzano_operator.Prog.{Prog}
use verrazzano_operator.Types.{SyntheticModelBinding}
use verrazzano_operator.Util.{get_managed_binding_labels}
use verrazzano_operator.Managed.Shared.{create_in_clusters, delete_in_clusters, cleanup_orphaned}

unfoldable pub create_deployments : SyntheticModelBinding → Map Connection → Prog (Option Error)
unfolding create_in_clusters
create_deployments mb conns =
    create_in_clusters deployments mb.managed_clusters conns (λ kv. kv.1.deployments)

unfoldable pub delete_deployments : SyntheticModelBinding → Map Connection → Prog (Option Error)
unfolding delete_in_clusters get_managed_binding_labels
delete_deployments mb conns =
    delete_in_clusters deployments conns (get_managed_binding_labels mb.syn_binding) (λ _. false)

unfoldable pub deployment_names : List Workload → List String
deployment_names [] = []
deployment_names (deployment ∷ rest) = deployment.metadata.name ∷ deployment_names rest

unfoldable pub cleanup_orphaned_deployments :
    SyntheticModelBinding → Map Connection → Prog (Option Error)
unfolding cleanup_orphaned deployment_names
cleanup_orphaned_deployments mb available =
    cleanup_orphaned deployments mb available (λ mc. deployment_names mc.deployments)
