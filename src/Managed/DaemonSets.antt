-- ===== src/Managed/DaemonSets.antt =====
-- pkg/managed/daemonsets.go. The URI and the cluster's data are passed on to code that reads
-- neither.
pub mod Creates
use verrazzano_operator.Prelude.{String, Option, none, List, ◌==◌, if◌then◌else◌}
use verrazzano_operator.Prelude.Maps.{Map}
use verrazzano_operator.Constants.{vmi_system_binding_name}
use verrazzano_operator.Kube.{Error, Connection, DaemonSet, managed, daemon_sets}
use verrazzano_operator.Prog.{Prog, ret, ◌>>=◌, must_lookup, for_each}
use verrazzano_operator.Types.{ManagedCluster, SyntheticModelBinding}
use verrazzano_operator.Monitoring.DaemonSets.{system_daemon_sets}
use verrazzano_operator.Managed.Shared.{create_or_update}

unfoldable pub new_daemon_set : String → Prog (List DaemonSet)
unfolding system_daemon_sets
new_daemon_set managed_cluster_name = system_daemon_sets managed_cluster_name

-- One round of the loop over the clusters.
unfoldable pub create_in_cluster : Map Connection → String × ManagedCluster → Prog (Option Error)
unfolding must_lookup new_daemon_set for_each create_or_update
create_in_cluster conns kv = do
  conn ← must_lookup kv.0 conns
  new_daemon_sets ← new_daemon_set kv.0
  for_each (create_or_update (managed conn) daemon_sets) new_daemon_sets

unfoldable pub create_daemon_sets : SyntheticModelBinding → Map Connection → Prog (Option Error)
unfolding create_in_cluster for_each
create_daemon_sets mb conns =
    let created = for_each (create_in_cluster conns) mb.managed_clusters in
    if mb.syn_binding.name == vmi_system_binding_name then created else ret none
