-- ===== src/Managed/ConfigMaps.antt =====
-- pkg/managed/configmaps.go.
use verrazzano_operator.Prelude.{String, Option, List, [], ◌==◌, if◌then◌else◌}
use verrazzano_operator.Prelude.Maps.{Map}
use verrazzano_operator.Constants.{vmi_system_binding_name}
use verrazzano_operator.Kube.{Error, Connection, ConfigMap, config_maps}
use verrazzano_operator.Prog.{Prog}
use verrazzano_operator.Types.{ManagedCluster, SyntheticModelBinding}
use verrazzano_operator.Managed.Shared.{create_in_clusters, cleanup_in_unmatched}

-- The system binding has no config maps in the managed clusters.
unfoldable pub config_maps_for : SyntheticModelBinding → String × ManagedCluster → List ConfigMap
config_maps_for mb kv =
    if mb.syn_binding.name == vmi_system_binding_name then [] else kv.1.config_maps

unfoldable pub create_config_maps : SyntheticModelBinding → Map Connection → Prog (Option Error)
unfolding create_in_clusters config_maps_for
create_config_maps mb conns =
    create_in_clusters config_maps mb.managed_clusters conns (config_maps_for mb)

unfoldable pub cleanup_orphaned_config_maps :
    SyntheticModelBinding → Map Connection → Prog (Option Error)
unfolding cleanup_in_unmatched
cleanup_orphaned_config_maps mb available = cleanup_in_unmatched config_maps mb available
