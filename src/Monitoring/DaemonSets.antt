-- ===== src/Monitoring/DaemonSets.antt =====
-- pkg/monitoring/daemonsets.go: the daemon set of the node exporter.
use verrazzano_operator.Prelude.{String, List, [], ◌∷◌, true}
use verrazzano_operator.Prelude.Maps.{Map}
use verrazzano_operator.Constants.{node_exporter_name, monitoring_namespace, service_app_label}
use verrazzano_operator.Kube.{DaemonSet, Volume, VolumeMount, ContainerPort, Container, PodSpec}
use verrazzano_operator.Environment.Variables.{get_node_exporter_image}
use verrazzano_operator.Prog.{Prog, ret, ◌>>=◌}
use verrazzano_operator.Monitoring.Components.{named_meta, get_node_exporter_labels}

abbrev pub host_volume : String → String → Volume
host_volume name path = record { name = name; host_path = path }

abbrev pub read_only_mount : String → String → VolumeMount
read_only_mount name path = record { name = name; read_only = true; mount_path = path }

abbrev pub node_exporter_args : List String
node_exporter_args =
    "--web.listen-address=0.0.0.0:9100" ∷ "--path.procfs=/host/proc" ∷ "--path.sysfs=/host/sys"
    ∷ "--path.rootfs=/host/root"
    ∷ "--collector.filesystem.ignored-mount-points=^/(dev|proc|sys|var/lib/docker/.+)($|/)"
    ∷ "--collector.filesystem.ignored-fs-types=^(autofs|binfmt_misc|cgroup|configfs|debugfs|devpts|devtmpfs|fusectl|hugetlbfs|mqueue|overlay|proc|procfs|pstore|rpc_pipefs|securityfs|sysfs|tracefs)$"
    ∷ []

abbrev pub metrics_port : ContainerPort
metrics_port = record {
  name = "metrics";
  container_port = 9100;
  host_port = 9100;
  protocol = "TCP";
}

abbrev pub node_exporter_container : String → String → Container
node_exporter_container name image = record {
  name = name;
  image = image;
  args = node_exporter_args;
  ports = metrics_port ∷ [];
  resources = record {
    limits = ("cpu", "250m") ∷ ("memory", "180Mi") ∷ [];
    requests = ("cpu", "102m") ∷ ("memory", "180Mi") ∷ [];
  };
  volume_mounts =
      read_only_mount "proc" "/host/proc"
      ∷ read_only_mount "sys" "/host/sys"
      ∷ read_only_mount "root" "/host/root"
      ∷ [];
  image_pull_policy = "IfNotPresent";
}

abbrev pub node_exporter_pod : String → String → PodSpec
node_exporter_pod name image = record {
  volumes = host_volume "proc" "/proc" ∷ host_volume "sys" "/sys" ∷ host_volume "root" "/" ∷ [];
  containers = node_exporter_container name image ∷ [];
  restart_policy = "Always";
  dns_policy = "ClusterFirst";
  service_account_name = name;
  host_network = true;
  host_pid = true;
  node_selector = ("beta.kubernetes.io/os", "linux") ∷ [];
  run_as_user = 65534;
  tolerations = record { effect = "NoSchedule"; operator = "Exists" } ∷ [];
}

-- The literal, for the image that the environment names.
unfoldable pub node_exporter_daemon_set : String → String → Map String → String → DaemonSet
node_exporter_daemon_set namespace name labels image = record {
  metadata = named_meta name namespace labels;
  match_labels = (service_app_label, node_exporter_name) ∷ [];
  update_strategy = "RollingUpdate";
  template_labels = labels;
  annotations = ("prometheus.io/scrape", "true") ∷ ("prometheus.io/port", "9100") ∷ [];
  pod = node_exporter_pod name image;
}

unfoldable pub create_node_exporter_daemon_set : String → String → Map String → Prog DaemonSet
unfolding node_exporter_daemon_set
create_node_exporter_daemon_set namespace name labels = do
  image ← get_node_exporter_image
  ret (node_exporter_daemon_set namespace name labels image)

unfoldable pub system_daemon_sets : String → Prog (List DaemonSet)
unfolding create_node_exporter_daemon_set get_node_exporter_labels
system_daemon_sets managed_cluster_name = do
  node_exporter ←
      create_node_exporter_daemon_set monitoring_namespace node_exporter_name
        (get_node_exporter_labels managed_cluster_name)
  ret (node_exporter ∷ [])
