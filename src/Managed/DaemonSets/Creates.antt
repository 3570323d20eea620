-- ===== src/Managed/DaemonSets/Creates.antt =====
-- What CreateDaemonSets leaves in each cluster of the system binding.
use verrazzano_operator.Prelude.{
  String, ◌∷◌, [], ◌≡◌, refl, none, some, ◌⊎◌, inl, inr, ◌==◌, eq_iff, Bool-cases, arith,
}
use verrazzano_operator.Prelude.Slices.{In, All, All-In}
use verrazzano_operator.Prelude.Maps.{Map, lookup}
use verrazzano_operator.Constants.{
  vmi_system_binding_name, monitoring_namespace, node_exporter_name,
}
use verrazzano_operator.Kube.{
  History, Request, Client, Connection, managed, Kind, Obj, daemon_sets, DaemonSet, Container,
  get_env, event,
}
use verrazzano_operator.Prog.{◌>>=◌, for_each, ret}
use verrazzano_operator.Prog.Rules.{
  Runs, calls, returns, Ensures, OnSuccess, Runs-bind, Runs-mono, Runs-for_each, Runs-must_lookup,
  Runs-weaken, Runs-keep, Runs-next, Runs-guard,
}
use verrazzano_operator.Types.{ManagedCluster, SyntheticModelBinding}
use verrazzano_operator.Util.Clusters.{Covers}
use verrazzano_operator.Monitoring.Components.{get_node_exporter_labels}
use verrazzano_operator.Monitoring.DaemonSets.{
  node_exporter_daemon_set, create_node_exporter_daemon_set, system_daemon_sets,
}
use verrazzano_operator.Managed.Shared.{create_or_update}
use verrazzano_operator.Managed.Shared.Creating.{
  Settled, Settled-lasts, Writes, Runs-create_or_update,
}
use verrazzano_operator.Managed.DaemonSets.{new_daemon_set, create_in_cluster, create_daemon_sets}

-- The daemon set of the node exporter in a cluster, with the given image.
abbrev node_exporter_in : String → String → DaemonSet
unfolding node_exporter_daemon_set get_node_exporter_labels
node_exporter_in cluster image =
    node_exporter_daemon_set monitoring_namespace node_exporter_name
      (get_node_exporter_labels cluster) image

-- The daemon set of the cluster's node exporter: its name and namespace, the labels of the system
-- binding and the cluster, and one container, which runs the image.
abbrev pub Exports : String → String → DaemonSet → Type 0
Exports cluster image o =
    (o.metadata.name ≡ "node-exporter")
    × (o.metadata.namespace ≡ "monitoring")
    × (lookup "verrazzano.binding" o.metadata.labels ≡ some vmi_system_binding_name)
    × (lookup "verrazzano.cluster" o.metadata.labels ≡ some cluster)
    × (o.template_labels ≡ o.metadata.labels)
    × ((container : Container) × (o.pod.containers ≡ container ∷ []) × (container.image ≡ image))

node_exporter_in-Exports :
    (cluster image : String) → Exports cluster image (node_exporter_in cluster image)
unfolding node_exporter_daemon_set get_node_exporter_labels lookup
node_exporter_in-Exports cluster image = (refl, refl, refl, refl, refl, (_, refl, refl))

-- The object is the node exporter's daemon set, with the image, for the cluster that the client's
-- connection belongs to.
abbrev pub IsNodeExporter :
    Map ManagedCluster → Map Connection → String → Client → (k : Kind) → Obj k → Type 0
IsNodeExporter clusters conns image c k o =
    (kv : String × ManagedCluster) × (conn : Connection) × (o' : DaemonSet) × In kv clusters
    × (lookup kv.0 conns ≡ some conn)
    × (c ≡ managed conn)
    × Exports kv.0 image o'
    × ◌≡◌ {A = (j : Kind) × Obj j} (k, o) (daemon_sets, o')

-- For the system binding alone: the image is read, and then a node exporter with that image is
-- created where none was found, or updated where one was found from which it differs.
abbrev pub WritesNodeExporters : SyntheticModelBinding → Map Connection → History → Request → Type 0
WritesNodeExporters mb conns h r =
    (mb.syn_binding.name ≡ vmi_system_binding_name)
    × ((r ≡ get_env "NODE_EXPORTER_IMAGE")
        ⊎ ((image : String) × In (event (get_env "NODE_EXPORTER_IMAGE") image) h
            × Writes (IsNodeExporter mb.managed_clusters conns image) h r))

-- The node exporter of the cluster is settled, with an image that was read from the environment.
abbrev pub NodeExporterSettled : Map Connection → String × ManagedCluster → History → Type 0
NodeExporterSettled conns kv h =
    (conn : Connection) × (image : String) × (o : DaemonSet) × (lookup kv.0 conns ≡ some conn)
    × In (event (get_env "NODE_EXPORTER_IMAGE") image) h
    × Exports kv.0 image o
    × Settled (managed conn) daemon_sets o h

module _ (mb : SyntheticModelBinding) (conns : Map Connection)
    (system : mb.syn_binding.name ≡ vmi_system_binding_name) where
  Runs-node_exporter :
      (kv : String × ManagedCluster) (conn : Connection)
      → In kv mb.managed_clusters
      → lookup kv.0 conns ≡ some conn
      → (h : History)
      → Runs (WritesNodeExporters mb conns) (OnSuccess (NodeExporterSettled conns kv)) ⊥ h (
          new_daemon_set kv.0 >>= λ sets.
          for_each (create_or_update (managed conn) daemon_sets) sets)
  unfolding new_daemon_set system_daemon_sets create_node_exporter_daemon_set for_each
  Runs-node_exporter kv conn m found h =
      calls h _ _ (system, inl refl)
        λ image.
          let one = create_or_update (managed conn) daemon_sets (node_exporter_in kv.0 image) in
          Runs-next one (ret none) _
            (Runs-keep (λ e h' i. inr i) one _ (inl refl)
              (Runs-weaken one _ (λ h' r (i, g). (system, inr (image, i, g)))
                (Runs-guard (In (event (get_env "NODE_EXPORTER_IMAGE") image)) (λ e h' i. inr i) one
                  _ (inl refl)
                  (Runs-create_or_update {P = IsNodeExporter mb.managed_clusters conns image}
                    (managed conn) daemon_sets (node_exporter_in kv.0 image)
                    (kv, conn, _, m, found, refl, node_exporter_in-Exports kv.0 image, refl) _))))
            (λ h' (s, i).
              returns h' none
                (λ p. (conn, image, _, found, i, node_exporter_in-Exports kv.0 image, s)))

  Runs-create_in_cluster :
      (kv : String × ManagedCluster)
      → Covers mb.managed_clusters conns
      → In kv mb.managed_clusters
      → (h : History)
      → Runs
          (WritesNodeExporters mb conns)
          (OnSuccess (NodeExporterSettled conns kv))
          ⊥
          h
          (create_in_cluster conns kv)
  unfolding create_in_cluster
  Runs-create_in_cluster kv covers m h = Runs-bind _ _ h (
      Runs-must_lookup kv.0 conns h
        (λ missing.
          let (c, e) =
            All-In (λ x. (c : Connection) × (lookup x.0 conns ≡ some c)) kv mb.managed_clusters
              covers m in
          ground arith)
        (λ conn found. Runs-node_exporter kv conn m found h))

-- CreateDaemonSets, given a connection for each cluster of the pair, does not panic. For a binding
-- other than the system binding it makes no call. For the system binding it creates the node
-- exporter's daemon set, whose one container runs an image that was read from the environment, only
-- where the cluster's lister did not find it, and updates it only where the lister found one from
-- which it differs; and where it returns no error, the daemon set is, in every cluster, found
-- without a difference, updated or created.
pub create_daemon_sets_lem :
    (mb : SyntheticModelBinding) (conns : Map Connection)
    → Covers mb.managed_clusters conns
    → Ensures
        (WritesNodeExporters mb conns)
        (OnSuccess (λ h.
          mb.syn_binding.name ≡ vmi_system_binding_name
          → All (λ kv. NodeExporterSettled conns kv h) mb.managed_clusters))
        (create_daemon_sets mb conns)
unfolding create_daemon_sets
create_daemon_sets_lem mb conns covers h =
    elim (Bool-cases (mb.syn_binding.name == vmi_system_binding_name)) [
      | inl e ↦
          let system = (eq_iff mb.syn_binding.name vmi_system_binding_name).0 e in
          rw e (
            Runs-mono (for_each (create_in_cluster conns) mb.managed_clusters) h
              (λ h' err q p s. q p)
              (Runs-for_each (λ _. Unit {0}) (NodeExporterSettled conns) (λ _ _ _. tt)
                (λ kv e' h' (c, i, o, l, m, x, s).
                  (c, i, o, l, inr m, x, Settled-lasts (managed c) daemon_sets o e' h' s))
                (create_in_cluster conns) mb.managed_clusters
                (λ kv m h' _. Runs-create_in_cluster mb conns system kv covers m h') h tt))
      | inr e ↦ rw e (
          returns h none
            (λ p s. absurd (ground (arith, eq_iff mb.syn_binding.name vmi_system_binding_name))))
    ]
