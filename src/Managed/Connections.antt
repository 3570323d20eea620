-- ===== src/Managed/Connections.antt =====
-- pkg/managed/utils.go, BuildManagedClusterConnection.
pub mod Built
use verrazzano_operator.Prelude.{String, Option, none, some, List, [], ◌∷◌, ◌⊎◌, inl, inr}
use verrazzano_operator.Kube.{
  Error, Answer, Connection, managed, RestConfig, ClientSet, kubernetes, api_extensions, Channel,
  Resource, objects, pods, Factory, start_informers, build_config, new_client_set, spawn,
  namespaces, secrets, service_accounts, config_maps, cluster_roles, cluster_role_bindings,
  deployments, services, daemon_sets,
}
use verrazzano_operator.Prog.{Prog, ret, ask, ◌>>=◌, ◌>>◌}

-- `if err != nil { return nil, err }`
abbrev pub or_return_nil : {A B : Type 0} → (A → Prog (Answer B)) → A ⊎ Error → Prog (Answer B)
or_return_nil next (inl a) = next a
or_return_nil next (inr e) = ret (none, some e)

-- A connection goes by the identity of its client set.
abbrev pub connection_of : ClientSet → Connection
connection_of client_set = record { id = client_set.id }

-- The informers, in the order in which they are made.
abbrev pub connection_resources : List Resource
connection_resources =
    objects deployments
    ∷ pods
    ∷ objects service_accounts
    ∷ objects namespaces
    ∷ objects secrets
    ∷ objects cluster_roles
    ∷ objects cluster_role_bindings
    ∷ objects config_maps
    ∷ objects daemon_sets
    ∷ objects services
    ∷ []

-- NewSharedInformerFactory, for all namespaces, with the informers of the connection.
abbrev pub connection_factory : Connection → Factory
connection_factory conn = record {
  client = managed conn;
  namespace = "";
  resources = connection_resources;
}

abbrev pub start_connection : Channel → Connection → Prog (Answer Connection)
start_connection stop_ch conn = do
  ask (spawn (start_informers (connection_factory conn) stop_ch))
  ret (some conn, none)

abbrev pub with_client_set : Channel → RestConfig → ClientSet → Prog (Answer Connection)
with_client_set stop_ch cfg client_set =
    ask (new_client_set api_extensions cfg)
    >>= or_return_nil λ ext_client_set. start_connection stop_ch (connection_of client_set)

abbrev pub with_config : Channel → RestConfig → Prog (Answer Connection)
with_config stop_ch cfg =
    ask (new_client_set kubernetes cfg) >>= or_return_nil (with_client_set stop_ch cfg)

unfoldable pub build_managed_cluster_connection : String → Channel → Prog (Answer Connection)
build_managed_cluster_connection kubeconfig_path stop_ch =
    ask (build_config "" kubeconfig_path) >>= or_return_nil (with_config stop_ch)
