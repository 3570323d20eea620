-- ===== src/Kube/Clients.antt =====
-- The clients, channels, informers and goroutines that pkg/ and main.go make. The parent passes the
-- names on.
use verrazzano_operator.Prelude.{String, ℕ, List}

pub data Kind : Type 0 where
  namespaces secrets service_accounts config_maps cluster_roles : Kind
  cluster_role_bindings deployments services daemon_sets instances : Kind

-- pkg/util/utils.go, ManagedClusterConnection: a connection is known by its identity alone, since
-- its clients, listers and informers are used only through calls.
pub record Connection : Type 0 where
  pub id : ℕ

-- The client set of the management cluster, or that of a connection.
pub data Client : Type 0 where
  management : Client
  managed : Connection → Client

-- A configuration and a client set of a client library, known by their identity alone.
pub record RestConfig : Type 0 where
  pub id : ℕ

pub record ClientSet : Type 0 where
  pub id : ℕ

pub data ClientLibrary : Type 0 where
  kubernetes api_extensions verrazzano_operator_client vmo : ClientLibrary

-- The channels that the program waits on: the nil channel, the one that SetupSignalHandler makes
-- and closes on the first signal, and the one that main makes, which no other code has.
pub data Channel : Type 0 where
  nil_channel stop_channel api_server_exited : Channel

-- A receive from the nil channel blocks forever, and so does one from a channel that nobody sends
-- to or closes.
abbrev pub Received : Channel → Type 0
Received nil_channel = ⊥
Received stop_channel = Unit
Received api_server_exited = ⊥

-- pkg/signals/signal_posix.go
pub data Signal : Type 0 where
  interrupt sigterm : Signal

-- What an informer watches.
pub data Resource : Type 0 where
  objects : Kind → Resource
  pods : Resource

pub record Informer : Type 0 where
  pub client : Client
  pub resource : Resource

-- A SharedInformerFactory: the resources whose informers it has made are those that Start starts.
-- The empty namespace means all of them.
pub record Factory : Type 0 where
  pub client : Client
  pub namespace : String
  pub resources : List Resource

pub data Goroutine : Type 0 where
  start_informers : Factory → Channel → Goroutine
  watch_signals : Goroutine
  -- createUpdateGlobalEntitiesGoroutine, with the name of its binding, which has nothing else
  update_global_entities : String → Goroutine
