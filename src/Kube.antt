-- ===== src/Kube.antt =====
-- The boundary to Kubernetes: the objects as far as pkg/ reads or writes their fields, the calls
-- that the program makes of clients, listers, the environment and other code outside the
-- repository, and the type of each call's result. What a call answers is left open: see `Prog`.
pub mod Objects
pub mod Pods
pub mod Instances
pub mod Clients
pub use Objects.*
pub use Pods.*
pub use Instances.*
pub use Clients.*
use verrazzano_operator.Prelude.{String, ℕ, ◌<◌, ◌⊎◌, Option, List, Bool}
use verrazzano_operator.Prelude.Maps.{Map}

-- An error value. Constructors for the errors that the program makes itself carry the values that
-- its message is formatted from; `api` is any other error that a call returned.
pub data Error : Type 0 where
  -- What `IsNotFound` recognises.
  not_found : Error
  api : String → Error
  -- util.go: managed cluster, binding
  cluster_not_found : String → String → Error
  -- namespace.go: namespace, cluster
  namespace_timeout : String → String → Error
  namespace_removal_failed : String → String → Error → Error
  -- controller.go: binding, and the last error seen if there was one
  clusters_timeout : String → Error
  clusters_still_missing : String → Error → Error
  caches_not_synced : Error
  -- vmis.go
  empty_uri : Error
  -- monitoring/secrets.go
  no_password : Error
  -- local/secrets.go
  secret_unreadable : String → String → Error → Error
  secret_key_missing : String → String → String → Error
  secret_key_invalid : String → String → String → Error → Error
  secret_key_empty : String → String → String → Error

-- Go's `(x, err)`: either part may be nil.
abbrev pub Answer : Type 0 → Type 0
Answer A = Option A × Option Error

abbrev pub Obj : Kind → Type 0
Obj namespaces = Namespace
Obj secrets = Secret
Obj service_accounts = ServiceAccount
Obj config_maps = ConfigMap
Obj cluster_roles = ClusterRole
Obj cluster_role_bindings = ClusterRoleBinding
Obj deployments = Workload
Obj services = Service
Obj daemon_sets = DaemonSet
Obj instances = Instance

abbrev pub meta : (k : Kind) → Obj k → ObjectMeta
meta namespaces o = o.metadata
meta secrets o = o.metadata
meta service_accounts o = o.metadata
meta config_maps o = o.metadata
meta cluster_roles o = o.metadata
meta cluster_role_bindings o = o.metadata
meta deployments o = o.metadata
meta services o = o.metadata
meta daemon_sets o = o.metadata
meta instances o = o.metadata

-- The namespace that a call for the object names; none for the kinds that have no namespace.
abbrev pub home : (k : Kind) → Obj k → String
home namespaces o = ""
home cluster_roles o = ""
home cluster_role_bindings o = ""
home secrets o = o.metadata.namespace
home service_accounts o = o.metadata.namespace
home config_maps o = o.metadata.namespace
home deployments o = o.metadata.namespace
home services o = o.metadata.namespace
home daemon_sets o = o.metadata.namespace
home instances o = o.metadata.namespace

-- labels.SelectorFromSet
abbrev pub Selector : Type 0
Selector = Map String

-- A list of nodes: the size of its encoding, and the container runtime that each node reports.
pub record NodeList : Type 0 where
  pub size : ℕ
  pub runtimes : List String

-- A call that leaves the program. In `list`, the empty namespace means all of them.
pub data Request : Type 0 where
  -- a lister's Get and List, from the informer's cache
  cached_get : Client → Kind → String → String → Request
  cached_list : Client → Kind → String → Selector → Request
  -- the API server's Get and List
  live_get : Client → Kind → String → String → Request
  live_list : Client → Kind → String → Request
  -- the nodes of the management cluster
  list_nodes : Request
  create : Client → (k : Kind) → String → Obj k → Request
  update : Client → (k : Kind) → String → Obj k → Request
  delete : Client → Kind → String → String → Request
  -- diff.Diff of github.com/verrazzano/pkg
  diff : (k : Kind) → Obj k → Obj k → Request
  -- os.LookupEnv and os.Getenv
  lookup_env : String → Request
  get_env : String → Request
  -- time.After and time.Tick: the answer is the number of ticks that `select` takes before the
  -- timeout
  timers : ℕ → ℕ → Request
  -- rand.Intn, whose answer is below its argument
  random : ℕ → Request
  -- a write to the fields of an object that a lister returned: the informer's cache holds that
  -- object, so the lister returns it as it is now until the cache is refreshed
  write_cached : Client → (k : Kind) → Obj k → Request
  -- clientcmd.BuildConfigFromFlags, with the API server's address and the path of a kubeconfig
  build_config : String → String → Request
  -- NewForConfig of one of the client libraries
  new_client_set : ClientLibrary → RestConfig → Request
  -- WaitForCacheSync of k8s.io/client-go/tools/cache
  wait_for_cache_sync : Channel → List Informer → Request
  -- the statement `go`
  spawn : Goroutine → Request
  -- signal.Notify, with the signals
  notify : List Signal → Request
  -- `<-time.After(d)`, with the number of seconds
  sleep : ℕ → Request
  -- `<-ch`
  receive : Channel → Request
  -- os.Exit, which log.Fatalf calls with 1
  exit : ℕ → Request

abbrev pub Reply : Request → Type 0
Reply (cached_get c k ns n) = Answer (Obj k)
Reply (cached_list c k ns s) = List (Obj k) × Option Error
Reply (live_get c k ns n) = Answer (Obj k)
Reply (live_list c k ns) = List (Obj k) × Option Error
Reply list_nodes = NodeList × Option Error
Reply (create c k ns o) = Option Error
Reply (update c k ns o) = Option Error
Reply (delete c k ns n) = Option Error
Reply (diff k old new) = String
Reply (lookup_env n) = Option String
Reply (get_env n) = String
Reply (timers t d) = ℕ
Reply (random n) = (i : ℕ) × (i < n)
Reply (write_cached c k o) = Unit
Reply (build_config server path) = RestConfig ⊎ Error
Reply (new_client_set library config) = ClientSet ⊎ Error
Reply (wait_for_cache_sync stop_ch informers) = Bool
Reply (spawn g) = Unit
Reply (notify signals) = Unit
Reply (sleep seconds) = Unit
Reply (receive ch) = Received ch
Reply (exit code) = ⊥

-- A call together with its answer.
pub data Event : Type 0 where
  event : (r : Request) → Reply r → Event

-- What has happened so far, newest first.
abbrev pub History : Type 0
History = List Event
