-- ===== src/Controller/Joining.antt =====
-- pkg/controller/controller.go, processManagedCluster with the packages of the source.
pub mod Outcome
use verrazzano_operator.Prelude.{
  String, ◌≡◌, refl, ◌⊎◌, inl, inr, none, some, [], ◌∷◌, Option-cases,
}
use verrazzano_operator.Prelude.Slices.{In}
use verrazzano_operator.Prelude.Maps.{Map, lookup, insert}
use verrazzano_operator.Constants.{verrazzano_system, verrazzano_operator_service_account}
use verrazzano_operator.Kube.{
  Channel, Error, Answer, Connection, History, Request, event, managed, management,
  service_accounts, ServiceAccount, live_get, wait_for_cache_sync,
}
use verrazzano_operator.Prog.{Prog, ◌>>=◌}
use verrazzano_operator.Prog.Rules.{
  Runs, returns, panics, calls, Lasts, Runs-bind, Runs-mono, Runs-weaken, Runs-excuse, Runs-guard,
  Runs-frame,
}
use verrazzano_operator.Util.Clusters.{Reaches}
use verrazzano_operator.Managed.Connections.Built.{
  HasClients, Started, Refused, BuildOutcome, Builds, build_managed_cluster_connection_lem,
}
use verrazzano_operator.Managed.Reaching.{WritesThrough, WritesThrough-mono}
use verrazzano_operator.Local.AcmeDns.{AcmeDns}
use verrazzano_operator.Packages.{managed_package, own_packages, ClusterInfo}
use verrazzano_operator.Controller.{Controller}
use verrazzano_operator.Controller.Resources.{
  create_managed_cluster_resources_for_binding, get_cluster_info,
}
use verrazzano_operator.Controller.Handlers.{
  system_pair, put_connection, when_built, with_service_account, process_managed_cluster,
  synced_informers,
}
use verrazzano_operator.Controller.Info.{
  ReadsInfo, Allowed-get_cluster_info, system_pair-IsWellKeyed, system_pair-filtered,
  system_pair-Reaches,
}
use verrazzano_operator.Controller.Steps.{Allowed}
use verrazzano_operator.Controller.Placing.{create_managed_cluster_resources_for_binding_lem}

abbrev pub asks_account : Request
asks_account =
    live_get management service_accounts verrazzano_system verrazzano_operator_service_account

module _ (path : String) (stop_ch : Channel) where
  -- A connection that was built from the path, with its informers started.
  abbrev pub IsReady : Connection → History → Type 0
  IsReady conn h = HasClients path stop_ch conn h × Started path stop_ch conn h

  IsReady-lasts : (conn : Connection) → Lasts (IsReady conn)
  IsReady-lasts conn e h ((cfg, cs, ext, c, k, x, q), s) =
      ((cfg, cs, ext, inr c, inr k, inr x, q), inr s)

  abbrev pub JoinsThrough : Connection → History → Request → Type 0
  JoinsThrough conn h r =
      (r ≡ wait_for_cache_sync stop_ch (synced_informers conn))
      ⊎ ReadsInfo h r
      ⊎ WritesThrough (λ client. client ≡ managed conn) h r

  -- The service account is read, a connection is built, and what follows goes to a connection that
  -- was built, with its informers started.
  abbrev pub Joins : History → Request → Type 0
  Joins h r =
      (r ≡ asks_account)
      ⊎ Builds path stop_ch h r
      ⊎ ((conn : Connection) × IsReady conn h × JoinsThrough conn h r)

module _ (n path : String) (c : Controller) (asset : String → String ⊎ Error)
    (unmarshal : String → Map AcmeDns ⊎ Error) (marshal : Map AcmeDns → String ⊎ Error)
    (own : c.packages ≡ own_packages asset unmarshal marshal) where
  Allowed-wait :
      (conn : Connection)
      → Allowed
          (JoinsThrough path c.stop_ch conn)
          (Unit {0})
          (c.packages.wait_for_cache_sync c.stop_ch (synced_informers conn))
  unfolding own_packages
  Allowed-wait conn h = rw own (calls h _ _ (inl refl) (λ ok. returns _ ok tt))

  Allowed-resources :
      (conn : Connection) (info : ClusterInfo)
      → let c1 = put_connection n conn c in
        Allowed
          (JoinsThrough path c.stop_ch conn)
          (Unit {0})
          (create_managed_cluster_resources_for_binding (system_pair n c1) info c1)
  unfolding put_connection own_packages
  Allowed-resources conn info h =
      let c1 = put_connection n conn c in
      let conns = c.managed_cluster_connections in
      Runs-excuse _ h (λ _. tt)
        (Runs-weaken _ h (λ h' r g. inr (inr (through h' r g)))
          (create_managed_cluster_resources_for_binding_lem (system_pair n c1) (insert n conn conns)
            ((n, conn) ∷ []) (system_pair-IsWellKeyed n conn c1 conns)
            (system_pair-filtered n conn c1 conns) info c1 (rw own refl) (rw own refl) refl h))
    where
      through :
          (h' : History) (r : Request)
          → WritesThrough
              (Reaches
                (system_pair n (put_connection n conn c)).managed_clusters
                (insert n conn c.managed_cluster_connections))
              h'
              r
          → WritesThrough (λ client. client ≡ managed conn) h' r
      through h' r g =
          WritesThrough-mono _ _
            (system_pair-Reaches n conn (put_connection n conn c) c.managed_cluster_connections) h'
            r g

  -- Calls through a connection that is ready, which it stays.
  Runs-through :
      {A : Type 0} (conn : Connection) (m : Prog A)
      → Allowed (JoinsThrough path c.stop_ch conn) (Unit {0}) m
      → (h : History) → IsReady path c.stop_ch conn h
      → Runs (Joins path c.stop_ch) (λ h' a. IsReady path c.stop_ch conn h') (Unit {0}) h m
  Runs-through conn m a h ready =
      let J = IsReady path c.stop_ch conn in
      let lasts = IsReady-lasts path c.stop_ch conn in
      Runs-weaken m h (λ h' r g. inr (inr (conn, g.0, g.1)))
        (Runs-mono m h (λ h' x q. q.1)
          (Runs-guard J lasts m h ready (Runs-frame J lasts m h ready (a h))))

  -- The calls after the connection was built.
  Runs-join :
      (conn : Connection) (h : History)
      → IsReady path c.stop_ch conn h
      → Runs
          (Joins path c.stop_ch)
          (λ h' c'. (c' ≡ put_connection n conn c) × IsReady path c.stop_ch conn h')
          (Unit {0})
          h
          (when_built n c (some conn, none))
  Runs-join conn h ready = Runs-bind _ _ h (
      Runs-mono _ h
        (λ h1 ok ready1. Runs-bind get_cluster_info _ h1 (
          Runs-mono _ h1
            (λ h2 info ready2. Runs-bind _ _ h2 (
              Runs-mono _ h2 (λ h3 err ready3. returns h3 _ (refl, ready3))
                (Runs-through conn _ (Allowed-resources conn info) h2 ready2)))
            (Runs-through conn get_cluster_info
              (λ h'. Runs-weaken _ h' (λ _ _ g. inr (inl g)) (Allowed-get_cluster_info h')) h1
              ready1)))
        (Runs-through conn _ (Allowed-wait conn) h ready))

  unfoldable pub JoinedOrSame : History → Controller → Type 0
  JoinedOrSame h c' =
      ((c' ≡ c) × (e : Error) × Refused path c.stop_ch e h)
      ⊎ ((conn : Connection) × IsReady path c.stop_ch conn h × (c' ≡ put_connection n conn c))

  -- The connection is built, and what follows.
  pub Runs-build :
      (h : History)
      → Runs
          (Joins path c.stop_ch)
          JoinedOrSame
          (Unit {0})
          h
          (c.packages.managed.build_managed_cluster_connection path c.stop_ch >>= when_built n c)
  unfolding JoinedOrSame
  Runs-build h = Runs-bind _ _ h (Runs-mono _ h after_built built)
    where
      built :
          Runs
            (Joins path c.stop_ch)
            (BuildOutcome path c.stop_ch)
            (Unit {0})
            h
            (c.packages.managed.build_managed_cluster_connection path c.stop_ch)
      built =
          unfold own_packages managed_package in
          rw own (
            Runs-excuse _ h (λ _. tt)
              (Runs-weaken _ h (λ _ _ g. inr (inl g))
                (build_managed_cluster_connection_lem path c.stop_ch h)))

      after_built :
          (h' : History) (answer : Answer Connection)
          → BuildOutcome path c.stop_ch h' answer
          → Runs (Joins path c.stop_ch) JoinedOrSame (Unit {0}) h' (when_built n c answer)
      after_built h' answer (inl (conn, e, clients, started)) =
          rw e (
            Runs-mono _ h' (λ h'' c' q. inr (conn, q.1, q.0))
              (Runs-join conn h' (clients, started)))
      after_built h' answer (inr (x, e, refused)) = rw e (returns h' c (inl (refl, x, refused)))
