-- ===== src/Managed/Connections/Built.antt =====
-- pkg/managed/utils.go, BuildManagedClusterConnection: what it makes, in which order, and what it
-- returns.
use verrazzano_operator.Prelude.{String, ◌≡◌, ◌≢◌, refl, ◌⊎◌, inl, inr, none, some}
use verrazzano_operator.Prelude.Slices.{In}
use verrazzano_operator.Kube.{
  namespaces, secrets, service_accounts, config_maps, cluster_roles, cluster_role_bindings,
  deployments, services, daemon_sets, History, Request, Error, Answer, event, Connection,
  RestConfig, ClientSet, kubernetes, api_extensions, Channel, Kind, instances, objects,
  start_informers, build_config, new_client_set, spawn,
}
use verrazzano_operator.Prog.{Prog}
use verrazzano_operator.Prog.Rules.{Runs, calls, returns, Ensures}
use verrazzano_operator.Managed.Connections.{
  or_return_nil, connection_of, connection_resources, connection_factory, start_connection,
  with_client_set, with_config, build_managed_cluster_connection,
}

module _ (path : String) (stop_ch : Channel) where
  abbrev pub Configured : RestConfig → History → Type 0
  Configured cfg h = In (event (build_config "" path) (inl cfg)) h

  -- The connection is that of a client set, and both client sets were made of the configuration.
  abbrev pub HasClients : Connection → History → Type 0
  HasClients conn h =
      (cfg : RestConfig) × (client_set : ClientSet) × (ext : ClientSet) × Configured cfg h
      × In (event (new_client_set kubernetes cfg) (inl client_set)) h
      × In (event (new_client_set api_extensions cfg) (inl ext)) h
      × (conn ≡ connection_of client_set)

  -- The calls: client sets are made of a configuration that was built, and the informers of a
  -- connection are started when it has its clients.
  abbrev pub Builds : History → Request → Type 0
  Builds h (build_config server p) = (server ≡ "") × (p ≡ path)
  Builds h (new_client_set library cfg) = Configured cfg h
  Builds h (spawn g) =
      (conn : Connection) × (g ≡ start_informers (connection_factory conn) stop_ch)
      × HasClients conn h
  Builds h _ = ⊥

  abbrev pub Started : Connection → History → Type 0
  Started conn h = In (event (spawn (start_informers (connection_factory conn) stop_ch)) tt) h

  -- One of the three steps answered this error.
  abbrev pub Refused : Error → History → Type 0
  Refused e h =
      In (event (build_config "" path) (inr e)) h
      ⊎ ((cfg : RestConfig) × In (event (new_client_set kubernetes cfg) (inr e)) h)
      ⊎ ((cfg : RestConfig) × In (event (new_client_set api_extensions cfg) (inr e)) h)

  abbrev pub BuildOutcome : History → Answer Connection → Type 0
  BuildOutcome h answer =
      ((conn : Connection) × (answer ≡ (some conn, none)) × HasClients conn h × Started conn h)
      ⊎ ((e : Error) × (answer ≡ (none, some e)) × Refused e h)

  Builds-or_return_nil :
      {A : Type 0} (next : A → Prog (Answer Connection)) (r : A ⊎ Error) (h : History)
      → ((e : Error) → r ≡ inr e → Refused e h)
      → ((a : A) → r ≡ inl a → Runs Builds BuildOutcome ⊥ h (next a))
      → Runs Builds BuildOutcome ⊥ h (or_return_nil next r)
  Builds-or_return_nil next (inl a) h failed rest = rest a refl
  Builds-or_return_nil next (inr e) h failed rest = returns h _ (inr (e, refl, failed e refl))

  Builds-start :
      (conn : Connection) (h : History)
      → HasClients conn h
      → Runs Builds BuildOutcome ⊥ h (start_connection stop_ch conn)
  Builds-start conn h (cfg, cs, ext, c, k, x, e) =
      calls h _ _ (conn, refl, (cfg, cs, ext, c, k, x, e))
        λ u. returns _ _ (inl (conn, refl, (cfg, cs, ext, inr c, inr k, inr x, e), inl refl))

  Builds-with_client_set :
      (cfg : RestConfig) (cs : ClientSet) (h : History)
      → Configured cfg h
      → In (event (new_client_set kubernetes cfg) (inl cs)) h
      → Runs Builds BuildOutcome ⊥ h (with_client_set stop_ch cfg cs)
  Builds-with_client_set cfg cs h c k = calls h _ _ c λ answer.
      Builds-or_return_nil _ answer _ (λ e p. inr (inr (cfg, rw p (inl refl))))
        (λ ext p.
          Builds-start (connection_of cs) _ (cfg, cs, ext, inr c, inr k, rw p (inl refl), refl))

  Builds-with_config :
      (cfg : RestConfig) (h : History)
      → Configured cfg h
      → Runs Builds BuildOutcome ⊥ h (with_config stop_ch cfg)
  Builds-with_config cfg h c = calls h _ _ c λ answer.
      Builds-or_return_nil _ answer _ (λ e p. inr (inl (cfg, rw p (inl refl))))
        (λ cs p. Builds-with_client_set cfg cs _ (inr c) (rw p (inl refl)))

-- The kinds of objects whose informers a connection has: all but the monitoring instances.
connection_resources-all : (k : Kind) → k ≢ instances → In (objects k) connection_resources
connection_resources-all namespaces h = inr (inr (inr (inl refl)))
connection_resources-all secrets h = inr (inr (inr (inr (inl refl))))
connection_resources-all service_accounts h = inr (inr (inl refl))
connection_resources-all config_maps h = inr (inr (inr (inr (inr (inr (inr (inl refl)))))))
connection_resources-all cluster_roles h = inr (inr (inr (inr (inr (inl refl)))))
connection_resources-all cluster_role_bindings h = inr (inr (inr (inr (inr (inr (inl refl))))))
connection_resources-all deployments h = inl refl
connection_resources-all services h = inr (inr (inr (inr (inr (inr (inr (inr (inr (inl refl)))))))))
connection_resources-all daemon_sets h = inr (inr (inr (inr (inr (inr (inr (inr (inl refl))))))))
connection_resources-all instances h = absurd (h refl)

-- BuildManagedClusterConnection does not panic. It makes client sets only of the configuration that
-- was built from the path, and starts informers only for a connection whose client sets were both
-- made. It returns either such a connection, with no error and its informers started with the given
-- channel, or no connection and the error of one of the three steps.
pub build_managed_cluster_connection_lem :
    (path : String) (stop_ch : Channel)
    → Ensures
        (Builds path stop_ch)
        (BuildOutcome path stop_ch)
        (build_managed_cluster_connection path stop_ch)
unfolding build_managed_cluster_connection
build_managed_cluster_connection_lem path stop_ch h =
    calls h _ _ (refl, refl)
      λ answer.
        Builds-or_return_nil path stop_ch _ answer _ (λ e p. inl (rw p (inl refl)))
          (λ cfg p. Builds-with_config path stop_ch cfg _ (rw p (inl refl)))
