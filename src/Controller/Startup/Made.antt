-- ===== src/Controller/Startup/Made.antt =====
-- pkg/controller/controller.go, NewController: what it starts, and the controller that it returns.
use verrazzano_operator.Prelude.{
  String, Bool, true, false, ◌≡◌, refl, ◌⊎◌, inl, inr, none, some, Option, [], ◌∷◌,
}
use verrazzano_operator.Prelude.Slices.{In}
use verrazzano_operator.Prelude.Maps.{Map}
use verrazzano_operator.Constants.{vmi_system_binding_name}
use verrazzano_operator.Kube.{
  Error, caches_not_synced, History, Request, event, RestConfig, ClientSet, ClientLibrary,
  kubernetes, verrazzano_operator_client, vmo, api_extensions, nil_channel, stop_channel,
  start_informers, watch_signals, update_global_entities, new_client_set, notify, spawn,
  wait_for_cache_sync, exit,
}
use verrazzano_operator.Prog.{Prog, ask, ◌>>=◌}
use verrazzano_operator.Prog.Rules.{Lasts, Runs, calls, returns, Ensures}
use verrazzano_operator.Signals.{shutdown_signals, setup_signal_handler}
use verrazzano_operator.Local.AcmeDns.{AcmeDns}
use verrazzano_operator.Packages.{own_packages}
use verrazzano_operator.Controller.{Controller}
use verrazzano_operator.Controller.Startup.{
  or_fatal, kube_informer_factory, vmo_informer_factory, first_controller, first_informers,
  when_synced, start_controller, new_controller,
}

module _ (config : RestConfig) (watch_namespace : String) where
  abbrev pub Made : ClientLibrary → History → Type 0
  Made library h = (cs : ClientSet) × In (event (new_client_set library config) (inl cs)) h

  -- A client set was made with each library.
  abbrev pub AllMade : History → Type 0
  AllMade h =
      Made kubernetes h × Made verrazzano_operator_client h × Made vmo h × Made api_extensions h

  AllMade-lasts : Lasts AllMade
  AllMade-lasts e h ((a, k), (b, o), (c, v), (d, x)) =
      ((a, inr k), (b, inr o), (c, inr v), (d, inr x))

  -- The informers of both factories were started, until the stop channel is closed.
  abbrev pub AllStarted : History → Type 0
  AllStarted h =
      In (event (spawn (start_informers (kube_informer_factory watch_namespace) stop_channel)) tt) h
      × In (event (spawn (start_informers (vmo_informer_factory watch_namespace) stop_channel)) tt)
          h

  -- What the wait for the caches answered. It waits on the nil channel.
  abbrev pub Synced : Bool → History → Type 0
  Synced ok h = In (event (wait_for_cache_sync nil_channel first_informers) ok) h

  -- The goroutines, each when what it needs is there.
  abbrev pub MayStart : History → Request → Type 0
  MayStart h r =
      (r ≡ spawn watch_signals)
      ⊎ (r ≡ spawn (start_informers (kube_informer_factory watch_namespace) stop_channel))
      ⊎ (r ≡ spawn (start_informers (vmo_informer_factory watch_namespace) stop_channel))
      ⊎ ((r ≡ spawn (update_global_entities vmi_system_binding_name)) × Synced true h)

  abbrev pub Makes : History → Request → Type 0
  Makes h (new_client_set library cfg) = cfg ≡ config
  Makes h (exit code) =
      (code ≡ 1)
      × ((library : ClientLibrary) × (e : Error) × In
            (event (new_client_set library config) (inr e)) h)
  Makes h (notify signals) = (signals ≡ shutdown_signals) × AllMade h
  Makes h (spawn g) = AllMade h × MayStart h (spawn g)
  Makes h (wait_for_cache_sync ch informers) =
      (ch ≡ nil_channel) × (informers ≡ first_informers) × AllStarted h
  Makes h _ = ⊥

  -- The error is that of the wait, and without one the global entities are kept up to date.
  abbrev pub SyncOutcome : History → Option Error → Type 0
  SyncOutcome h err =
      ((err ≡ none)
        × Synced true h
        × In (event (spawn (update_global_entities vmi_system_binding_name)) tt) h)
      ⊎ ((err ≡ some caches_not_synced) × Synced false h)

  module _ (asset : String → String ⊎ Error) (unmarshal : String → Map AcmeDns ⊎ Error)
      (marshal : Map AcmeDns → String ⊎ Error) (uri storage : String) where
    -- The controller of the literal.
    -- It knows no cluster, model, binding or pair, and its stop channel is nil.
    abbrev pub fresh_controller : Controller
    fresh_controller = record {
      packages = own_packages asset unmarshal marshal;
      verrazzano_uri = uri;
      enable_monitoring_storage = storage;
      image_pull_secrets = [];
      managed_cluster_connections = [];
      application_models = [];
      application_bindings = [];
      synthetic_model_bindings = [];
      binding_sync_threshold = [];
      watch_namespace = watch_namespace;
      stop_ch = nil_channel;
    }

    abbrev pub NewOutcome : History → Controller × Option Error → Type 0
    NewOutcome h result =
        (result.0 ≡ fresh_controller) × AllMade h × AllStarted h × SyncOutcome h result.1

    Makes-when_synced :
        (ok : Bool) (h : History)
        → AllMade h
        → AllStarted h
        → Synced ok h
        → Runs Makes NewOutcome ⊥ h (when_synced fresh_controller ok)
    unfolding first_controller
    Makes-when_synced true h made (k, v) sy =
        calls h _ _ (made, inr (inr (inr (refl, sy))))
          λ u.
            returns _ _ (refl, AllMade-lasts _ h made, (inr k, inr v), inl (refl, inr sy, inl refl))
    Makes-when_synced false h made started sy = returns h _ (refl, made, started, inr (refl, sy))

    Makes-start :
        (h : History)
        → AllMade h
        → Runs Makes NewOutcome ⊥ h (start_controller false fresh_controller)
    unfolding start_controller setup_signal_handler first_controller own_packages
    Makes-start h m =
        calls h _ _ (refl, m)
          λ u1.
            let e1 = event (notify shutdown_signals) u1 in
            let h1 : History = e1 ∷ h in
            let m1 = AllMade-lasts e1 h m in
            calls h1 _ _ (m1, inl refl)
              λ u2.
                let e2 = event (spawn watch_signals) u2 in
                let h2 : History = e2 ∷ h1 in
                let m2 = AllMade-lasts e2 h1 m1 in
                calls h2 _ _ (m2, inr (inl refl))
                  λ u3.
                    let e3 =
                      event
                        (spawn
                          (start_informers (kube_informer_factory watch_namespace) stop_channel))
                        u3 in
                    let h3 : History = e3 ∷ h2 in
                    let m3 = AllMade-lasts e3 h2 m2 in
                    calls h3 _ _ (m3, inr (inr (inl refl)))
                      λ u4.
                        let e4 =
                          event
                            (spawn
                              (start_informers (vmo_informer_factory watch_namespace) stop_channel))
                            u4 in
                        let h4 : History = e4 ∷ h3 in
                        let m4 = AllMade-lasts e4 h3 m3 in
                        calls h4 _ _ (refl, refl, (inr (inl refl), inl refl))
                          λ ok.
                            let e5 = event (wait_for_cache_sync nil_channel first_informers) ok in
                            Makes-when_synced ok (e5 ∷ h4) (AllMade-lasts e5 h4 m4)
                              (inr (inr (inl refl)), inr (inl refl)) (inl refl)

    -- log.Fatalf after an error of NewForConfig.
    Makes-or_fatal :
        (library : ClientLibrary) (next : ClientSet → Prog (Controller × Option Error))
        (h : History)
        → ((cs : ClientSet)
            → Runs Makes NewOutcome ⊥
                (event (new_client_set library config) (inl cs) ∷ h)
                (next cs))
        → Runs Makes NewOutcome ⊥ h (ask (new_client_set library config) >>= or_fatal next)
    unfolding first_controller
    Makes-or_fatal library next h rest = calls h _ _ refl λ answer. split answer
      where
        split :
            (answer : ClientSet ⊎ Error)
            → Runs Makes NewOutcome ⊥
                (event (new_client_set library config) answer ∷ h)
                (or_fatal next answer)
        split (inl cs) = rest cs
        split (inr e) = calls _ _ _ (refl, (library, e, inl refl)) (λ never. absurd never)

    pub new_controller_lem : Ensures Makes NewOutcome (
        new_controller false
          (own_packages asset unmarshal marshal)
          config
          watch_namespace
          uri
          storage)
    unfolding new_controller first_controller
    new_controller_lem h = Makes-or_fatal kubernetes _ h λ k.
        Makes-or_fatal verrazzano_operator_client _ _ λ o. Makes-or_fatal vmo _ _ λ v.
          Makes-or_fatal api_extensions _ _ λ x. Makes-start _ (
            (k, inr (inr (inr (inl refl)))),
            (o, inr (inr (inl refl))),
            (v, inr (inl refl)),
            (x, inl refl),
          )
