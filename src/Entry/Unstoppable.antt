-- ===== src/Entry/Unstoppable.antt =====
-- main.go and pkg/controller/controller.go: the program does not end when it is told to stop.
use verrazzano_operator.Prelude.{
  ap, String, Bool, true, false, ◌≡◌, ◌≢◌, refl, ◌⊎◌, inl, inr, none, some, Option,
}
use verrazzano_operator.Prelude.Maps.{Map}
use verrazzano_operator.Kube.{
  Client, Error, History, Request, RestConfig, Channel, nil_channel, stop_channel,
  api_server_exited, build_config, receive, exit, delete, new_client_set, notify, spawn,
  wait_for_cache_sync, create, update, cached_get, live_get, diff, get_env,
}
use verrazzano_operator.Prog.{Prog, ret, ask, ◌>>=◌, ◌>>◌}
use verrazzano_operator.Prog.Rules.{Runs, calls, Runs-bind, Runs-mono, Runs-weaken, Runs-excuse}
use verrazzano_operator.Local.AcmeDns.{AcmeDns}
use verrazzano_operator.Packages.{own_packages}
use verrazzano_operator.Managed.Connections.Built.{Builds}
use verrazzano_operator.Managed.Reaching.{WritesThrough}
use verrazzano_operator.Controller.{Controller}
use verrazzano_operator.Controller.Joining.{Joins}
use verrazzano_operator.Controller.Startup.{first_controller, new_controller, run, or_fatal}
use verrazzano_operator.Controller.Startup.Made.{Makes, NewOutcome, new_controller_lem}
use verrazzano_operator.Controller.Startup.Running.{RunsForever, run_lem}
use verrazzano_operator.Entry.{Flags, unless_failed, start_if, main}

-- The calls of main: it never waits for the stop channel, ends the process with code 1 alone, and
-- deletes nothing.
abbrev pub NeverStops : History → Request → Type 0
NeverStops h (receive ch) = ch ≢ stop_channel
NeverStops h (exit code) = code ≡ 1
NeverStops h (delete c k ns n) = ⊥
NeverStops h _ = Unit

Makes-NeverStops :
    (config : RestConfig) (ns : String) (h : History) (r : Request)
    → Makes config ns h r
    → NeverStops h r
Makes-NeverStops config ns h (new_client_set library cfg) g = tt
Makes-NeverStops config ns h (exit code) g = g.0
Makes-NeverStops config ns h (notify signals) g = tt
Makes-NeverStops config ns h (spawn goroutine) g = tt
Makes-NeverStops config ns h (wait_for_cache_sync ch informers) g = tt
Makes-NeverStops config ns h _ g = absurd g

Builds-NeverStops :
    (path : String) (ch : Channel) (h : History) (r : Request) → Builds path ch h r → NeverStops h r
Builds-NeverStops path ch h (build_config server p) g = tt
Builds-NeverStops path ch h (new_client_set library cfg) g = tt
Builds-NeverStops path ch h (spawn goroutine) g = tt
Builds-NeverStops path ch h _ g = absurd g

WritesThrough-NeverStops :
    (P : Client → Type 0) (h : History) (r : Request) → WritesThrough P h r → NeverStops h r
WritesThrough-NeverStops P h (cached_get c k ns n) g = tt
WritesThrough-NeverStops P h (live_get c k ns n) g = tt
WritesThrough-NeverStops P h (diff k old new) g = tt
WritesThrough-NeverStops P h (get_env n) g = tt
WritesThrough-NeverStops P h (create c k ns o) g = tt
WritesThrough-NeverStops P h (update c k ns o) g = tt
WritesThrough-NeverStops P h _ g = absurd g

Joins-NeverStops :
    (path : String) (ch : Channel) (h : History) (r : Request) → Joins path ch h r → NeverStops h r
Joins-NeverStops path ch h r (inl e) = rw e tt
Joins-NeverStops path ch h r (inr (inl g)) = Builds-NeverStops path ch h r g
Joins-NeverStops path ch h r (inr (inr (conn, ready, inl e))) = rw e tt
Joins-NeverStops path ch h r (inr (inr (conn, ready, inr (inl (inl e))))) = rw e tt
Joins-NeverStops path ch h r (inr (inr (conn, ready, inr (inl (inr e))))) = rw e tt
Joins-NeverStops path ch h r (inr (inr (conn, ready, inr (inr g)))) =
    WritesThrough-NeverStops _ h r g

-- Whatever is answered, there is no return.
abbrev NeverReturns : {A : Type 0} → History → Prog A → Type 0
NeverReturns h p = Runs NeverStops (λ h' a. ⊥) (Unit {0}) h p

module _ (flags : Flags) (asset : String → String ⊎ Error)
    (unmarshal : String → Map AcmeDns ⊎ Error) (marshal : Map AcmeDns → String ⊎ Error) where
  RunsForever-NeverStops :
      (c : Controller) (own : c.packages ≡ own_packages asset unmarshal marshal)
      (stopless : c.stop_ch ≡ nil_channel) (h : History) (r : Request)
      → RunsForever flags.kubeconfig c asset unmarshal marshal own stopless h r
      → NeverStops h r
  RunsForever-NeverStops c own stopless h r (inl g) =
      Joins-NeverStops flags.kubeconfig c.stop_ch h r g
  RunsForever-NeverStops c own stopless h r (inr e) = rw e (λ p. cc)

  NeverReturns-waits :
      (c : Controller)
      → c.packages ≡ own_packages asset unmarshal marshal
      → c.stop_ch ≡ nil_channel
      → (h : History)
      → NeverReturns h (
          start_if flags.start_controller (run flags.kubeconfig c)
          >> (ask (receive api_server_exited) >> ret tt))
  NeverReturns-waits c own stopless h = split flags.start_controller
    where
      exited :
          (h' : History)
          → Runs NeverStops
              (λ h'' (a : Unit {0}). ⊥)
              (Unit {0})
              h'
              (ask (receive api_server_exited) >> ret tt)
      exited h' = calls h' _ _ (λ e. cc) (λ never. absurd never)

      split :
          (wanted : Bool)
          → Runs NeverStops
              (λ h' (a : Unit {0}). ⊥)
              (Unit {0})
              h
              (start_if wanted (run flags.kubeconfig c)
                >> (ask (receive api_server_exited) >> ret tt))
      split false = exited h
      split true = Runs-bind _ _ h (
          Runs-bind _ _ h (
            Runs-mono _ h (λ h' result never. absurd never)
              (Runs-weaken _ h (RunsForever-NeverStops c own stopless)
                (run_lem flags.kubeconfig c asset unmarshal marshal own stopless h))))

  -- main, with the packages of the source, never returns, whatever is answered to its calls and
  -- whatever signals come: it blocks forever, panics, or ends the process with code 1. It never
  -- waits for the stop channel, which the signal handler closes, and deletes nothing.
  pub main_lem :
      (h : History)
      → Runs NeverStops (λ h' u. ⊥) (Unit {0}) h (main flags (own_packages asset unmarshal marshal))
  unfolding main
  main_lem h = calls h _ _ tt λ answer. configured answer _
    where
      rest : Controller → Prog (Unit {0})
      rest c =
          start_if flags.start_controller (run flags.kubeconfig c)
          >> (ask (receive api_server_exited) >> ret tt)

      made :
          (config : RestConfig) (result : Controller × Option Error) (h' : History)
          → NewOutcome config flags.watch_namespace asset unmarshal marshal flags.verrazzano_uri
              flags.enable_monitoring_storage h' result
          → NeverReturns h' (unless_failed rest result)
      made config (c, some e) h' out = calls h' _ _ refl (λ never. absurd never)
      made config (c, none) h' out =
          NeverReturns-waits c
            (unfold first_controller in ap (λ (x : Controller). x.packages) out.0)
            (unfold first_controller in ap (λ (x : Controller). x.stop_ch) out.0) h'

      configured :
          (answer : RestConfig ⊎ Error) (h' : History)
          → NeverReturns h' (
              or_fatal
                (λ config.
                  new_controller false
                    (own_packages asset unmarshal marshal)
                    config
                    flags.watch_namespace
                    flags.verrazzano_uri
                    flags.enable_monitoring_storage
                  >>= unless_failed rest)
                answer)
      configured (inr e) h' = calls h' _ _ refl (λ never. absurd never)
      configured (inl config) h' = Runs-bind _ _ h' (
          Runs-mono _ h' (λ h'' result out. made config result h'' out)
            (Runs-excuse _ h' (λ x. absurd x)
              (Runs-weaken _ h' (Makes-NeverStops config flags.watch_namespace) (
                new_controller_lem config flags.watch_namespace asset unmarshal marshal
                  flags.verrazzano_uri flags.enable_monitoring_storage h'))))
