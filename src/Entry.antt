-- ===== src/Entry.antt =====
-- main.go, after the flags are parsed: main.
pub mod Unstoppable
use verrazzano_operator.Prelude.{String, Bool, false, Option, none, some, if◌then◌else◌}
use verrazzano_operator.Kube.{Error, api_server_exited, build_config, receive}
use verrazzano_operator.Prog.{Prog, ret, ask, ◌>>=◌, ◌>>◌}
use verrazzano_operator.Packages.{Packages}
use verrazzano_operator.Controller.{Controller}
use verrazzano_operator.Controller.Startup.{fatal, or_fatal, new_controller, run}

-- The variables that the flags set.
pub record Flags : Type 0 where
  pub master_url : String
  pub kubeconfig : String
  pub watch_namespace : String
  pub verrazzano_uri : String
  pub enable_monitoring_storage : String
  pub start_controller : Bool

-- `if err != nil { zap.S().Fatalf(…) }`, with the error as the last part of the result.
abbrev pub unless_failed : {A B : Type 0} → (A → Prog B) → A × Option Error → Prog B
unless_failed next (a, none) = next a
unless_failed next (a, some e) = fatal

abbrev pub start_if : Bool → Prog (Controller × Option Error) → Prog (Unit {0})
start_if wanted start = if wanted then (start >>= unless_failed λ c. ret tt) else ret tt

-- main is the only caller of NewController, and calls it once.
unfoldable pub main : Flags → Packages → Prog (Unit {0})
unfolding new_controller run
main flags packages =
    ask (build_config flags.master_url flags.kubeconfig)
    >>= or_fatal λ config.
      new_controller false packages config flags.watch_namespace flags.verrazzano_uri
        flags.enable_monitoring_storage
      >>= unless_failed λ c. do
        start_if flags.start_controller (run flags.kubeconfig c)
        ask (receive api_server_exited) >> ret tt
