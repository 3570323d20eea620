-- ===== src/Signals.antt =====
-- pkg/signals/signal.go and signal_posix.go.
use verrazzano_operator.Prelude.{zero, suc, ◌≡◌, refl, ℕ, Bool, List, [], ◌∷◌, if◌then◌else◌}
use verrazzano_operator.Kube.{
  Signal, interrupt, sigterm, Channel, stop_channel, notify, spawn, watch_signals,
}
use verrazzano_operator.Prog.{Prog, ret, panic, ask, ◌>>◌}

abbrev pub shutdown_signals : List Signal
shutdown_signals = interrupt ∷ sigterm ∷ []

-- The first step closes a channel of the process; to close it again is a panic. The argument says
-- whether it is closed.
unfoldable pub setup_signal_handler : Bool → Prog Channel
setup_signal_handler only_one_signal_handler =
    if only_one_signal_handler
    then panic
    else do ask (notify shutdown_signals); ask (spawn watch_signals); ret stop_channel

-- How far the goroutine of SetupSignalHandler has come.
pub data Watch : Type 0 where
  waiting : Watch
  -- `stop` is closed
  stopping : Watch
  -- os.Exit was called with this code
  exited : ℕ → Watch

unfoldable pub on_signal : Watch → Watch
on_signal waiting = stopping
on_signal stopping = exited 1
on_signal (exited code) = exited code

-- What the goroutine has done after so many signals.
unfoldable pub after_signals : ℕ → Watch
unfolding on_signal
after_signals zero = waiting
after_signals (suc n) = on_signal (after_signals n)

-- The process ends, with code 1, at the second signal.
after_signals-exited : (n : ℕ) → after_signals (suc (suc n)) ≡ exited 1
unfolding after_signals
after_signals-exited zero = refl
after_signals-exited (suc n) = rw (after_signals-exited n) refl
