-- ===== src/Controller/Steps.antt =====
-- pkg/controller/controller.go: calls whose errors are only logged.
use verrazzano_operator.Prelude.{none, Option, List, [], ◌∷◌}
use verrazzano_operator.Prelude.Slices.{All}
use verrazzano_operator.Kube.{Error, History, Request}
use verrazzano_operator.Prog.{Prog}
use verrazzano_operator.Prog.Rules.{Runs, returns, Runs-bind, Runs-mono}
use verrazzano_operator.Controller.Resources.{run_all}

-- The program makes only calls that `G` allows, and panics only if `X` holds.
abbrev pub Allowed : {A : Type 0} → (History → Request → Type 0) → Type 0 → Prog A → Type 0
Allowed G X p = (h : History) → Runs G (λ _ _. Unit {0}) X h p

pub Runs-run_all :
    (G : History → Request → Type 0) (X : Type 0) (steps : List (Prog (Option Error)))
    → All (Allowed G X) steps
    → Allowed G X (run_all steps)
unfolding run_all
Runs-run_all G X [] each h = returns h none tt
Runs-run_all G X (step ∷ steps) each h =
    Runs-bind step _ h (Runs-mono step h (λ h' err u. Runs-run_all G X steps each.1 h') (each.0 h))
