-- ===== src/Samples/Settings.antt =====
-- Witnesses for the environment.
use verrazzano_operator.Prelude.{◌≡◌, ◌↔◌, false, []}
use verrazzano_operator.Kube.{lookup_env}
use verrazzano_operator.Prog.Rules.{Runs}
use verrazzano_operator.Environment.{false_words, get_boolean}
use verrazzano_operator.Environment.Flags.{SetTo, Read, get_boolean_lem}

get_boolean_lem_example :
    Runs
      (λ h r. r ≡ lookup_env "ES_ENABLED")
      (λ h value. Read "ES_ENABLED" (λ o. (value ≡ false) ↔ SetTo false_words o) h)
      ⊥
      []
      (get_boolean "ES_ENABLED")
get_boolean_lem_example = get_boolean_lem "ES_ENABLED" []
