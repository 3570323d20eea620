-- ===== src/Environment.antt =====
-- pkg/util/env.go, and the functions of pkg/util/utils.go that read the environment. Children:
-- replica counts, and the variables that are passed on as they are.
pub mod Flags
pub mod Replicas
pub mod Variables
use verrazzano_operator.Prelude.{
  String, Bool, true, false, Option, none, some, List, [], ◌∷◌, if◌then◌else◌,
}
use verrazzano_operator.Constants.{vmi_system_binding_name}
use verrazzano_operator.Kube.{lookup_env}
use verrazzano_operator.Prog.{Prog, ret, ask, ◌>>=◌}
use verrazzano_operator.Util.{contains}

-- What strconv.ParseBool takes for true and for false; it refuses all else.
abbrev pub true_words : List String
true_words = "1" ∷ "t" ∷ "T" ∷ "true" ∷ "TRUE" ∷ "True" ∷ []

abbrev pub false_words : List String
false_words = "0" ∷ "f" ∷ "F" ∷ "false" ∷ "FALSE" ∷ "False" ∷ []

unfoldable pub parse_bool : String → Option Bool
unfolding contains
parse_bool str =
    if contains true_words str
    then some true
    else if contains false_words str
    then some false
    else none

abbrev pub enabled_by : Option String → Bool
enabled_by none = true
enabled_by (some svalue) = elim (parse_bool svalue) [ none ↦ true | some value ↦ value ]

unfoldable pub get_boolean : String → Prog Bool
unfolding parse_bool
get_boolean var_name = do svalue ← ask (lookup_env var_name); ret (enabled_by svalue)

abbrev pub prom_enabled : String
prom_enabled = "PROMETHEUS_ENABLED"

abbrev pub es_enabled : String
es_enabled = "ES_ENABLED"

abbrev pub grafana_enabled : String
grafana_enabled = "GRAFANA_ENABLED"

abbrev pub kibana_enabled : String
kibana_enabled = "KIBANA_ENABLED"

abbrev pub shared_vmi_variable : String
shared_vmi_variable = "USE_SYSTEM_VMI"

abbrev pub get_prometheus_enabled : Prog Bool
get_prometheus_enabled = get_boolean prom_enabled

abbrev pub get_elasticsearch_enabled : Prog Bool
get_elasticsearch_enabled = get_boolean es_enabled

abbrev pub get_grafana_enabled : Prog Bool
get_grafana_enabled = get_boolean grafana_enabled

abbrev pub get_kibana_enabled : Prog Bool
get_kibana_enabled = get_boolean kibana_enabled

abbrev pub shared_by : Option String → Bool
shared_by none = false
shared_by (some env_value) = elim (parse_bool env_value) [ none ↦ false | some value ↦ value ]

unfoldable pub shared_vmi_default : Prog Bool
unfolding parse_bool
shared_vmi_default = do env_value ← ask (lookup_env shared_vmi_variable); ret (shared_by env_value)

unfoldable pub get_profile_binding_name : String → Prog String
unfolding shared_vmi_default
get_profile_binding_name binding_name = do
  shared ← shared_vmi_default
  ret (if shared then vmi_system_binding_name else binding_name)
