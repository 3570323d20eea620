-- ===== src/Monitoring/KubeSecrets.antt =====
-- pkg/controller/secrets.go: the methods of KubeSecrets, whose namespace is the Verrazzano
-- namespace. The method GetVmiPassword delegates to pkg/monitoring.
use verrazzano_operator.Prelude.{String, Option, List}
use verrazzano_operator.Constants.{verrazzano_namespace}
use verrazzano_operator.Kube.{
  Error, Answer, Secret, secrets, management, Selector, cached_get, cached_list,
  create as create_call, update as update_call, delete as delete_call,
}
use verrazzano_operator.Prog.{Prog, ask}

abbrev pub get : String → Prog (Answer Secret)
get name = ask (cached_get management secrets verrazzano_namespace name)

abbrev pub create : Secret → Prog (Option Error)
create new_secret = ask (create_call management secrets verrazzano_namespace new_secret)

abbrev pub update : Secret → Prog (Option Error)
update new_secret = ask (update_call management secrets verrazzano_namespace new_secret)

abbrev pub list : String → Selector → Prog (List Secret × Option Error)
list ns selector = ask (cached_list management secrets ns selector)

abbrev pub delete : String → String → Prog (Option Error)
delete ns name = ask (delete_call management secrets ns name)
