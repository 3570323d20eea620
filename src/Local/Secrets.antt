-- ===== src/Local/Secrets.antt =====
-- pkg/local/secrets.go.
use verrazzano_operator.Prelude.{String, Option, none, some, List, [], ◌∷◌, ◌==◌, if◌then◌else◌}
use verrazzano_operator.Prelude.Maps.{Map}
use verrazzano_operator.Constants.{verrazzano_binding}
use verrazzano_operator.Kube.{
  Error, Answer, Secret, secrets, management, live_get, live_list, create, update, delete,
}
use verrazzano_operator.Prog.{Prog, ret, ask, ◌>>=◌, for_each_listed}
use verrazzano_operator.Types.{SyntheticBinding}

-- The selector of the local Delete functions.
abbrev pub binding_selector : SyntheticBinding → Map String
binding_selector binding = (verrazzano_binding, binding.name) ∷ []

unfoldable pub delete_secrets : SyntheticBinding → Prog (Option Error)
unfolding for_each_listed
delete_secrets binding =
    for_each_listed management secrets "" (binding_selector binding)
      λ o. ask (delete management secrets o.metadata.namespace o.metadata.name)

unfoldable pub create_generic_secret : Secret → Prog (Option Error)
create_generic_secret new_secret =
    ask (create management secrets new_secret.metadata.namespace new_secret)

abbrev pub nil_on_error : {A : Type 0} → Answer A → Answer A
nil_on_error (o, some e) = (none, some e)
nil_on_error (o, none) = (o, none)

unfoldable pub get_secret : String → String → Prog (Answer Secret)
get_secret name namespace = do
  answer ← ask (live_get management secrets namespace name)
  ret (nil_on_error answer)

unfoldable pub find_uid : String → List Secret → Option Secret
find_uid uid [] = none
find_uid uid (secret ∷ rest) = if secret.metadata.uid == uid then some secret else find_uid uid rest

-- The flag of the source, `found`, says whether there is a secret.
unfoldable pub get_secret_by_uid : String → String → Prog (Answer Secret)
unfolding find_uid
get_secret_by_uid ns uid = do
  answer ← ask (live_list management secrets ns)
  ret (elim answer.1 [ some e ↦ (none, some e) | none ↦ (find_uid uid answer.0, none) ])

unfoldable pub delete_secret : Secret → Prog (Option Error)
delete_secret secret =
    ask (delete management secrets secret.metadata.namespace secret.metadata.name)

unfoldable pub update_secret : Secret → Prog (Option Error)
update_secret secret = ask (update management secrets secret.metadata.namespace secret)
