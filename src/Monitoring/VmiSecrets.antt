-- ===== src/Monitoring/VmiSecrets.antt =====
-- pkg/monitoring/secrets.go. The interface Secrets is that of KubeSecrets, its implementation.
pub mod Passwords
pub mod Creates
use Prim.Native.Char.{Char}
use Prim.Native.String.{[], ◌∷◌}
use verrazzano_operator.Prelude.{
  String, ℕ, zero, suc, Bool, Option, none, some, ◌&&◌, is_some, List,
}
use verrazzano_operator.Prelude.Maps.{Map, lookup}
use verrazzano_operator.Constants.{verrazzano_namespace, vmi_secret_name, vmi_username}
use verrazzano_operator.Kube.{Error, Answer, no_password, Secret, random}
use verrazzano_operator.Prog.{Prog, ret, panic, ask, ◌>>=◌, or_return, unless, for_each, for_listed}
use verrazzano_operator.Types.{SyntheticBinding}
use verrazzano_operator.Util.{get_local_binding_labels, get_vmi_name_for_binding, contains}
use verrazzano_operator.Monitoring.Components.{named_meta}
use verrazzano_operator.Monitoring.KubeSecrets
use verrazzano_operator.Local.Secrets.{binding_selector}

abbrev pub password_chars : String
password_chars = "0123456789abcdefghijklmnopqrstuvwxyzABCDEFGHIJKLMNOPQRSTUVWXYZ"

-- len of a slice of runes, and its entry at an index; outside of the slice, a panic
abbrev pub rune_count : String → ℕ
rune_count [] = 0
rune_count (c ∷ rest) = suc (rune_count rest)

abbrev pub rune_at : ℕ → String → Option Char
rune_at i [] = none
rune_at zero (c ∷ rest) = some c
rune_at (suc i) (c ∷ rest) = rune_at i rest

-- The runes are drawn from the first to the last.
unfoldable pub gen_password : ℕ → Prog String
gen_password zero = ret ""
gen_password (suc pass_size) = do
  i ← ask (random (rune_count password_chars))
  elim (rune_at i.0 password_chars) [
    | none ↦ panic
    | some c ↦ gen_password pass_size >>= λ rest. ret (c ∷ rest)
  ]

abbrev pub secret_with : SyntheticBinding → String → Secret
unfolding get_local_binding_labels
secret_with binding password = record {
  metadata = named_meta vmi_secret_name verrazzano_namespace (get_local_binding_labels binding);
  content = List.◌∷◌ ("username", vmi_username) (List.◌∷◌ ("password", password) List.[]);
  secret_type = "";
}

unfoldable pub new_vmi_secret : SyntheticBinding → Prog Secret
unfolding gen_password get_local_binding_labels
new_vmi_secret binding = gen_password 16 >>= λ password. ret (secret_with binding password)

-- A nil map has no entries.
abbrev pub password_of : Answer Secret → String × Option Error
unfolding lookup
password_of (none, err) = ("", err)
password_of (some sec, err) = elim (lookup "password" sec.content) [
  | none ↦ ("", some no_password)
  | some pw ↦ (pw, err)
]

unfoldable pub get_vmi_password : Prog (String × Option Error)
unfolding lookup
get_vmi_password = do sec ← KubeSecrets.get vmi_secret_name; ret (password_of sec)

-- The secret has a user name and a password.
unfoldable pub is_complete : Secret → Bool
unfolding lookup
is_complete sec = is_some (lookup "username" sec.content) && is_some (lookup "password" sec.content)

-- The first part of CreateVmiSecrets, for the secret that was found.
unfoldable pub put_vmi_secret : SyntheticBinding → Option Secret → Prog (Option Error)
unfolding new_vmi_secret is_complete
put_vmi_secret binding none = new_vmi_secret binding >>= KubeSecrets.create
put_vmi_secret binding (some vmi_secret) =
    unless (is_complete vmi_secret) (new_vmi_secret binding >>= KubeSecrets.update)

-- The names that the second part leaves alone.
abbrev pub secret_names : SyntheticBinding → List String
unfolding get_vmi_name_for_binding
secret_names binding =
    List.◌∷◌ vmi_username (List.◌∷◌ (get_vmi_name_for_binding binding.name) List.[])

unfoldable pub delete_other_secrets : SyntheticBinding → Prog (Option Error)
unfolding for_each contains get_vmi_name_for_binding
delete_other_secrets binding = do
  existing ← KubeSecrets.list "" (binding_selector binding)
  for_listed
      (λ o.
        unless (contains (secret_names binding) o.metadata.name)
          (KubeSecrets.delete o.metadata.namespace o.metadata.name))
      existing

unfoldable pub create_vmi_secrets : SyntheticBinding → Prog (Option Error)
unfolding put_vmi_secret delete_other_secrets
create_vmi_secrets binding = do
  vmi_secret ← KubeSecrets.get vmi_secret_name
  err ← put_vmi_secret binding vmi_secret.0
  or_return err (delete_other_secrets binding)
