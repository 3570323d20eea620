-- ===== src/Managed/Secrets.antt =====
-- pkg/managed/secrets.go, and GetFilteredConnections of pkg/managed/utils.go.
pub mod Sources
pub mod Copies
use verrazzano_operator.Prelude.{
  String, Bool, true, false, ◌&&◌, Option, none, some, List, [], ◌∷◌, ◌++◌, ◌==◌, if◌then◌else◌,
}
use verrazzano_operator.Prelude.Maps.{Map, insert}
use verrazzano_operator.Constants.{vmi_system_binding_name, default_namespace, verrazzano_namespace}
use verrazzano_operator.Kube.{
  Error, Answer, Secret, secrets, Connection, managed, cached_get, create, update, diff,
}
use verrazzano_operator.Prog.{Prog, ret, panic, ask, ◌>>=◌, for_each, must_lookup}
use verrazzano_operator.Types.{ManagedCluster, SyntheticModelBinding}
use verrazzano_operator.Util.{
  Filtered, filtered, unavailable, get_managed_clusters_for_verrazzano_binding,
}
use verrazzano_operator.Local.Secrets.{get_secret}
use verrazzano_operator.Managed.Shared.{update_if_different}
use verrazzano_operator.Monitoring.Components.{named_meta}

abbrev pub wls_runtime_encryption_secret : String
wls_runtime_encryption_secret = "wlsRuntimeEncryptionSecret"

unfoldable pub get_filtered_connections : SyntheticModelBinding → Map Connection → Filtered
unfolding get_managed_clusters_for_verrazzano_binding
get_filtered_connections mb available =
    if mb.syn_binding.name == vmi_system_binding_name
    then filtered available
    else get_managed_clusters_for_verrazzano_binding mb available

-- `for k, v := range from { to[k] = v }`
unfoldable pub copy_into : Map String → Map String → Map String
unfolding insert
copy_into to [] = to
copy_into to ((k, v) ∷ from) = copy_into (insert k v to) from

-- The secret that is made from the management cluster's.
unfoldable pub copied_secret : String → String → Map String → Map String → Secret → Secret
unfolding copy_into
copied_secret secret_name namespace content labels source = record {
  metadata = named_meta secret_name namespace labels;
  content = copy_into (copy_into [] source.content) content;
  secret_type = source.secret_type;
}

-- A secret that was got without an error is dereferenced.
abbrev pub copy_got :
    String → String → Map String → Map String → Answer Secret → Prog (Answer Secret)
copy_got secret_name namespace content labels (o, some e) = ret (none, some e)
copy_got secret_name namespace content labels (none, none) = panic
copy_got secret_name namespace content labels (some source, none) =
    ret (some (copied_secret secret_name namespace content labels source), none)

-- The default namespace is tried first.
abbrev pub or_else_system : String → Answer Secret → Prog (Answer Secret)
or_else_system secret_name (o, none) = ret (o, none)
or_else_system secret_name (o, some e) = get_secret secret_name verrazzano_namespace

unfoldable pub new_secret : String → String → Map String → Map String → Prog (Answer Secret)
unfolding get_secret copied_secret
new_secret secret_name namespace content labels = do
  first ← get_secret secret_name default_namespace
  answer ← or_else_system secret_name first
  copy_got secret_name namespace content labels answer

unfoldable pub has_secret : List Secret → String → String → Bool
has_secret [] secret_name namespace = false
has_secret (secret ∷ rest) secret_name namespace =
    if secret.metadata.name == secret_name && secret.metadata.namespace == namespace
    then true
    else has_secret rest secret_name namespace

-- `if err != nil { continue }; secrets = append(secrets, secretObj)`
abbrev pub append_got : List Secret → Answer Secret → List Secret
append_got acc (o, some e) = acc
append_got acc (none, none) = acc
append_got acc (some o, none) = acc ++ o ∷ []

-- One round of the inner loop.
unfoldable pub add_secret : String → String → List Secret → Prog (List Secret)
unfolding has_secret new_secret
add_secret namespace secret_name acc =
    if has_secret acc secret_name namespace
    then ret acc
    else (do answer ← new_secret secret_name namespace [] []; ret (append_got acc answer))

unfoldable pub add_secrets : String → List String → List Secret → Prog (List Secret)
unfolding add_secret
add_secrets namespace [] acc = ret acc
add_secrets namespace (secret_name ∷ rest) acc =
    add_secret namespace secret_name acc >>= add_secrets namespace rest

unfoldable pub new_secrets : Map (List String) → List Secret → Prog (List Secret)
unfolding add_secrets
new_secrets [] acc = ret acc
new_secrets ((namespace, secret_names) ∷ rest) acc =
    add_secrets namespace secret_names acc >>= new_secrets rest

abbrev pub reconcile_secret : Connection → Secret → Answer Secret → Prog (Option Error)
reconcile_secret conn new (none, err) =
    ask (create (managed conn) secrets new.metadata.namespace new)
reconcile_secret conn new (some existing, err) =
    if existing.secret_type == wls_runtime_encryption_secret
    then ret err
    else (ask (diff secrets existing new) >>= update_if_different (managed conn) secrets new err)

unfoldable pub create_secrets_in : Connection → List Secret → Prog (Option Error)
unfolding for_each
create_secrets_in conn new_secrets =
    for_each
      (λ new. do
        existing ← ask (cached_get (managed conn) secrets new.metadata.namespace new.metadata.name)
        reconcile_secret conn new existing)
      new_secrets

abbrev pub when_connected : Filtered → (Map Connection → Prog (Option Error)) → Prog (Option Error)
when_connected (unavailable e) body = ret (some e)
when_connected (filtered m) body = body m

unfoldable pub secrets_for : SyntheticModelBinding → ManagedCluster → Prog (List Secret)
unfolding new_secrets
secrets_for mb mc =
    if mb.syn_binding.name == vmi_system_binding_name then ret [] else new_secrets mc.secrets []

unfoldable pub create_secrets : SyntheticModelBinding → Map Connection → Prog (Option Error)
unfolding get_filtered_connections create_secrets_in secrets_for must_lookup for_each
create_secrets mb available = when_connected (get_filtered_connections mb available) λ conns.
    for_each
      (λ kv. do
        conn ← must_lookup kv.0 conns
        news ← secrets_for mb kv.1
        create_secrets_in conn news)
      mb.managed_clusters
