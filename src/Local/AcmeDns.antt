-- ===== src/Local/AcmeDns.antt =====
-- pkg/local/secrets.go, UpdateAcmeDNSSecret and the type acmeDNS. json.Unmarshal and json.Marshal
-- at its map of credentials are arguments. A key whose value is nil counts as missing here; the
-- source gives another error for it.
pub mod Entries
pub mod Retries
use Prim.Native.String.{◌++◌ as str_append}
use verrazzano_operator.Prelude.{
  String, Bool, true, false, Option, none, some, List, [], ◌∷◌, ◌||◌, if◌then◌else◌, ◌⊎◌, inl, inr,
  is_some, not,
}
use verrazzano_operator.Prelude.Maps.{Map, lookup, insert}
use verrazzano_operator.Constants.{verrazzano_namespace, acme_dns_secret_key}
use verrazzano_operator.Kube.{
  Error, not_found, secret_unreadable, secret_key_missing, secret_key_invalid, secret_key_empty,
  Answer, Secret, secrets, management, cached_get, update, write_cached,
}
use verrazzano_operator.Prog.{Prog, ret, panic, ask, ◌>>=◌, ◌>>◌}
use verrazzano_operator.Types.{SyntheticBinding}

pub record AcmeDns : Type 0 where
  pub allow_from : List String
  pub fulldomain : String
  pub password : String
  pub subdomain : String
  pub username : String

-- Go's zero value, which a map read gives for a missing key.
abbrev pub zero_credentials : AcmeDns
zero_credentials = record {
  allow_from = [];
  fulldomain = "";
  password = "";
  subdomain = "";
  username = "";
}

abbrev pub credentials_or_zero : Option AcmeDns → AcmeDns
credentials_or_zero none = zero_credentials
credentials_or_zero (some credentials) = credentials

-- The two names of a binding.
abbrev pub dns_name : String → String → String
dns_name binding_name uri = str_append "vmi." (str_append binding_name (str_append "." uri))

abbrev pub wildcard_name : String → String → String
wildcard_name binding_name uri = str_append "*.vmi." (str_append binding_name (str_append "." uri))

-- `if !found { dnsCredentials[name] = dnsCred }`
unfoldable pub add_missing : String → AcmeDns → Map AcmeDns → Map AcmeDns
unfolding lookup insert
add_missing name credentials m = if is_some (lookup name m) then m else insert name credentials m

-- The map after both checks.
unfoldable pub add_names : String → String → Map AcmeDns → Map AcmeDns
unfolding lookup add_missing
add_names binding_name uri m =
    let credentials = credentials_or_zero (lookup uri m) in
    add_missing (wildcard_name binding_name uri) credentials
      (add_missing (dns_name binding_name uri) credentials m)

-- The flag `updated`. The second check reads the map after the first.
unfoldable pub is_updated : String → String → Map AcmeDns → Bool
unfolding lookup add_missing
is_updated binding_name uri m =
    not (is_some (lookup (dns_name binding_name uri) m))
    || not (
        is_some (
          lookup (wildcard_name binding_name uri)
            (add_missing (dns_name binding_name uri) (credentials_or_zero (lookup uri m)) m)))

-- secret.Data[acmeDNSKey] = secretDataEnc
abbrev pub with_data : String → Secret → Secret
unfolding insert
with_data data_enc secret = record secret {
  content = insert acme_dns_secret_key data_enc secret.content;
}

-- The secret belongs to the lister's cache, and it is changed there before it is sent.
unfoldable pub store_data : Secret → String ⊎ Error → Prog (Option Error)
unfolding insert
store_data secret (inr err) = ret (some err)
store_data secret (inl data_enc) =
    ask (write_cached management secrets (with_data data_enc secret))
    >> ask (update management secrets verrazzano_namespace (with_data data_enc secret))

-- k8serrors.IsNotFound
abbrev pub is_not_found : Error → Bool
is_not_found not_found = true
is_not_found _ = false

module _ (unmarshal : String → Map AcmeDns ⊎ Error) (marshal : Map AcmeDns → String ⊎ Error)
    (binding : SyntheticBinding) (name uri : String) where
  -- The credentials were read.
  unfoldable pub update_credentials : Secret → Map AcmeDns → Prog (Option Error)
  unfolding is_updated add_names store_data
  update_credentials secret [] =
      ret (some (secret_key_empty name verrazzano_namespace acme_dns_secret_key))
  update_credentials secret (first ∷ rest) =
      if is_updated binding.name uri (first ∷ rest)
      then store_data secret (marshal (add_names binding.name uri (first ∷ rest)))
      else ret none

  abbrev pub after_unmarshal : Secret → Map AcmeDns ⊎ Error → Prog (Option Error)
  after_unmarshal secret (inr err) =
      ret (some (secret_key_invalid name verrazzano_namespace acme_dns_secret_key err))
  after_unmarshal secret (inl dns_credentials) = update_credentials secret dns_credentials

  -- The secret was found.
  unfoldable pub update_found : Secret → Prog (Option Error)
  unfolding lookup update_credentials
  update_found secret = elim (lookup acme_dns_secret_key secret.content) [
    | none ↦ ret (some (secret_key_missing name verrazzano_namespace acme_dns_secret_key))
    | some acme_dns_data ↦ after_unmarshal secret (unmarshal acme_dns_data)
  ]

  -- A nil secret without an error is a nil pointer.
  abbrev pub after_get : Answer Secret → Prog (Option Error)
  after_get (secret, some err) =
      if is_not_found err
      then ret none
      else ret (some (secret_unreadable name verrazzano_namespace err))
  after_get (none, none) = panic
  after_get (some secret, none) = update_found secret

  unfoldable pub update_acme_dns_secret : Prog (Option Error)
  unfolding update_found
  update_acme_dns_secret =
      ask (cached_get management secrets verrazzano_namespace name) >>= after_get
