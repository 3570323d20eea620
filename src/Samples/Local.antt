-- ===== src/Samples/Local.antt =====
-- The properties of the environment, of pkg/local and of pkg/monitoring at sample inputs.
use verrazzano_operator.Prelude.{
  ◌↔◌, or_else, ◌||◌, if◌then◌else◌, Bool-cases, and_split, String, ◌≡◌, refl, Bool, true, false,
  ◌&&◌, ◌==◌, eq_iff, ◌⊎◌, inl, inr, some, none, List, [], ◌∷◌, arith, ◌≢◌,
}
use verrazzano_operator.Prelude.Slices.{All, In}
use verrazzano_operator.Prelude.Maps.{Map, lookup, insert}
use verrazzano_operator.Prelude.Integers.{pos, negsuc, codes}
use verrazzano_operator.Constants.{verrazzano_namespace, vmi_system_binding_name}
use verrazzano_operator.Kube.{
  Error, api, event, get_env, secrets, management, config_maps, cached_get, Answer, Secret,
}
use verrazzano_operator.Prog.Rules.{Runs, OnSuccess}
use verrazzano_operator.Prog.Listed.{ListedAll}
use verrazzano_operator.Types.{SyntheticModelBinding}
use verrazzano_operator.Environment.Replicas.{replica_count, get_env_replica_count}
use verrazzano_operator.Environment.Replicas.Counts.{Counts, get_env_replica_count_lem}
use verrazzano_operator.Environment.Replicas.RoundTrip.{decimal, replica_count-decimal}
use verrazzano_operator.Managed.DaemonSets.{create_daemon_sets}
use verrazzano_operator.Managed.DaemonSets.Creates.{
  WritesNodeExporters, NodeExporterSettled, create_daemon_sets_lem,
}
use verrazzano_operator.Managed.Shared.Deleting.{SparedOrDeleted}
use verrazzano_operator.Monitoring.VmiSecrets.{new_vmi_secret}
use verrazzano_operator.Monitoring.VmiSecrets.Passwords.{Draws, IsFresh, new_vmi_secret_lem}
use verrazzano_operator.Managed.Shared.Deleting.{label_of}
use verrazzano_operator.Local.Vmis.{create_update_vmi}
use verrazzano_operator.Local.Vmis.Updates.{
  WritesOwn, UsesShared, InstanceSettled, create_update_vmi_lem,
}
use verrazzano_operator.Local.ConfigMaps.{add_dashboards, dashboards_for, update_config_maps}
use verrazzano_operator.Local.ConfigMaps.Updates.{
  WritesDashboards, DashboardsSettled, spares, update_config_maps_lem,
}
use verrazzano_operator.Local.AcmeDns.{
  AcmeDns, after_get, update_acme_dns_secret, add_names, add_missing, is_updated, dns_name,
  wildcard_name, credentials_or_zero,
}
use verrazzano_operator.Local.AcmeDns.Entries.{add_names_lem}
use verrazzano_operator.Local.AcmeDns.Retries.{
  RoundTrips, WritesOnce, NamesSettled, update_acme_dns_secret_lem,
}
use verrazzano_operator.Samples.{bob_binding, bob_pair, bob_conns}
use verrazzano_operator.Samples.Clusters.{bob-Covers}

get_env_replica_count_lem_example :
    Runs
      (λ h r. r ≡ get_env "ES_DATA_NODE_REPLICAS")
      (λ h count.
        (value : String) × In (event (get_env "ES_DATA_NODE_REPLICAS") value) h
        × Counts (pos 2) value count)
      ⊥
      []
      (get_env_replica_count "ES_DATA_NODE_REPLICAS" (pos 2))
get_env_replica_count_lem_example =
    get_env_replica_count_lem "ES_DATA_NODE_REPLICAS" (pos 2) (omega arith) []

twelve-decimal : codes "-12" ≡ decimal (negsuc 11)
unfolding decimal
twelve-decimal = refl

replica_count-decimal_example : replica_count (pos 2) "-12" ≡ negsuc 11
replica_count-decimal_example =
    replica_count-decimal (pos 2) (negsuc 11) "-12" (omega arith) twelve-decimal

-- The pair of the system binding.
abbrev system_sample : SyntheticModelBinding
system_sample = record bob_pair { syn_binding = record bob_binding { name = "system" } }

create_daemon_sets_lem_example :
    Runs
      (WritesNodeExporters system_sample bob_conns)
      (OnSuccess (λ h.
        system_sample.syn_binding.name ≡ vmi_system_binding_name
        → All (λ kv. NodeExporterSettled bob_conns kv h) system_sample.managed_clusters))
      ⊥
      []
      (create_daemon_sets system_sample bob_conns)
create_daemon_sets_lem_example = create_daemon_sets_lem system_sample bob_conns bob-Covers []

new_vmi_secret_lem_example :
    Runs Draws (λ h o. IsFresh bob_binding o) ⊥ [] (new_vmi_secret bob_binding)
new_vmi_secret_lem_example = new_vmi_secret_lem bob_binding []

create_update_vmi_lem_example :
    Runs
      (WritesOwn bob_binding)
      (OnSuccess (λ h.
        UsesShared bob_binding h
        ⊎ (◌≢◌ {A = String} "v8o.example.com" "" × InstanceSettled bob_binding h)))
      ⊥
      []
      (create_update_vmi bob_binding "v8o.example.com" "true")
create_update_vmi_lem_example = create_update_vmi_lem bob_binding "v8o.example.com" "true" []

-- Every asset is there, and is its own name.
abbrev sample_asset : String → String ⊎ Error
sample_asset name = inl name

abbrev bob_dashboards : Map String
bob_dashboards = elim (add_dashboards sample_asset [] (dashboards_for false "bob")) [
  | inl m ↦ m
  | inr e ↦ []
]

update_config_maps_lem_example :
    Runs
      (WritesDashboards sample_asset bob_binding)
      (OnSuccess (λ h.
        ListedAll management config_maps verrazzano_namespace
          (label_of bob_binding)
          (SparedOrDeleted management config_maps (spares bob_binding))
          h
        × DashboardsSettled sample_asset bob_binding h))
      ⊥
      []
      (update_config_maps sample_asset bob_binding)
update_config_maps_lem_example = update_config_maps_lem sample_asset bob_binding []

abbrev sample_credentials : AcmeDns
sample_credentials = record {
  allow_from = [];
  fulldomain = "abc.auth.example.com";
  password = "secret";
  subdomain = "abc";
  username = "bob";
}

abbrev initial_entries : Map AcmeDns
initial_entries = ("example.com", sample_credentials) ∷ []

abbrev full_entries : Map AcmeDns
full_entries =
    ("example.com", sample_credentials)
    ∷ ("vmi.bob.example.com", sample_credentials)
    ∷ ("*.vmi.bob.example.com", sample_credentials)
    ∷ []

abbrev sample_unmarshal : String → Map AcmeDns ⊎ Error
sample_unmarshal data_enc =
    if data_enc == "three entries"
    then inl full_entries
    else if data_enc == "one entry"
    then inl initial_entries
    else inr (api "syntax error")

abbrev is_empty : List String → Bool
is_empty [] = true
is_empty (x ∷ xs) = false

abbrev is_sample : AcmeDns → Bool
is_sample c =
    is_empty c.allow_from
    && ((c.fulldomain == "abc.auth.example.com")
        && ((c.password == "secret") && ((c.subdomain == "abc") && (c.username == "bob"))))

abbrev is_full : Map AcmeDns → Bool
is_full ((k, x) ∷ (l, y) ∷ (m, z) ∷ []) =
    (k == "example.com")
    && ((l == "vmi.bob.example.com")
        && ((m == "*.vmi.bob.example.com") && (is_sample x && (is_sample y && is_sample z))))
is_full _ = false

abbrev sample_marshal : Map AcmeDns → String ⊎ Error
sample_marshal m = if is_full m then inl "three entries" else inr (api "not marshalled")

is_empty-nil : (xs : List String) → is_empty xs ≡ true → xs ≡ []
is_empty-nil [] h = refl
is_empty-nil (x ∷ xs) h = cc

is_sample-credentials : (c : AcmeDns) → is_sample c ≡ true → c ≡ sample_credentials
is_sample-credentials c h =
    let (e0, h1) = and_split (is_empty c.allow_from) _ h in
    let (e1, h2) = and_split (c.fulldomain == "abc.auth.example.com") _ h1 in
    let (e2, h3) = and_split (c.password == "secret") _ h2 in
    let (e3, e4) = and_split (c.subdomain == "abc") _ h3 in
    λ i. record {
      allow_from = is_empty-nil c.allow_from e0 i;
      fulldomain = (eq_iff c.fulldomain "abc.auth.example.com").0 e1 i;
      password = (eq_iff c.password "secret").0 e2 i;
      subdomain = (eq_iff c.subdomain "abc").0 e3 i;
      username = (eq_iff c.username "bob").0 e4 i;
    }

is_full-entries : (m : Map AcmeDns) → is_full m ≡ true → m ≡ full_entries
is_full-entries [] h = cc
is_full-entries (x ∷ []) h = cc
is_full-entries (x ∷ y ∷ []) h = cc
is_full-entries ((k, x) ∷ (l, y) ∷ (m, z) ∷ []) h =
    let (e0, h1) = and_split (k == "example.com") _ h in
    let (e1, h2) = and_split (l == "vmi.bob.example.com") _ h1 in
    let (e2, h3) = and_split (m == "*.vmi.bob.example.com") _ h2 in
    let (e3, h4) = and_split (is_sample x) _ h3 in
    let (e4, e5) = and_split (is_sample y) _ h4 in
    λ i.
      ((eq_iff k "example.com").0 e0 i, is_sample-credentials x e3 i)
      ∷ ((eq_iff l "vmi.bob.example.com").0 e1 i, is_sample-credentials y e4 i)
      ∷ ((eq_iff m "*.vmi.bob.example.com").0 e2 i, is_sample-credentials z e5 i)
      ∷ []
is_full-entries (x ∷ y ∷ z ∷ w ∷ m) h = cc

sample-RoundTrips : RoundTrips sample_unmarshal sample_marshal
sample-RoundTrips m data_enc h = elim (Bool-cases (is_full m)) [
  | inl e ↦
      let same = is_full-entries m e in
      let text : data_enc ≡ "three entries" = ground arith in
      (full_entries, rw text refl, (λ key. rw same refl))
  | inr e ↦ ground arith
]

marshals_full : sample_marshal full_entries ≡ inl "three entries"
marshals_full = refl

update_acme_dns_secret_lem_example :
    Runs
      (WritesOnce sample_unmarshal sample_marshal bob_binding "acme" "example.com")
      (OnSuccess (NamesSettled sample_unmarshal sample_marshal bob_binding "acme" "example.com"))
      (Unit {0})
      []
      (update_acme_dns_secret sample_unmarshal sample_marshal bob_binding "acme" "example.com")
    × ((answer : Answer Secret)
        → (answer ≡ (none, none) → ⊥)
        → Runs
            (WritesOnce sample_unmarshal sample_marshal bob_binding "acme" "example.com")
            (OnSuccess
              (NamesSettled sample_unmarshal sample_marshal bob_binding "acme" "example.com"))
            ⊥
            (event (cached_get management secrets verrazzano_namespace "acme") answer ∷ [])
            (after_get sample_unmarshal sample_marshal bob_binding "acme" "example.com" answer))
update_acme_dns_secret_lem_example =
    update_acme_dns_secret_lem sample_unmarshal sample_marshal bob_binding "acme" "example.com"
      sample-RoundTrips []

add_names_lem_example :
    ((read : String)
      → lookup read (add_names "bob" "example.com" initial_entries)
        ≡ or_else (lookup read initial_entries) (
            if (dns_name "bob" "example.com" == read) || (wildcard_name "bob" "example.com" == read)
            then some (credentials_or_zero (lookup "example.com" initial_entries))
            else none))
    × ((is_updated "bob" "example.com" initial_entries ≡ false) ↔ (
        (read : String)
        → lookup read (add_names "bob" "example.com" initial_entries)
          ≡ lookup read initial_entries))
add_names_lem_example = add_names_lem "bob" "example.com" initial_entries

-- The credentials of the URI are copied to both names.
adds_both : add_names "bob" "example.com" initial_entries ≡ full_entries
unfolding add_names add_missing lookup insert
adds_both = refl
