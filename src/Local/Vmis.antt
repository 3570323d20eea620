-- ===== src/Local/Vmis.antt =====
-- pkg/local/vmis.go, CreateUpdateVmi and DeleteVmi.
pub mod Updates
use verrazzano_operator.Prelude.{
  String, Bool, true, false, Option, none, some, List, [], ◌∷◌, ◌==◌, if◌then◌else◌, not, ◌&&◌, ℕ,
}
use verrazzano_operator.Prelude.Integers.{ℤ}
use Prim.Native.String.{◌++◌ as str_append}
use verrazzano_operator.Constants.{verrazzano_namespace, vmi_secret_name}
use verrazzano_operator.Kube.{
  Error, Answer, empty_uri, management, instances, cached_get, create, update, delete, diff,
  get_env, Storage, Grafana, Prometheus, ElasticsearchNode, Elasticsearch, Kibana, InstanceSpec,
  Instance,
}
use verrazzano_operator.Prog.{Prog, ret, panic, ask, ◌>>=◌, for_each_listed}
use verrazzano_operator.Types.{SyntheticBinding}
use verrazzano_operator.Environment.{
  parse_bool, shared_vmi_default, get_profile_binding_name, get_boolean, prom_enabled, es_enabled,
  grafana_enabled, kibana_enabled,
}
use verrazzano_operator.Environment.Replicas.{
  get_elasticsearch_master_node_replicas, get_elasticsearch_data_node_replicas,
  get_elasticsearch_ingest_node_replicas,
}
use verrazzano_operator.Util.{
  get_local_binding_labels, get_vmi_name_for_binding, get_vmi_uri, is_system_profile_binding_name,
}
use verrazzano_operator.Monitoring.Components.{named_meta}
use verrazzano_operator.Local.Secrets.{binding_selector}
use verrazzano_operator.Local.Instances.{create_instance}

abbrev pub with_pvc_names : Storage → Storage → Storage
with_pvc_names existing new = record new { pvc_names = existing.pvc_names }

-- The volume claims of the instance that exists.
unfoldable pub keep_pvc_names : Instance → Instance → Instance
keep_pvc_names existing new =
    let spec = new.spec in
    let old = existing.spec in
    record new {
      spec = record spec {
        grafana = record spec.grafana {
          storage = with_pvc_names old.grafana.storage spec.grafana.storage;
        };
        prometheus = record spec.prometheus {
          storage = with_pvc_names old.prometheus.storage spec.prometheus.storage;
        };
        elasticsearch = record spec.elasticsearch {
          storage = with_pvc_names old.elasticsearch.storage spec.elasticsearch.storage;
        };
      };
    }

-- newVmi.ResourceVersion = existingVmi.ResourceVersion
abbrev pub keep_resource_version : Instance → Instance → Instance
keep_resource_version existing new = record new {
  metadata = record new.metadata { resource_version = existing.metadata.resource_version };
}

abbrev pub update_if_changed : Instance → Instance → Option Error → String → Prog (Option Error)
update_if_changed existing new err spec_diffs =
    if spec_diffs == ""
    then ret err
    else ask
        (update management instances new.metadata.namespace (keep_resource_version existing new))

abbrev pub reconcile_instance : Instance → Answer Instance → Prog (Option Error)
unfolding keep_pvc_names
reconcile_instance new (none, err) = ask (create management instances new.metadata.namespace new)
reconcile_instance new (some existing, err) =
    ask (diff instances existing (keep_pvc_names existing new))
    >>= update_if_changed existing (keep_pvc_names existing new) err

-- The rest of CreateUpdateVmi, after createInstance. A nil instance without an error is a nil
-- pointer.
abbrev pub after_create_instance : Answer Instance → Prog (Option Error)
unfolding keep_pvc_names
after_create_instance (none, none) = panic
after_create_instance (none, some err) = ret (some err)
after_create_instance (some new, some err) = ret (some err)
after_create_instance (some new, none) =
    ask (cached_get management instances new.metadata.namespace new.metadata.name)
    >>= reconcile_instance new

unfoldable pub create_update_vmi : SyntheticBinding → String → String → Prog (Option Error)
unfolding shared_vmi_default is_system_profile_binding_name create_instance keep_pvc_names
create_update_vmi binding verrazzano_uri enable_monitoring_storage = do
  shared ← shared_vmi_default
  if shared && not (is_system_profile_binding_name binding.name)
      then ret none
      else create_instance binding verrazzano_uri enable_monitoring_storage
        >>= after_create_instance

unfoldable pub delete_vmi : SyntheticBinding → Prog (Option Error)
unfolding for_each_listed
delete_vmi binding =
    for_each_listed management instances "" (binding_selector binding)
      λ o. ask (delete management instances o.metadata.namespace o.metadata.name)
