-- ===== src/Constants.antt =====
-- pkg/constants/constants.go: the names and labels that the other parts use.
use verrazzano_operator.Prelude.{String, List, [], ◌∷◌}
use Prim.Native.String.{◌++◌ as str_append}

abbrev pub verrazzano_group : String
verrazzano_group = "verrazzano.io"

abbrev pub default_namespace : String
default_namespace = "default"

abbrev pub service_app_label : String
service_app_label = "app"

abbrev pub k8s_app_label : String
k8s_app_label = "k8s-app"

abbrev pub verrazzano_binding : String
verrazzano_binding = "verrazzano.binding"

abbrev pub verrazzano_cluster : String
verrazzano_cluster = "verrazzano.cluster"

abbrev pub verrazzano_prefix : String
verrazzano_prefix = "verrazzano"

abbrev pub verrazzano_system : String
verrazzano_system = "verrazzano-system"

abbrev pub verrazzano_system_admin : String
verrazzano_system_admin = str_append verrazzano_system "-admin"

abbrev pub verrazzano_namespace : String
verrazzano_namespace = verrazzano_system

abbrev pub verrazzano_operator_service_account : String
verrazzano_operator_service_account = "verrazzano-operator"

abbrev pub istio_injection : String
istio_injection = "istio-injection"

abbrev pub enabled : String
enabled = "enabled"

abbrev pub default_dashboards : List String
default_dashboards =
    "dashboards/vmi_dashboard_provider.yml" ∷ "dashboards/weblogic/weblogic_dashboard.json"
    ∷ "dashboards/coherence/elastic-data-summary-dashboard.json"
    ∷ "dashboards/coherence/persistence-summary-dashboard.json"
    ∷ "dashboards/coherence/cache-details-dashboard.json"
    ∷ "dashboards/coherence/members-summary-dashboard.json"
    ∷ "dashboards/coherence/kubernetes-summary-dashboard.json"
    ∷ "dashboards/coherence/coherence-dashboard-main.json"
    ∷ "dashboards/coherence/caches-summary-dashboard.json"
    ∷ "dashboards/coherence/service-details-dashboard.json"
    ∷ "dashboards/coherence/proxy-servers-summary-dashboard.json"
    ∷ "dashboards/coherence/federation-details-dashboard.json"
    ∷ "dashboards/coherence/federation-summary-dashboard.json"
    ∷ "dashboards/coherence/services-summary-dashboard.json"
    ∷ "dashboards/coherence/http-servers-summary-dashboard.json"
    ∷ "dashboards/coherence/proxy-server-detail-dashboard.json"
    ∷ "dashboards/coherence/alerts-dashboard.json"
    ∷ "dashboards/coherence/member-details-dashboard.json"
    ∷ "dashboards/coherence/machines-summary-dashboard.json"
    ∷ "dashboards/helidon/helidon_dashboard.json" ∷ []

abbrev pub system_dashboards : List String
system_dashboards =
    "dashboards/vmi_dashboard_provider.yml" ∷ "dashboards/system/system_dashboard.json" ∷ []

abbrev pub vmi_system_binding_name : String
vmi_system_binding_name = "system"

abbrev pub vmi_username : String
vmi_username = "verrazzano"

abbrev pub vmi_secret_name : String
vmi_secret_name = "verrazzano"

abbrev pub acme_dns_secret : String
acme_dns_secret = "verrazzano-cert-manager-acme-dns"

abbrev pub acme_dns_secret_key : String
acme_dns_secret_key = "acmedns.json"

abbrev pub node_exporter_name : String
node_exporter_name = "node-exporter"

abbrev pub monitoring_namespace : String
monitoring_namespace = "monitoring"
