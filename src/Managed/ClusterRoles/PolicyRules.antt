-- ===== src/Managed/ClusterRoles/PolicyRules.antt =====
-- pkg/managed/clusterroles.go, policyRules: what the operator's role may do in a managed cluster.
use verrazzano_operator.Prelude.{List, [], ◌∷◌}
use verrazzano_operator.Kube.{PolicyRule}

abbrev pub policy_rules : List PolicyRule
policy_rules =
    record {
      api_groups = "" ∷ [];
      resources = "pods/log" ∷ "serviceaccounts" ∷ "pods/portforward" ∷ "nodes" ∷ [];
      verbs =
          "get" ∷ "list" ∷ "watch" ∷ "create" ∷ "update" ∷ "delete" ∷ "deletecollection" ∷ "patch"
          ∷ [];
      resource_names = [];
      non_resource_urls = [];
    }
    ∷ record {
      api_groups = "" ∷ [];
      resources =
          "pods" ∷ "pods/exec" ∷ "configmaps" ∷ "endpoints" ∷ "events" ∷ "namespaces"
          ∷ "persistentvolumeclaims" ∷ "secrets" ∷ "services" ∷ [];
      verbs = "*" ∷ [];
      resource_names = [];
      non_resource_urls = [];
    }
    ∷ record {
      api_groups = [];
      resources = [];
      verbs = "get" ∷ [];
      resource_names = [];
      non_resource_urls = "/version/*" ∷ [];
    }
    ∷ record {
      api_groups = "apps" ∷ [];
      resources = "deployments" ∷ "daemonsets" ∷ "replicasets" ∷ "statefulsets" ∷ [];
      verbs = "*" ∷ [];
      resource_names = [];
      non_resource_urls = [];
    }
    ∷ record {
      api_groups = "apps" ∷ [];
      resources = "deployments/finalizers" ∷ [];
      verbs = "update" ∷ [];
      resource_names = [];
      non_resource_urls = [];
    }
    ∷ record {
      api_groups = "extensions" ∷ [];
      resources = "daemonsets" ∷ "replicasets" ∷ "statefulsets" ∷ "podsecuritypolicies" ∷ [];
      verbs = "get" ∷ "list" ∷ "watch" ∷ "create" ∷ "update" ∷ "delete" ∷ [];
      resource_names = [];
      non_resource_urls = [];
    }
    ∷ record {
      api_groups = "policy" ∷ [];
      resources = "podsecuritypolicies" ∷ [];
      verbs = "get" ∷ [];
      resource_names = [];
      non_resource_urls = [];
    }
    ∷ record {
      api_groups = "batch" ∷ [];
      resources = "jobs" ∷ [];
      verbs =
          "get" ∷ "list" ∷ "watch" ∷ "create" ∷ "update" ∷ "delete" ∷ "patch" ∷ "deletecollection"
          ∷ [];
      resource_names = [];
      non_resource_urls = [];
    }
    ∷ record {
      api_groups = "authentication.k8s.io" ∷ [];
      resources = "tokenreviews" ∷ [];
      verbs = "create" ∷ [];
      resource_names = [];
      non_resource_urls = [];
    }
    ∷ record {
      api_groups = "authorization.k8s.io" ∷ [];
      resources = "subjectaccessreviews" ∷ [];
      verbs = "create" ∷ [];
      resource_names = [];
      non_resource_urls = [];
    }
    ∷ record {
      api_groups = "apiextensions.k8s.io" ∷ [];
      resources = "customresourcedefinitions" ∷ [];
      verbs = "*" ∷ [];
      resource_names = [];
      non_resource_urls = [];
    }
    ∷ record {
      api_groups = "monitoring.coreos.com" ∷ [];
      resources = "servicemonitors" ∷ [];
      verbs = "get" ∷ "create" ∷ [];
      resource_names = [];
      non_resource_urls = [];
    }
    ∷ record {
      api_groups = "verrazzano.io" ∷ [];
      resources = "*" ∷ [];
      verbs = "get" ∷ "list" ∷ "watch" ∷ "create" ∷ "update" ∷ "delete" ∷ [];
      resource_names = [];
      non_resource_urls = [];
    }
    ∷ record {
      api_groups = "rbac.authorization.k8s.io" ∷ [];
      resources = "clusterroles" ∷ "roles" ∷ [];
      verbs = "get" ∷ "list" ∷ "watch" ∷ "create" ∷ "update" ∷ "delete" ∷ [];
      resource_names = [];
      non_resource_urls = [];
    }
    ∷ record {
      api_groups = "rbac.authorization.k8s.io" ∷ [];
      resources = "clusterrolebindings" ∷ "rolebindings" ∷ [];
      verbs = "get" ∷ "list" ∷ "watch" ∷ "create" ∷ "update" ∷ "delete" ∷ "patch" ∷ [];
      resource_names = [];
      non_resource_urls = [];
    }
    ∷ []
