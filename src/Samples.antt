-- ===== src/Samples.antt =====
-- A binding on two clusters out of three, its pair, a controller that knows them, and witnesses.
pub mod Clusters
pub mod Calls
pub mod Handlers
pub mod Sources
pub mod Unused
pub mod Startup
pub mod Settings
pub mod Local
use verrazzano_operator.Prelude.{String, none, some, List, [], ◌∷◌}
use verrazzano_operator.Prelude.Maps.{Map}
use verrazzano_operator.Kube.{Connection}
use verrazzano_operator.Types.{
  ManagedCluster, SyntheticBinding, SyntheticModel, SyntheticModelBinding,
}
use verrazzano_operator.Location.{new_managed_cluster}

abbrev pub bob_binding : SyntheticBinding
bob_binding = record {
  name = "bob";
  namespace = "default";
  resource_version = "7";
  deletion_timestamp = none;
  finalizers = "vb.verrazzano.io" ∷ [];
  spec = record {
    description = "";
    model_name = "books";
    placement =
        record { name = "east"; namespaces = [] } ∷ record { name = "west"; namespaces = [] } ∷ [];
  };
}

abbrev pub books_model : SyntheticModel
books_model = record { name = "books"; resource_version = "3" }

abbrev pub bob_cluster : String → ManagedCluster
bob_cluster name = record (new_managed_cluster name) {
  namespaces = "verrazzano-system" ∷ "bob" ∷ [];
}

abbrev pub bob_clusters : Map ManagedCluster
bob_clusters = ("east", bob_cluster "east") ∷ ("west", bob_cluster "west") ∷ []

abbrev pub bob_pair : SyntheticModelBinding
bob_pair = record {
  syn_binding = bob_binding;
  syn_model = books_model;
  managed_clusters = bob_clusters;
  verrazzano_uri = "v8o.example.com";
  image_pull_secrets = [];
}

abbrev pub east_conn : Connection
east_conn = record { id = 1 }

abbrev pub west_conn : Connection
west_conn = record { id = 2 }

abbrev pub north_conn : Connection
north_conn = record { id = 3 }

abbrev pub bob_conns : Map Connection
bob_conns = ("east", east_conn) ∷ ("west", west_conn) ∷ []

abbrev pub all_conns : Map Connection
all_conns = ("north", north_conn) ∷ bob_conns
