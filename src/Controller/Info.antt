-- ===== src/Controller/Info.antt =====
-- pkg/controller/controller.go: the calls of getClusterInfo, and the pair that
-- processManagedCluster makes.
use verrazzano_operator.Prelude.{
  ℕ, zero, suc, eq_refl, String, ◌≡◌, refl, ◌⊎◌, inl, inr, none, some, Option, List, [], ◌∷◌, ap,
}
use verrazzano_operator.Prelude.Maps.{Map, lookup, insert, lookup-insert}
use verrazzano_operator.Constants.{verrazzano_namespace}
use verrazzano_operator.Kube.{
  Error, Answer, Client, Connection, History, Request, managed, management, secrets, Secret,
  NodeList, cached_get, list_nodes,
}
use verrazzano_operator.Prog.{Prog, ret, panic}
use verrazzano_operator.Prog.Rules.{Runs, returns, panics, calls, Runs-bind, Runs-mono}
use verrazzano_operator.Types.{ManagedCluster}
use verrazzano_operator.Location.{create_synthetic_model_binding}
use verrazzano_operator.Util.{
  filter_clusters, filtered, get_managed_clusters_for_verrazzano_binding,
}
use verrazzano_operator.Util.Clusters.{Reaches, IsWellKeyed}
use verrazzano_operator.Controller.{Controller}
use verrazzano_operator.Controller.Resources.{
  get_cluster_info, get_container_runtime, first_runtime, registered_info, mc_registration_secret,
}
use verrazzano_operator.Controller.Handlers.{system_pair}
use verrazzano_operator.Controller.Steps.{Allowed}

-- The reads of getClusterInfo.
abbrev pub ReadsInfo : History → Request → Type 0
ReadsInfo h r =
    (r ≡ list_nodes)
    ⊎ (r ≡ cached_get management secrets verrazzano_namespace mc_registration_secret)

Allowed-first_runtime :
    (G : History → Request → Type 0) (nodes : NodeList) (err : Option Error)
    → Allowed G (Unit {0}) (first_runtime nodes err)
Allowed-first_runtime G nodes err h = split nodes.size err nodes.runtimes
  where
    split :
        (size : ℕ) (err' : Option Error) (runtimes : List String)
        → Runs {A = String} G
            (λ _ _. Unit {0})
            (Unit {0})
            h
            (elim size [
              | zero ↦ ret "unknown"
              | suc k ↦ elim err' as (λ _. Prog String) [
                | some e ↦ ret "unknown"
                | none ↦ elim runtimes as (λ _. Prog String) [
                  | [] ↦ panic
                  | runtime ∷ rest ↦ ret runtime
                ]
              ]
            ])
    split zero err' runtimes = returns h _ tt
    split (suc k) (some e) runtimes = returns h _ tt
    split (suc k) none [] = panics h tt
    split (suc k) none (runtime ∷ rest) = returns h _ tt

Allowed-registered_info :
    (G : History → Request → Type 0) (runtime : String) (answer : Answer Secret)
    → Allowed G (Unit {0}) (registered_info runtime answer)
Allowed-registered_info G runtime (found, some e) h = returns h _ tt
Allowed-registered_info G runtime (none, none) h = panics h tt
Allowed-registered_info G runtime (some secret, none) h = returns h _ tt

pub Allowed-get_cluster_info : Allowed ReadsInfo (Unit {0}) get_cluster_info
unfolding get_cluster_info get_container_runtime
Allowed-get_cluster_info h = calls h _ _ (inl refl) λ answer.
    Runs-bind (first_runtime answer.0 answer.1) _ _ (
      Runs-mono _ _
        (λ h' runtime u.
          calls h' _ _ (inr refl) λ secret. Allowed-registered_info ReadsInfo runtime secret _)
        (Allowed-first_runtime ReadsInfo answer.0 answer.1 _))

module _ (n : String) (conn : Connection) (c : Controller) (conns : Map Connection) where
  lookup-put_self : lookup n (insert n conn conns) ≡ some conn
  lookup-put_self = simp (lookup-insert, eq_refl)

  pub system_pair-IsWellKeyed : IsWellKeyed (system_pair n c).managed_clusters
  unfolding system_pair create_synthetic_model_binding insert
  system_pair-IsWellKeyed = ((refl, tt), (tt, tt))

  pub system_pair-filtered :
      get_managed_clusters_for_verrazzano_binding (system_pair n c) (insert n conn conns)
      ≡ filtered ((n, conn) ∷ [])
  unfolding system_pair create_synthetic_model_binding insert
      get_managed_clusters_for_verrazzano_binding
  system_pair-filtered =
      rw (lookup-put_self, get_managed_clusters_for_verrazzano_binding, filter_clusters) refl

  pub system_pair-Reaches :
      (client : Client)
      → Reaches (system_pair n c).managed_clusters (insert n conn conns) client
      → client ≡ managed conn
  unfolding system_pair create_synthetic_model_binding insert
  system_pair-Reaches client (kv, conn', inl e, found, is) =
      let key : kv.0 ≡ n = ap (λ (x : String × ManagedCluster). x.0) e in
      cc (lookup-put_self, key, found, is)
  system_pair-Reaches client (kv, conn', inr none_left, found, is) = elim none_left [ ]
