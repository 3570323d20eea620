-- ===== src/Managed/Namespaces/Creates.antt =====
-- What CreateNamespaces leaves behind, and the labels of a new namespace.
use verrazzano_operator.Prelude.{
  ◌≡◌, ◌≢◌, String, none, some, Option, List, [], ◌∷◌, inl, inr, refl, ◌⊎◌, ◌==◌, arith, eq_iff,
  if◌then◌else◌,
}
use verrazzano_operator.Prelude.Slices.{In, All, All-In, All-map}
use verrazzano_operator.Prelude.Maps.{Map, lookup, insert}
use verrazzano_operator.Constants.{verrazzano_binding, verrazzano_system, istio_injection, enabled}
use verrazzano_operator.Kube.{
  History, Request, Error, Answer, event, Connection, Client, managed, Namespace, namespaces,
  Selector, cached_get, create,
}
use verrazzano_operator.Prog.Rules.{
  Runs, calls, returns, Ensures, OnSuccess, Lasts, Runs-bind, Runs-mono, Runs-for_each,
  Runs-must_lookup,
}
use verrazzano_operator.Types.{ManagedCluster, SyntheticBinding, SyntheticModelBinding}
use verrazzano_operator.Util.{get_managed_binding_labels, get_managed_labels_no_binding}
use verrazzano_operator.Util.Clusters.{Covers}
use verrazzano_operator.Managed.Shared.{bound_selector}
use verrazzano_operator.Managed.Namespaces.{
  new_namespace_labels, new_namespace, new_namespaces, create_if_absent, create_namespace,
  create_namespaces, ask, ◌>>=◌,
}

-- The lister found the namespace, or its creation was accepted.
abbrev pub Present : Connection → Namespace → History → Type 0
Present conn o h =
    ((found : Namespace) × In
        (event (cached_get (managed conn) namespaces "" o.metadata.name) (some found, none)) h)
    ⊎ In (event (create (managed conn) namespaces "" o) none) h

Present-lasts : (conn : Connection) (o : Namespace) → Lasts (Present conn o)
Present-lasts conn o e h (inl (f, m)) = inl (f, inr m)
Present-lasts conn o e h (inr m) = inr (inr m)

-- The namespace has the given name, the cluster's label, and, unless it is the Verrazzano system
-- namespace, the binding's.
abbrev pub IsLabelled : SyntheticBinding → String → String → Namespace → Type 0
IsLabelled b cluster n o =
    (o.metadata.name ≡ n)
    × (lookup "verrazzano.cluster" o.metadata.labels ≡ some cluster)
    × (lookup "verrazzano.binding" o.metadata.labels
        ≡ (if "verrazzano-system" == n then none else some b.name))

new_namespace-IsLabelled :
    (b : SyntheticBinding) (cluster n : String) → IsLabelled b cluster n (new_namespace b cluster n)
unfolding new_namespace new_namespace_labels lookup get_managed_binding_labels
    get_managed_labels_no_binding insert
new_namespace-IsLabelled b cluster n = ground (arith, eq_iff "verrazzano-system" n)

-- Namespaces are looked up, and created only after the lister did not find them, through a client
-- that `P` allows for the cluster and the name.
abbrev pub CreatesAbsent :
    (Client → String → String → Type 0) → SyntheticBinding → History → Request → Type 0
CreatesAbsent P b h (cached_get c namespaces ns n) = (cluster : String) × P c cluster n × (ns ≡ "")
CreatesAbsent P b h (create c namespaces ns o) =
    (ns ≡ "")
    × (cluster : String) × (n : String) × (err : Option Error) × P c cluster n
    × IsLabelled b cluster n o
    × In (event (cached_get c namespaces "" n) (none, err)) h
CreatesAbsent P b h _ = ⊥

module _ {P : Client → String → String → Type 0} (b : SyntheticBinding) (conn : Connection)
    (cluster n : String) (p : P (managed conn) cluster n) where
  Runs-create_if_absent :
      (answer : Answer Namespace) (h : History)
      → In (event (cached_get (managed conn) namespaces "" n) answer) h
      → Runs
          (CreatesAbsent P b)
          (OnSuccess (Present conn (new_namespace b cluster n)))
          ⊥
          h
          (create_if_absent conn (new_namespace b cluster n) answer)
  unfolding create_if_absent new_namespace
  Runs-create_if_absent (some found, none) h m = returns h none (λ _. inl (found, m))
  Runs-create_if_absent (some found, some e) h m = returns h _ (λ p. cc)
  Runs-create_if_absent (none, err) h m =
      calls h _ _ (refl, cluster, n, err, p, new_namespace-IsLabelled b cluster n, m)
        λ e. returns _ e (λ q. rw q (inr (inl refl)))

-- The client is that of the connection of the cluster, which is one of the pair's, and the name is
-- one of its namespaces.
abbrev pub IsPlaced : Map ManagedCluster → Map Connection → Client → String → String → Type 0
IsPlaced clusters conns c cluster n =
    (kv : String × ManagedCluster) × (conn : Connection) × In kv clusters
    × (lookup kv.0 conns ≡ some conn)
    × (c ≡ managed conn)
    × (cluster ≡ kv.1.name)
    × In n kv.1.namespaces

-- For each of the cluster's namespaces, one with its name and labels is present.
abbrev pub ClusterPrepared :
    SyntheticBinding → Map Connection → History → String × ManagedCluster → Type 0
ClusterPrepared b conns h kv =
    (conn : Connection) × (lookup kv.0 conns ≡ some conn)
    × All (λ n. (o : Namespace) × IsLabelled b kv.1.name n o × Present conn o h) kv.1.namespaces

All-new_namespaces :
    (P : Namespace → Type 0) (b : SyntheticBinding) (cluster : String) (ns : List String)
    → All P (new_namespaces b cluster ns)
    → All (λ n. (o : Namespace) × IsLabelled b cluster n o × P o) ns
unfolding new_namespaces
All-new_namespaces P b cluster [] a = tt
All-new_namespaces P b cluster (n ∷ ns) a = (
  (new_namespace b cluster n, new_namespace-IsLabelled b cluster n, a.0),
  All-new_namespaces P b cluster ns a.1,
)

In-new_namespaces :
    (P : Namespace → Type 0) (b : SyntheticBinding) (cluster : String) (ns : List String)
    (o : Namespace)
    → In o (new_namespaces b cluster ns)
    → ((n : String) → In n ns → P (new_namespace b cluster n))
    → P o
unfolding new_namespaces
In-new_namespaces P b cluster [] o m p = elim m [ ]
In-new_namespaces P b cluster (n ∷ ns) o (inl e) p = rw e (p n (inl refl))
In-new_namespaces P b cluster (n ∷ ns) o (inr m) p =
    In-new_namespaces P b cluster ns o m (λ k i. p k (inr i))

Runs-create_namespace :
    {P : Client → String → String → Type 0} (b : SyntheticBinding) (conn : Connection)
    (cluster : String) (ns : List String)
    → ((n : String) → In n ns → P (managed conn) cluster n)
    → (h : History)
    → Runs
        (CreatesAbsent P b)
        (OnSuccess (λ h'. All (λ o. Present conn o h') (new_namespaces b cluster ns)))
        ⊥
        h
        (create_namespace conn (new_namespaces b cluster ns))
unfolding create_namespace
Runs-create_namespace {P} b conn cluster ns p h =
    Runs-for_each (λ _. Unit {0}) (Present conn) (λ _ _ _. tt) (Present-lasts conn) _
      (new_namespaces b cluster ns)
      (λ o m h' _.
        In-new_namespaces
          (λ o'. Runs (CreatesAbsent P b) (OnSuccess (Present conn o')) ⊥ h' (
            ask (cached_get (managed conn) namespaces "" o'.metadata.name)
            >>= create_if_absent conn o'))
          b cluster ns o m
          (λ n i.
            unfold new_namespace in
            calls h' (cached_get (managed conn) namespaces "" n) _ (cluster, p n i, refl)
              λ answer. Runs-create_if_absent {P = P} b conn cluster n (p n i) answer _ (inl refl)))
      h tt

-- CreateNamespaces, given a connection for each cluster of the pair, does not panic. It looks up and
-- creates only the namespaces that the pair places in a cluster, through that cluster's connection.
-- It creates one only where the lister did not find it, with the cluster's label and with the
-- binding's, which the Verrazzano system namespace alone does not get. Where it returns no error,
-- every such namespace of every cluster was found or created.
pub create_namespaces_lem :
    (mb : SyntheticModelBinding) (conns : Map Connection)
    → Covers mb.managed_clusters conns
    → Ensures
        (CreatesAbsent (IsPlaced mb.managed_clusters conns) mb.syn_binding)
        (OnSuccess (λ h. All (ClusterPrepared mb.syn_binding conns h) mb.managed_clusters))
        (create_namespaces mb conns)
unfolding create_namespaces
create_namespaces_lem mb conns covers h =
    Runs-for_each (λ _. Unit {0}) (λ kv h'. ClusterPrepared mb.syn_binding conns h' kv)
      (λ _ _ _. tt)
      (λ kv e h' (c, l, a).
        (c, l, All-map kv.1.namespaces (λ n (o, x, d). (o, x, Present-lasts c o e h' d)) a))
      _ mb.managed_clusters
      (λ kv m h' _. Runs-bind _ _ h' (
        Runs-must_lookup kv.0 conns h'
          (λ missing.
            let (c, e) =
              All-In (λ x. (c : Connection) × (lookup x.0 conns ≡ some c)) kv mb.managed_clusters
                covers m in
            ground arith)
          (λ conn found.
            Runs-mono _ h'
              (λ h'' err q p.
                (conn, found, All-new_namespaces _ mb.syn_binding kv.1.name kv.1.namespaces (q p)))
              (Runs-create_namespace {P = IsPlaced mb.managed_clusters conns} mb.syn_binding conn
                kv.1.name kv.1.namespaces (λ n i. (kv, conn, m, found, refl, refl, i)) h'))))
      h tt

-- What labels.SelectorFromSet selects: the labels have each pair of the selector.
abbrev pub Matches : Selector → Map String → Type 0
Matches s labels = All (λ kv. lookup kv.0 labels ≡ some kv.1) s

-- A new namespace other than the Verrazzano system namespace is selected by its binding and
-- cluster, which is how the clean-up finds it. The system namespace has no binding label. Every
-- other namespace has Istio injection enabled, the monitoring namespace among them.
pub new_namespace_labels_lem :
    (mb : SyntheticModelBinding) (cluster n : String)
    → let labels = new_namespace_labels mb.syn_binding cluster n in
      (n ≢ verrazzano_system → Matches (bound_selector mb cluster) labels)
      × (lookup verrazzano_binding labels
          ≡ (if verrazzano_system == n then none else some mb.syn_binding.name))
      × (lookup istio_injection labels ≡ (if verrazzano_system == n then none else some enabled))
unfolding new_namespace_labels bound_selector lookup get_managed_binding_labels insert
new_namespace_labels_lem mb cluster n = ground (arith, eq_iff verrazzano_system n)
