-- ===== src/Local/Instances/Built.antt =====
-- What createInstance calls and what it builds.
use verrazzano_operator.Prelude.{
  Bool, String, ◌≡◌, ◌≢◌, refl, ◌==◌, eq_iff, Bool-cases, inl, inr, none, some, arith, sym, subst,
}
use verrazzano_operator.Prelude.Integers.{ℤ, pos, IsInt32}
use verrazzano_operator.Constants.{verrazzano_namespace}
use verrazzano_operator.Kube.{
  Grafana, Prometheus, History, Request, lookup_env, get_env, Answer, Instance, ElasticsearchNode,
  Elasticsearch, Storage, empty_uri,
}
use verrazzano_operator.Prog.{ask, Prog, ret, ◌>>=◌}
use verrazzano_operator.Prog.Rules.{
  Runs, calls, returns, Ensures, Runs-bind, Runs-mono, Runs-weaken,
}
use verrazzano_operator.Types.{SyntheticBinding}
use verrazzano_operator.Environment.{
  get_profile_binding_name, get_boolean, enabled_by, shared_vmi_default,
}
use verrazzano_operator.Environment.Replicas.{
  get_env_replica_count, get_elasticsearch_master_node_replicas,
  get_elasticsearch_data_node_replicas, get_elasticsearch_ingest_node_replicas,
}
use verrazzano_operator.Environment.Replicas.Counts.{get_env_replica_count_lem}
use verrazzano_operator.Environment.Variables.{
  get_elasticsearch_data_node_request_memory, get_elasticsearch_master_node_request_memory,
}
use verrazzano_operator.Util.{get_local_binding_labels, get_vmi_name_for_binding}
use verrazzano_operator.Monitoring.Components.{named_meta}
use verrazzano_operator.Local.Instances.{
  create_grafana, create_prometheus, create_elasticsearch_node, create_elasticsearch, create_kibana,
  build_instance, create_instance, elasticsearch_of, instance_of, create_storage_option,
}

-- The call reads a variable.
abbrev pub ReadsVariable : History → Request → Type 0
ReadsVariable h (lookup_env n) = Unit
ReadsVariable h (get_env n) = Unit
ReadsVariable h _ = ⊥

-- Any result, by reads of variables alone.
abbrev OnlyReads : {A : Type 0} → (A → Type 0) → Prog A → Type 0
OnlyReads P m = Ensures ReadsVariable (λ h a. P a) m

Reads-bind :
    {A B : Type 0} (P : A → Type 0) (Q : B → Type 0) (m : Prog A) (f : A → Prog B) (h : History)
    → OnlyReads P m
    → ((a : A) → P a → OnlyReads Q (f a))
    → Runs ReadsVariable (λ h' b. Q b) ⊥ h (m >>= f)
Reads-bind P Q m f h first then = Runs-bind m f h (Runs-mono m h (λ h' a p. then a p h') (first h))

OnlyReads-replicas :
    (var : String) (n : ℤ) → IsInt32 n → OnlyReads IsInt32 (get_env_replica_count var n)
OnlyReads-replicas var n fits h =
    Runs-mono (get_env_replica_count var n) h (λ h' count (value, i, c). c.0)
      (Runs-weaken (get_env_replica_count var n) h
        (λ h' r g. subst (λ q. ReadsVariable h' q) (sym g) tt)
        (get_env_replica_count_lem var n fits h))

-- The number of replicas of the node fits into 32 bits.
abbrev NodeFits : ElasticsearchNode → Type 0
NodeFits node = IsInt32 node.replicas

OnlyReads-node :
    (count : Prog ℤ) (var : String)
    → OnlyReads IsInt32 count
    → OnlyReads NodeFits (create_elasticsearch_node count (ask (get_env var)))
unfolding create_elasticsearch_node
OnlyReads-node count var fits h =
    Reads-bind IsInt32 NodeFits count _ h fits
      (λ n p h'. calls h' (get_env var) _ tt λ memory. returns _ _ p)

-- The numbers of replicas fit into 32 bits.
abbrev pub ReplicasFit : Elasticsearch → Type 0
ReplicasFit e =
    IsInt32 e.ingest_node.replicas × IsInt32 e.master_node.replicas × IsInt32 e.data_node.replicas

-- The last parts of createInstance's Elasticsearch literal.
module _ (on : Bool) (storage : Storage) where
  abbrev with_data_node : ElasticsearchNode → ElasticsearchNode → Prog Elasticsearch
  unfolding elasticsearch_of
  with_data_node ingest master =
      create_elasticsearch_node get_elasticsearch_data_node_replicas
        get_elasticsearch_data_node_request_memory
      >>= λ data_nodes. ret (elasticsearch_of on storage ingest master data_nodes)

  abbrev with_master_node : ElasticsearchNode → Prog Elasticsearch
  unfolding elasticsearch_of
  with_master_node ingest =
      create_elasticsearch_node get_elasticsearch_master_node_replicas
        get_elasticsearch_master_node_request_memory
      >>= with_data_node ingest

  OnlyReads-with_data_node :
      (ingest master : ElasticsearchNode)
      → NodeFits ingest
      → NodeFits master
      → OnlyReads ReplicasFit (with_data_node ingest master)
  unfolding get_elasticsearch_data_node_replicas elasticsearch_of
  OnlyReads-with_data_node ingest master p q h =
      Reads-bind NodeFits ReplicasFit _ _ h
        (OnlyReads-node _ _ (OnlyReads-replicas "ES_DATA_NODE_REPLICAS" (pos 2) (omega arith)))
        λ data_nodes r h'. returns h' _ (p, q, r)

  OnlyReads-with_master_node :
      (ingest : ElasticsearchNode)
      → NodeFits ingest
      → OnlyReads ReplicasFit (with_master_node ingest)
  unfolding get_elasticsearch_master_node_replicas elasticsearch_of
  OnlyReads-with_master_node ingest p h =
      Reads-bind NodeFits ReplicasFit _ (with_data_node ingest) h
        (OnlyReads-node _ _ (OnlyReads-replicas "ES_MASTER_NODE_REPLICAS" (pos 3) (omega arith)))
        (λ master q. OnlyReads-with_data_node ingest master p q)

OnlyReads-elasticsearch : (storage : String) → OnlyReads ReplicasFit (create_elasticsearch storage)
unfolding create_elasticsearch get_boolean get_elasticsearch_ingest_node_replicas elasticsearch_of
OnlyReads-elasticsearch storage h = calls h _ _ tt λ on. calls _ _ _ tt λ size.
    Reads-bind NodeFits ReplicasFit _
      (with_master_node (enabled_by on) (create_storage_option size storage)) _
      (OnlyReads-node _ _ (OnlyReads-replicas "ES_INGEST_NODE_REPLICAS" (pos 1) (omega arith)))
      λ ingest p.
        OnlyReads-with_master_node (enabled_by on) (create_storage_option size storage) ingest p

-- The instance that is wanted for a binding: its name, namespace and labels, and counts that fit.
abbrev pub Wanted : SyntheticBinding → Instance → Type 0
Wanted b o =
    (o.metadata
      ≡ named_meta (get_vmi_name_for_binding b.name) verrazzano_namespace
          (get_local_binding_labels b))
    × ReplicasFit o.spec.elasticsearch

-- The last parts of createInstance's literal.
module _ (b : SyntheticBinding) (uri storage name : String) (grafana : Grafana) where
  abbrev with_kibana : Prometheus → Elasticsearch → Prog Instance
  unfolding instance_of
  with_kibana prometheus elasticsearch = create_kibana >>= λ kibana.
      ret (instance_of b name uri grafana prometheus elasticsearch kibana)

  abbrev with_elasticsearch : Prometheus → Prog Instance
  unfolding instance_of
  with_elasticsearch prometheus = create_elasticsearch storage >>= with_kibana prometheus

  OnlyReads-with_elasticsearch :
      (prometheus : Prometheus) → OnlyReads (Wanted b) (with_elasticsearch prometheus)
  unfolding create_kibana get_boolean instance_of
  OnlyReads-with_elasticsearch prometheus h =
      Reads-bind ReplicasFit (Wanted b) (create_elasticsearch storage) (with_kibana prometheus) h
        (OnlyReads-elasticsearch storage)
        λ e fits h'. calls h' _ _ tt λ on. calls _ _ _ tt λ memory. returns _ _ (refl, fits)

  abbrev with_prometheus : Prog Instance
  unfolding instance_of
  with_prometheus = create_prometheus storage >>= with_elasticsearch

  OnlyReads-with_prometheus : OnlyReads (Wanted b) with_prometheus
  unfolding create_prometheus get_boolean instance_of
  OnlyReads-with_prometheus h =
      calls h _ _ tt
        λ on. calls _ _ _ tt λ size. calls _ _ _ tt λ memory. OnlyReads-with_elasticsearch _ _

OnlyReads-build_instance :
    (b : SyntheticBinding) (uri storage : String)
    → OnlyReads (Wanted b) (build_instance b uri storage)
unfolding build_instance get_profile_binding_name shared_vmi_default create_grafana get_boolean
OnlyReads-build_instance b uri storage h = calls h _ _ tt λ shared. calls _ _ _ tt λ on.
    calls _ _ _ tt λ size. calls _ _ _ tt λ memory. OnlyReads-with_prometheus b uri storage _ _ _

-- The URI is empty and there is an error, or there is an instance that is wanted.
abbrev pub Created : SyntheticBinding → String → Answer Instance → Type 0
Created b uri (none, err) = (uri ≡ "") × (err ≡ some empty_uri)
Created b uri (some o, err) = (uri ≢ "") × (err ≡ none) × Wanted b o

-- createInstance reads variables and makes no other call. It refuses the empty URI, and builds an
-- instance with the binding's name and labels and with replica counts of 32 bits otherwise.
pub create_instance_lem :
    (b : SyntheticBinding) (uri storage : String)
    → Ensures ReadsVariable (λ h answer. Created b uri answer) (create_instance b uri storage)
unfolding create_instance
create_instance_lem b uri storage h = elim (Bool-cases (uri == "")) [
  | inl e ↦ rw e (returns h _ ((eq_iff uri "").0 e, refl))
  | inr e ↦ rw e (
      Reads-bind (Wanted b) (Created b uri) (build_instance b uri storage) (λ o. ret (some o, none))
        h (OnlyReads-build_instance b uri storage)
        (λ o w h'. returns h' (some o, none) ((λ p. ground (arith, eq_iff uri "")), refl, w)))
]
