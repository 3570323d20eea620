-- ===== src/Managed/Reaching.antt =====
-- pkg/managed: every Create function writes only to the clusters of the pair, and only reads
-- otherwise.
use verrazzano_operator.Prelude.{String, ◌≡◌, refl, eq_iff, none, some, Option, inl, inr, arith}
use verrazzano_operator.Prelude.Slices.{In, All-In}
use verrazzano_operator.Prelude.Maps.{Map, lookup}
use verrazzano_operator.Constants.{vmi_system_binding_name}
use verrazzano_operator.Kube.{
  History, Request, Error, event, Client, Connection, managed, management, Kind, Obj, meta,
  namespaces, secrets, cached_get, live_get, create, update, diff, get_env,
}
use verrazzano_operator.Prog.{for_each}
use verrazzano_operator.Prog.Rules.{
  returns, Ensures, Runs-mono, Runs-for_each, Runs-must_lookup, Runs-bind,
}
use verrazzano_operator.Types.{SyntheticBinding, SyntheticModelBinding}
use verrazzano_operator.Util.Clusters.{Covers, Reaches}
use verrazzano_operator.Monitoring.Components.{get_node_exporter_labels}
use verrazzano_operator.Monitoring.DaemonSets.{node_exporter_daemon_set}
use verrazzano_operator.Managed.Namespaces.Creates.{CreatesAbsent}
use verrazzano_operator.Managed.Secrets.{
  get_filtered_connections, secrets_for, create_secrets_in, create_secrets,
}
use verrazzano_operator.Managed.Secrets.Sources.{CopiesOnly}
use verrazzano_operator.Managed.Shared.Creating.{Writes}
use verrazzano_operator.Managed.DaemonSets.Creates.{WritesNodeExporters, IsNodeExporter}

-- Objects are compared and the environment is read. Listers are asked only through clients that
-- satisfy `P`, and only secrets of the management cluster are read otherwise. An object is created
-- only where the lister did not find it, and objects are created and updated only through clients
-- that satisfy `P`. Nothing else is called; nothing is deleted.
abbrev pub WritesThrough : (Client → Type 0) → History → Request → Type 0
WritesThrough P h (cached_get c k ns n) = P c
WritesThrough P h (live_get c k ns n) = (c ≡ management) × (k ≡ secrets)
WritesThrough P h (diff k old new) = Unit
WritesThrough P h (get_env n) = Unit
WritesThrough P h (create c k ns o) =
    P c × ((err : Option Error) × In (event (cached_get c k ns (meta k o).name) (none, err)) h)
WritesThrough P h (update c k ns o) = P c
WritesThrough P h _ = ⊥

pub WritesThrough-mono :
    (P R : Client → Type 0)
    → ((c : Client) → P c → R c)
    → (h : History) (r : Request) → WritesThrough P h r
    → WritesThrough R h r
WritesThrough-mono P R w h (cached_get c k ns n) p = w c p
WritesThrough-mono P R w h (live_get c k ns n) g = g
WritesThrough-mono P R w h (diff k old new) g = tt
WritesThrough-mono P R w h (get_env n) g = tt
WritesThrough-mono P R w h (create c k ns o) (p, absent) = (w c p, absent)
WritesThrough-mono P R w h (update c k ns o) p = w c p
WritesThrough-mono P R w h _ g = absurd g

module _ (R : Client → Type 0) where
  pub Writes-WritesThrough :
      (P : Client → (k : Kind) → Obj k → Type 0)
      → ((c : Client) (k : Kind) (o : Obj k) → P c k o → R c)
      → (h : History) (r : Request) → Writes P h r
      → WritesThrough R h r
  Writes-WritesThrough P w h (cached_get c k ns n) (o, p, e, en) = w c k o p
  Writes-WritesThrough P w h (diff k old new) g = tt
  Writes-WritesThrough P w h (create c k ns o) (p, e, absent) = (w c k o p, absent)
  Writes-WritesThrough P w h (update c k ns o) (p, e, d) = w c k o p
  Writes-WritesThrough P w h _ g = absurd g

  pub CreatesAbsent-WritesThrough :
      (P : Client → String → String → Type 0)
      → ((c : Client) (cluster n : String) → P c cluster n → R c)
      → (b : SyntheticBinding) (h : History) (r : Request) → CreatesAbsent P b h r
      → WritesThrough R h r
  CreatesAbsent-WritesThrough P w b h (cached_get c namespaces ns n) (cluster, p, e) =
      w c cluster n p
  CreatesAbsent-WritesThrough P w b h (create c namespaces ns o) (e, cluster, n, err, p, new, m) =
      (w c cluster n p, (err, rw (new.0, e) m))
  CreatesAbsent-WritesThrough P w b h _ g = absurd g

  pub CopiesOnly-WritesThrough :
      (P : Client → Type 0)
      → ((c : Client) → P c → R c)
      → (h : History) (r : Request) → CopiesOnly P h r
      → WritesThrough R h r
  CopiesOnly-WritesThrough P w h (live_get management secrets ns n) g = (refl, refl)
  CopiesOnly-WritesThrough P w h (cached_get (managed conn) secrets ns n) g = w (managed conn) g
  CopiesOnly-WritesThrough P w h (diff secrets old new) g = tt
  CopiesOnly-WritesThrough P w h (create (managed conn) secrets ns o) (p, copy, e, absent) =
      (w (managed conn) p, absent)
  CopiesOnly-WritesThrough P w h (update (managed conn) secrets ns o) g = w (managed conn) g.0
  CopiesOnly-WritesThrough P w h _ g = absurd g

  pub WritesNodeExporters-WritesThrough :
      (mb : SyntheticModelBinding) (conns : Map Connection)
      → ((c : Client) → Reaches mb.managed_clusters conns c → R c)
      → (h : History) (r : Request) → WritesNodeExporters mb conns h r
      → WritesThrough R h r
  unfolding node_exporter_daemon_set get_node_exporter_labels
  WritesNodeExporters-WritesThrough mb conns w h r (system, inl e) = rw e tt
  WritesNodeExporters-WritesThrough mb conns w h r (system, inr (image, read, g)) =
      Writes-WritesThrough (IsNodeExporter mb.managed_clusters conns image)
        (λ c k o (kv, conn, o', i, found, e, x, eo). w c (kv, conn, i, found, e)) h r g

-- For the system binding, CreateSecrets makes no call.
pub create_secrets-system :
    (mb : SyntheticModelBinding) (available : Map Connection)
    → mb.syn_binding.name ≡ vmi_system_binding_name
    → Covers mb.managed_clusters available
    → Ensures (λ _ _. ⊥) (λ h err. Unit {0}) (create_secrets mb available)
unfolding create_secrets get_filtered_connections secrets_for create_secrets_in
create_secrets-system mb available system covers h =
    rw ((eq_iff mb.syn_binding.name vmi_system_binding_name).1 system) (
      Runs-mono _ h (λ _ _ _. tt)
        (Runs-for_each (λ _. Unit {0}) (λ _ _. Unit {0}) (λ _ _ _. tt) (λ _ _ _ _. tt) _
          mb.managed_clusters
          (λ kv m h' _. Runs-bind _ _ h' (
            Runs-must_lookup kv.0 available h'
              (λ missing.
                let (c, e) =
                  All-In (λ x. (c : Connection) × (lookup x.0 available ≡ some c)) kv
                    mb.managed_clusters covers m in
                ground arith)
              (λ conn found. unfold for_each in returns h' none (λ p. tt))))
          h tt))
