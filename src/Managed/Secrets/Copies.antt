-- ===== src/Managed/Secrets/Copies.antt =====
-- The secrets in the managed clusters are copies of those in the management cluster.
use verrazzano_operator.Prelude.{
  ◌≡◌, ◌≢◌, refl, none, some, Option, List, [], ◌∷◌, ◌++◌, inl, inr, String, ◌==◌, arith, eq_iff,
  Bool-cases,
}
use verrazzano_operator.Prelude.Slices.{In, All, All-map, All-In}
use verrazzano_operator.Prelude.Maps.{Map}
use verrazzano_operator.Constants.{vmi_system_binding_name}
use verrazzano_operator.Kube.{
  History, Error, Answer, event, Client, Connection, managed, Secret, secrets, cached_get,
}
use verrazzano_operator.Prog.{◌>>=◌}
use verrazzano_operator.Prog.Rules.{
  calls, returns, Only, OnSuccess, Lasts, Runs-bind, Runs-mono, Runs-frame, Runs-for_each,
  Runs-must_lookup,
}
use verrazzano_operator.Types.{ManagedCluster, SyntheticModelBinding}
use verrazzano_operator.Util.Clusters.{Reaches}
use verrazzano_operator.Util.{Filtered, filtered, unavailable}
use verrazzano_operator.Managed.Shared.{update_if_different}
use verrazzano_operator.Managed.Secrets.{
  wls_runtime_encryption_secret, get_filtered_connections, new_secret, has_secret, append_got,
  add_secret, add_secrets, new_secrets, reconcile_secret, create_secrets_in, when_connected,
  secrets_for, create_secrets, for_each, must_lookup,
}
use verrazzano_operator.Managed.Secrets.Sources.{
  IsCopy, IsCopy-lasts, CopiesOnly, MayPanic, CopyOrError, Runs-new_secret,
}

-- All of the collected secrets are copies.
abbrev Copies : List Secret → History → Type 0
Copies os h = All (λ o. IsCopy o h) os

Copies-lasts : (os : List Secret) → Lasts (Copies os)
Copies-lasts os e h a = All-map os (λ o. IsCopy-lasts o e h) a

All-append :
    {A : Type 0} (P : A → Type 0) (xs : List A) (y : A) → All P xs → P y → All P (xs ++ y ∷ [])
All-append P [] y a p = (p, tt)
All-append P (x ∷ xs) y a p = (a.0, All-append P xs y a.1 p)

-- What is written goes through a client that satisfies `P`.
module _ (P : Client → Type 0) where
  Runs-add_secret :
      (ns n : String) (acc : List Secret) (h : History)
      → Copies acc h
      → MayPanic P (λ h' os. Copies os h') h (add_secret ns n acc)
  unfolding add_secret
  Runs-add_secret ns n acc h a = elim (Bool-cases (has_secret acc n ns)) [
    | inl e ↦ rw e (returns h acc a)
    | inr e ↦ rw e (
        Runs-bind _ _ h (
          Runs-mono _ h (λ h' answer q. returns h' _ (appended h' answer q.0 q.1))
            (Runs-frame (Copies acc) (Copies-lasts acc) (new_secret n ns [] []) h a
              (Runs-new_secret P n ns h))))
  ]
    where
      appended :
          (h' : History) (answer : Answer Secret)
          → CopyOrError n ns h' answer
          → Copies acc h'
          → Copies (append_got acc answer) h'
      appended h' (some o, none) p c = All-append (λ x. IsCopy x h') acc o c p
      appended h' (none, none) p c = c
      appended h' (some o, some e) p c = c
      appended h' (none, some e) p c = c

  Runs-add_secrets :
      (ns : String) (names : List String) (acc : List Secret) (h : History)
      → Copies acc h
      → MayPanic P (λ h' os. Copies os h') h (add_secrets ns names acc)
  unfolding add_secrets
  Runs-add_secrets ns [] acc h a = returns h acc a
  Runs-add_secrets ns (n ∷ names) acc h a =
      Runs-bind _ _ h (
        Runs-mono _ h (λ h' os c. Runs-add_secrets ns names os h' c) (Runs-add_secret ns n acc h a))

  Runs-new_secrets :
      (m : Map (List String)) (acc : List Secret) (h : History)
      → Copies acc h
      → MayPanic P (λ h' os. Copies os h') h (new_secrets m acc)
  unfolding new_secrets
  Runs-new_secrets [] acc h a = returns h acc a
  Runs-new_secrets ((ns, names) ∷ m) acc h a =
      Runs-bind _ _ h
        (Runs-mono _ h (λ h' os c. Runs-new_secrets m os h' c) (Runs-add_secrets ns names acc h a))

  Runs-secrets_for :
      (mb : SyntheticModelBinding) (mc : ManagedCluster) (h : History)
      → MayPanic P (λ h' os. Copies os h') h (secrets_for mb mc)
  unfolding secrets_for
  Runs-secrets_for mb mc h = elim (Bool-cases (mb.syn_binding.name == vmi_system_binding_name)) [
    | inl e ↦ rw e (returns h [] tt)
    | inr e ↦ rw e (Runs-new_secrets mc.secrets [] h tt)
  ]

  module _ (conn : Connection) (p : P (managed conn)) (o : Secret) where
    Runs-update_if_different :
        (err : Option Error) (old : Secret) (d : String) (h : History)
        → IsCopy o h
        → old.secret_type ≢ wls_runtime_encryption_secret
        → In
            (event
              (cached_get (managed conn) secrets o.metadata.namespace o.metadata.name)
              (some old, err))
            h
        → MayPanic P
            (OnSuccess (λ _. Unit {0}))
            h
            (update_if_different (managed conn) secrets o err d)
    Runs-update_if_different err old d h c t g = elim (Bool-cases (d == "")) [
      | inl e ↦ rw e (returns h err (λ _. tt))
      | inr e ↦ rw e (calls h _ _ (p, c, refl, (old, err, t, g)) λ x. returns _ x (λ _. tt))
    ]

    Runs-reconcile_secret :
        (answer : Answer Secret) (h : History)
        → IsCopy o h
        → In
            (event (cached_get (managed conn) secrets o.metadata.namespace o.metadata.name) answer)
            h
        → MayPanic P (OnSuccess (λ _. Unit {0})) h (reconcile_secret conn o answer)
    Runs-reconcile_secret (none, err) h c m =
        calls h _ _ (p, c, refl, (err, m)) λ x. returns _ x (λ _. tt)
    Runs-reconcile_secret (some old, err) h c m =
        elim (Bool-cases (old.secret_type == wls_runtime_encryption_secret)) [
          | inl e ↦ rw e (returns h err (λ _. tt))
          | inr e ↦ rw e (
              calls h _ _ tt λ d.
                Runs-update_if_different err old d _ (IsCopy-lasts o _ h c)
                  (ground (arith, eq_iff old.secret_type wls_runtime_encryption_secret)) (inr m))
        ]

  Runs-create_secrets_in :
      (conn : Connection) (p : P (managed conn)) (os : List Secret) (h : History)
      → Copies os h
      → MayPanic P (OnSuccess (λ _. Unit {0})) h (create_secrets_in conn os)
  unfolding create_secrets_in
  Runs-create_secrets_in conn p os h c =
      Runs-mono _ h (λ _ _ _ _. tt)
        (Runs-for_each (Copies os) (λ _ _. Unit {0}) (Copies-lasts os) (λ _ _ _ _. tt) _ os
          (λ o m h' c'. calls h' _ _ p λ answer.
            Runs-reconcile_secret conn p o answer _
              (IsCopy-lasts o _ h' (All-In (λ x. IsCopy x h') o os c' m)) (inl refl))
          h c)

-- The client is that of the connection of one of the pair's clusters, in the connections that
-- GetFilteredConnections returns.
abbrev pub ReachesFiltered : SyntheticModelBinding → Map Connection → Client → Type 0
ReachesFiltered mb available c =
    (conns : Map Connection) × (get_filtered_connections mb available ≡ filtered conns)
    × Reaches mb.managed_clusters conns c

-- CreateSecrets writes to the managed clusters only secrets that have the name, the type and the
-- content of one that was read from the management cluster, through the connections of the pair's
-- own clusters; it creates one only where the lister found none, and updates one only where the
-- lister found one that is not of the WebLogic runtime encryption type.
pub create_secrets-Only :
    (mb : SyntheticModelBinding) (available : Map Connection)
    → Only (CopiesOnly (ReachesFiltered mb available)) (create_secrets mb available)
unfolding create_secrets
create_secrets-Only mb available h =
    Runs-mono _ h (λ _ _ _. tt) (over (get_filtered_connections mb available) (λ conns e. e))
  where
    over :
        (f : Filtered)
        → ((conns : Map Connection)
            → f ≡ filtered conns
            → get_filtered_connections mb available ≡ filtered conns)
        → MayPanic (ReachesFiltered mb available) (OnSuccess (λ _. Unit {0})) h (
            when_connected f λ conns.
              for_each
                (λ kv. (do
                  conn ← must_lookup kv.0 conns
                  news ← secrets_for mb kv.1
                  create_secrets_in conn news))
                mb.managed_clusters)
    over (unavailable e) given = returns h (some e) (λ _. tt)
    over (filtered conns) given =
        Runs-mono _ h (λ _ _ _ _. tt)
          (Runs-for_each (λ _. Unit {0}) (λ _ _. Unit {0}) (λ _ _ _. tt) (λ _ _ _ _. tt) _
            mb.managed_clusters
            (λ kv m h' _. Runs-bind _ _ h' (
              Runs-must_lookup kv.0 conns h' (λ _. tt)
                (λ conn found. Runs-bind _ _ h' (
                  Runs-mono _ h'
                    (λ h'' news c.
                      Runs-create_secrets_in (ReachesFiltered mb available) conn
                        (conns, given conns refl, (kv, conn, m, found, refl)) news h'' c)
                    (Runs-secrets_for (ReachesFiltered mb available) mb kv.1 h')))))
            h tt)
