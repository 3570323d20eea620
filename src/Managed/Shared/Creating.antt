-- ===== src/Managed/Shared/Creating.antt =====
-- What create_or_update does: it leaves each object in the state that is wanted, and writes no
-- other.
use verrazzano_operator.Prelude.{
  ◌≡◌, ◌≢◌, refl, none, some, Option, List, inl, inr, ◌⊎◌, String, ◌==◌, arith, eq_iff, Bool-cases,
}
use verrazzano_operator.Prelude.Slices.{In, All, All-In, All-map}
use verrazzano_operator.Prelude.Maps.{Map, lookup}
use verrazzano_operator.Kube.{
  History, Request, Error, Answer, event, Client, Connection, managed, Kind, Obj, meta, home,
  cached_get, create, update, diff,
}
use verrazzano_operator.Prog.Rules.{
  Runs, calls, returns, Ensures, OnSuccess, Lasts, Runs-bind, Runs-mono, Runs-for_each,
  Runs-must_lookup,
}
use verrazzano_operator.Types.{ManagedCluster}
use verrazzano_operator.Util.Clusters.{Covers}
use verrazzano_operator.Managed.Shared.{
  update_if_different, reconcile_found, create_or_update, create_in_clusters,
}

-- The object was found as wanted, or it was updated, or it was created, without an error.
abbrev pub Settled : Client → (k : Kind) → Obj k → History → Type 0
Settled c k o h =
    ((old : Obj k) × In (event (cached_get c k (home k o) (meta k o).name) (some old, none)) h
      × In (event (diff k old o) "") h)
    ⊎ In (event (update c k (home k o) o) none) h
    ⊎ In (event (create c k (home k o) o) none) h

pub Settled-lasts : (c : Client) (k : Kind) (o : Obj k) → Lasts (Settled c k o)
Settled-lasts c k o e h (inl (old, g, d)) = inl (old, inr g, inr d)
Settled-lasts c k o e h (inr (inl m)) = inr (inl (inr m))
Settled-lasts c k o e h (inr (inr m)) = inr (inr (inr m))

-- Objects that satisfy `P` are looked up; they may be created if the lister did not find them, and
-- updated if it found one from which they differ. Nothing is deleted.
abbrev pub Writes : (Client → (k : Kind) → Obj k → Type 0) → History → Request → Type 0
Writes P h (cached_get c k ns n) = (o : Obj k) × P c k o × (ns ≡ home k o) × (n ≡ (meta k o).name)
Writes P h (diff k old new) = Unit
Writes P h (create c k ns o) =
    P c k o
    × (ns ≡ home k o)
    × ((err : Option Error) × In (event (cached_get c k ns (meta k o).name) (none, err)) h)
Writes P h (update c k ns o) =
    P c k o
    × (ns ≡ home k o)
    × ((old : Obj k) × (err : Option Error) × (d : String) × In
          (event (cached_get c k ns (meta k o).name) (some old, err)) h
        × (d ≢ "")
        × In (event (diff k old o) d) h)
Writes P h _ = ⊥

module _ {P : Client → (k : Kind) → Obj k → Type 0} (c : Client) (k : Kind) (o : Obj k)
    (p : P c k o) where
  Runs-update_if_different :
      (err : Option Error) (old : Obj k) (d : String) (h : History)
      → In (event (diff k old o) d) h
      → In (event (cached_get c k (home k o) (meta k o).name) (some old, err)) h
      → Runs (Writes P) (OnSuccess (Settled c k o)) ⊥ h (update_if_different c k o err d)
  Runs-update_if_different err old d h m g = elim (Bool-cases (d == "")) [
    | inl e ↦ rw e (returns h err (λ q. inl (old, rw (← q) g, rw (← (eq_iff d "").0 e) m)))
    | inr e ↦ rw e (
        calls h _ _ (p, refl, (old, err, d, g, (ground (arith, eq_iff d "")), m))
          (λ x. returns _ x (λ q. rw q (inr (inl (inl refl))))))
  ]

  Runs-reconcile_found :
      (answer : Answer (Obj k)) (h : History)
      → In (event (cached_get c k (home k o) (meta k o).name) answer) h
      → Runs (Writes P) (OnSuccess (Settled c k o)) ⊥ h (reconcile_found c k o answer)
  Runs-reconcile_found (none, err) h m =
      calls h _ _ (p, refl, (err, m)) λ x. returns _ x (λ q. rw q (inr (inr (inl refl))))
  Runs-reconcile_found (some old, err) h m =
      calls h _ _ tt λ d. Runs-update_if_different err old d _ (inl refl) (inr m)

  -- Success means that the object is settled.
  pub Runs-create_or_update :
      (h : History) → Runs (Writes P) (OnSuccess (Settled c k o)) ⊥ h (create_or_update c k o)
  unfolding create_or_update
  Runs-create_or_update h =
      calls h _ _ (o, p, refl, refl) λ answer. Runs-reconcile_found answer _ (inl refl)

-- The object is one of those planned for the cluster that the client's connection belongs to.
abbrev pub Planned :
    (k : Kind)
    → Map ManagedCluster
    → Map Connection
    → (String × ManagedCluster → List (Obj k))
    → Client
    → (k' : Kind) → Obj k'
    → Type 0
Planned k clusters conns objs c k' o =
    (kv : String × ManagedCluster) × (conn : Connection) × (o' : Obj k) × In kv clusters
    × (lookup kv.0 conns ≡ some conn)
    × (c ≡ managed conn)
    × In o' (objs kv)
    × ◌≡◌ {A = (j : Kind) × Obj j} (k', o) (k, o')

-- All objects that are planned for the cluster are settled through its connection.
abbrev pub ClusterSettled :
    (k : Kind)
    → Map Connection
    → (String × ManagedCluster → List (Obj k))
    → History
    → String × ManagedCluster
    → Type 0
ClusterSettled k conns objs h kv =
    (conn : Connection) × (lookup kv.0 conns ≡ some conn)
    × All (λ o. Settled (managed conn) k o h) (objs kv)

-- The loop of the Create functions, given a connection for each cluster, does not panic. It looks
-- up only planned objects, creates only those that the cluster's lister did not find, and updates
-- only those for which the lister found one from which the comparison told a difference; and where
-- it returns no error, every planned object of every cluster is settled: one was found without a
-- difference, or it was updated or created.
pub create_in_clusters_lem :
    (k : Kind) (clusters : Map ManagedCluster) (conns : Map Connection)
    (objs : String × ManagedCluster → List (Obj k))
    → Covers clusters conns
    → Ensures
        (Writes (Planned k clusters conns objs))
        (OnSuccess (λ h. All (ClusterSettled k conns objs h) clusters))
        (create_in_clusters k clusters conns objs)
unfolding create_in_clusters
create_in_clusters_lem k clusters conns objs covers h =
    Runs-for_each (λ _. Unit {0}) (λ kv h'. ClusterSettled k conns objs h' kv) (λ _ _ _. tt)
      (λ kv e h' (c, l, a). (c, l, All-map (objs kv) (λ o. Settled-lasts (managed c) k o e h') a)) _
      clusters
      (λ kv m h' _. Runs-bind _ _ h' (
        Runs-must_lookup kv.0 conns h'
          (λ missing.
            let (c, e) =
              All-In (λ x. (c : Connection) × (lookup x.0 conns ≡ some c)) kv clusters covers m in
            ground arith)
          (λ conn found.
            Runs-mono _ h' (λ h'' err q p. (conn, found, q p))
              (Runs-for_each (λ _. Unit {0}) (λ o. Settled (managed conn) k o) (λ _ _ _. tt)
                (Settled-lasts (managed conn) k) _ (objs kv)
                (λ o i h'' _.
                  Runs-create_or_update {P = Planned k clusters conns objs} (managed conn) k o
                    (kv, conn, o, m, found, refl, i, refl) h'')
                h' tt))))
      h tt
