-- ===== src/Managed/Shared/Deleting.antt =====
-- What delete_listed does: it deletes what the lister gave, and nothing else.
use verrazzano_operator.Prelude.{
  [], ◌∷◌, ◌≡◌, refl, true, false, Bool, none, inl, inr, ◌⊎◌, Bool-cases,
}
use verrazzano_operator.Prelude.Slices.{In, All}
use verrazzano_operator.Kube.{
  History, Request, event, Client, Kind, Obj, meta, home, Selector, delete, cached_list, Connection,
  managed,
}
use verrazzano_operator.Prog.Rules.{Runs, calls, returns, OnSuccess, Lasts, Ensures, Runs-for_each}
use verrazzano_operator.Prog.Listed.{Listed, ListedAll, Runs-for_each_listed, ListedAll-lasts}
use verrazzano_operator.Types.{SyntheticBinding, SyntheticModelBinding}
use verrazzano_operator.Managed.Shared.{delete_listed, List, Map, String, delete_in_clusters}

-- The label of the objects that were made for a binding in the management cluster.
abbrev pub label_of : SyntheticBinding → Selector
label_of b = ("verrazzano.binding", b.name) ∷ []

-- The labels of the objects that were made for a binding in a cluster.
abbrev pub labels_of : SyntheticModelBinding → String → Selector
labels_of mb cluster =
    ("verrazzano.binding", mb.syn_binding.name) ∷ ("verrazzano.cluster", cluster) ∷ []

-- The object was spared, or its deletion was accepted.
abbrev pub SparedOrDeleted : Client → (k : Kind) → (Obj k → Bool) → Obj k → History → Type 0
SparedOrDeleted c k spare o h =
    (spare o ≡ true) ⊎ In (event (delete c k (home k o) (meta k o).name) none) h

pub SparedOrDeleted-lasts :
    (c : Client) (k : Kind) (spare : Obj k → Bool) (o : Obj k) → Lasts (SparedOrDeleted c k spare o)
SparedOrDeleted-lasts c k spare o e h (inl p) = inl p
SparedOrDeleted-lasts c k spare o e h (inr m) = inr (inr m)

module _ {G : History → Request → Type 0} {X : Type 0} (c : Client) (k : Kind) (s : Selector)
    (spare : Obj k → Bool) where
  pub Runs-delete_listed :
      ((h : History) → G h (cached_list c k "" s))
      → ((h : History) (list : List (Obj k)) (o : Obj k)
          → Listed c k "" s list h
          → In o list
          → spare o ≡ false
          → G h (delete c k (home k o) (meta k o).name))
      → (h : History)
      → Runs G
          (OnSuccess (ListedAll c k "" s (SparedOrDeleted c k spare)))
          X
          h
          (delete_listed c k s spare)
  unfolding delete_listed
  Runs-delete_listed may_list may_delete h =
      Runs-for_each_listed c k "" s (λ _. Unit {0}) (SparedOrDeleted c k spare) (λ _ _ _. tt)
        (SparedOrDeleted-lasts c k spare) _
        (λ list o m h' listed _. elim (Bool-cases (spare o)) [
          | inl e ↦ rw e (returns h' none (λ _. inl e))
          | inr e ↦ rw e (
              calls h' _ _ (may_delete h' list o listed m e)
                (λ err. returns _ err (λ p. rw p (inr (inl refl)))))
        ])
        h (may_list h) tt

-- A deletion is allowed of an object that the lister of one of the connections gave for the
-- selector, unless the object is spared. Nothing is written.
abbrev pub DeletesListed :
    (k : Kind) → Map Connection → (String → Selector) → (Obj k → Bool) → History → Request → Type 0
DeletesListed k conns selector spare h (cached_list c k' ns s) = Unit
DeletesListed k conns selector spare h (delete c k' ns n) =
    (kv : String × Connection) × (list : List (Obj k)) × (o : Obj k) × In kv conns
    × (c ≡ managed kv.1)
    × (k' ≡ k)
    × Listed (managed kv.1) k "" (selector kv.0) list h
    × In o list
    × (spare o ≡ false)
    × (ns ≡ home k o)
    × (n ≡ (meta k o).name)
DeletesListed k conns selector spare h _ = ⊥

-- In the cluster of the connection, each listed object was spared or its deletion was accepted.
abbrev pub Cleared :
    (k : Kind) → (String → Selector) → (Obj k → Bool) → History → String × Connection → Type 0
Cleared k selector spare h kv =
    ListedAll (managed kv.1) k "" (selector kv.0) (SparedOrDeleted (managed kv.1) k spare) h

Cleared-lasts :
    (k : Kind) (selector : String → Selector) (spare : Obj k → Bool) (kv : String × Connection)
    → Lasts (λ h. Cleared k selector spare h kv)
Cleared-lasts k selector spare kv =
    ListedAll-lasts (managed kv.1) k "" (selector kv.0) (SparedOrDeleted (managed kv.1) k spare)
      (SparedOrDeleted-lasts (managed kv.1) k spare)

-- The loop of the Delete functions does not panic. It only lists and deletes, and deletes only what
-- the lister of a connection gave for the selector and what is not spared; and where it returns no
-- error, each listed object in each cluster was spared or deleted.
pub delete_in_clusters_lem :
    (k : Kind) (conns : Map Connection) (selector : String → Selector) (spare : Obj k → Bool)
    → Ensures
        (DeletesListed k conns selector spare)
        (OnSuccess (λ h. All (Cleared k selector spare h) conns))
        (delete_in_clusters k conns selector spare)
unfolding delete_in_clusters
delete_in_clusters_lem k conns selector spare h =
    Runs-for_each (λ _. Unit {0}) (λ kv h'. Cleared k selector spare h' kv) (λ _ _ _. tt)
      (Cleared-lasts k selector spare) _ conns
      (λ kv m h' _.
        Runs-delete_listed (managed kv.1) k (selector kv.0) spare (λ _. tt)
          (λ h'' list o listed i e. (kv, list, o, m, refl, refl, listed, i, e, refl, refl)) h')
      h tt
