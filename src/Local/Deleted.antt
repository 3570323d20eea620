-- ===== src/Local/Deleted.antt =====
-- What the Delete functions of pkg/local delete in the management cluster.
use verrazzano_operator.Prelude.{Option, ◌≡◌, refl, false, List, none, inl, inr}
use verrazzano_operator.Prelude.Slices.{In, All-map}
use verrazzano_operator.Kube.{
  Error, History, Request, Kind, Obj, home, meta, secrets, config_maps, instances, management,
  delete, cached_list, event,
}
use verrazzano_operator.Prog.{Prog}
use verrazzano_operator.Prog.Rules.{Ensures, OnSuccess, Runs-mono}
use verrazzano_operator.Prog.Listed.{Listed, ListedAll}
use verrazzano_operator.Types.{SyntheticBinding}
use verrazzano_operator.Local.Secrets.{delete_secrets}
use verrazzano_operator.Local.ConfigMaps.{delete_config_maps}
use verrazzano_operator.Local.Vmis.{delete_vmi}
use verrazzano_operator.Managed.Shared.{delete_listed}
use verrazzano_operator.Managed.Shared.Deleting.{label_of, SparedOrDeleted, Runs-delete_listed}

-- The only calls are to list the kind by the binding's label in all namespaces of the management
-- cluster, and to delete, in its own namespace, an object that was listed.
abbrev pub DeletesOwn : (k : Kind) → SyntheticBinding → History → Request → Type 0
DeletesOwn k b h (cached_list c k' ns s) =
    (c ≡ management) × (k' ≡ k) × (ns ≡ "") × (s ≡ label_of b)
DeletesOwn k b h (delete c k' ns n) =
    (list : List (Obj k)) × (o : Obj k) × (c ≡ management)
    × (k' ≡ k)
    × Listed management k "" (label_of b) list h
    × In o list
    × (ns ≡ home k o)
    × (n ≡ (meta k o).name)
DeletesOwn k b h _ = ⊥

-- Every object that was listed was deleted.
abbrev pub AllDeleted : (k : Kind) → SyntheticBinding → History → Type 0
AllDeleted k b h =
    ListedAll management k "" (label_of b)
      (λ o h'. In (event (delete management k (home k o) (meta k o).name) none) h') h

Runs-delete_own :
    (k : Kind) (b : SyntheticBinding)
    → Ensures
        (DeletesOwn k b)
        (OnSuccess
          (ListedAll management k "" (label_of b) (SparedOrDeleted management k (λ _. false))))
        (delete_listed management k (label_of b) (λ _. false))
Runs-delete_own k b h =
    Runs-delete_listed management k (label_of b) (λ _. false) (λ h'. (refl, refl, refl, refl))
      (λ h' list o listed i e. (list, o, refl, refl, listed, i, refl, refl)) h

not_spared :
    (k : Kind) (b : SyntheticBinding) (h : History)
    → ListedAll management k "" (label_of b) (SparedOrDeleted management k (λ _. false)) h
    → AllDeleted k b h
not_spared k b h (list, listed, all) = (list, listed, All-map list deleted all)
  where
    deleted :
        (o : Obj k)
        → SparedOrDeleted management k (λ _. false) o h
        → In (event (delete management k (home k o) (meta k o).name) none) h
    deleted o (inl p) = cc
    deleted o (inr m) = m

-- A Delete function of pkg/local, for objects of the kind, does not panic, deletes only what it
-- should, and on success all that was listed.
abbrev pub DeletesAllOwn : (k : Kind) → SyntheticBinding → Prog (Option Error) → Type 0
DeletesAllOwn k b delete_all = Ensures (DeletesOwn k b) (OnSuccess (AllDeleted k b)) delete_all

Runs-delete_all :
    (k : Kind) (b : SyntheticBinding)
    → DeletesAllOwn k b (delete_listed management k (label_of b) (λ _. false))
Runs-delete_all k b h =
    Runs-mono (delete_listed management k (label_of b) (λ _. false)) h
      (λ h' err q p. not_spared k b h' (q p)) (Runs-delete_own k b h)

-- DeleteSecrets, DeleteConfigMaps and DeleteVmi do not panic. Each only lists the objects of its
-- kind with the binding's label, in all namespaces of the management cluster, and deletes such
-- objects, each in its own namespace; and where it returns no error, all that were listed were
-- deleted.
pub delete_local_lem :
    (b : SyntheticBinding)
    → DeletesAllOwn secrets b (delete_secrets b)
      × DeletesAllOwn config_maps b (delete_config_maps b)
      × DeletesAllOwn instances b (delete_vmi b)
unfolding delete_secrets delete_config_maps delete_vmi delete_listed
delete_local_lem b =
    (Runs-delete_all secrets b, Runs-delete_all config_maps b, Runs-delete_all instances b)
