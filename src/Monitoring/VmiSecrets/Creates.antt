-- ===== src/Monitoring/VmiSecrets/Creates.antt =====
-- CreateVmiSecrets: what it writes and deletes, and what it leaves.
use verrazzano_operator.Prelude.{
  Bool, ◌&&◌, is_some, String, [], ◌∷◌, true, false, ◌≡◌, refl, none, some, Option, ◌⊎◌, inl, inr,
  Bool-cases, List, sym, subst,
}
use verrazzano_operator.Prelude.Slices.{In}
use verrazzano_operator.Prelude.Maps.{lookup}
use verrazzano_operator.Constants.{verrazzano_namespace, vmi_secret_name, vmi_username}
use verrazzano_operator.Kube.{
  History, Request, Error, Answer, event, management, secrets, Secret, random, cached_get,
  cached_list, create, update, delete,
}
use verrazzano_operator.Prog.{Prog, ◌>>=◌, for_each_listed}
use verrazzano_operator.Prog.Rules.{
  Runs, calls, returns, Ensures, OnSuccess, Lasts, Runs-bind, Runs-mono, Runs-weaken, Runs-next,
  Runs-keep, Runs-frame,
}
use verrazzano_operator.Prog.Listed.{Listed, ListedAll}
use verrazzano_operator.Types.{SyntheticBinding}
use verrazzano_operator.Util.{contains, get_vmi_name_for_binding}
use verrazzano_operator.Managed.Shared.{delete_listed}
use verrazzano_operator.Managed.Shared.Deleting.{label_of, SparedOrDeleted, Runs-delete_listed}
use verrazzano_operator.Monitoring.KubeSecrets
use verrazzano_operator.Monitoring.VmiSecrets.{
  new_vmi_secret, is_complete, put_vmi_secret, delete_other_secrets, create_vmi_secrets,
}
use verrazzano_operator.Monitoring.VmiSecrets.Passwords.{Draws, IsFresh, new_vmi_secret_lem}

-- The lister was asked for the VMI secret, and gave this answer.
abbrev pub Found : Answer Secret → History → Type 0
Found answer h =
    In (event (cached_get management secrets verrazzano_namespace vmi_secret_name) answer) h

-- The names that are left alone: that of the VMI user and that of the binding's instance.
abbrev pub left_alone : SyntheticBinding → List String
left_alone b = vmi_username ∷ get_vmi_name_for_binding b.name ∷ []

-- Neither of the names that are left alone.
abbrev pub IsOther : SyntheticBinding → Secret → Type 0
IsOther b o = contains (vmi_username ∷ get_vmi_name_for_binding b.name ∷ []) o.metadata.name ≡ false

-- The secret has a user name and a password.
abbrev pub has_login : Secret → Bool
has_login o = is_some (lookup "username" o.content) && is_some (lookup "password" o.content)

-- A fresh secret is created where none was found, or replaces one that is not complete; and listed
-- secrets with other names are deleted.
abbrev pub WritesVmiSecret : SyntheticBinding → History → Request → Type 0
WritesVmiSecret b h (random n) = Draws h (random n)
WritesVmiSecret b h (cached_get c k ns n) = (c ≡ management) × (k ≡ secrets)
WritesVmiSecret b h (cached_list c k ns s) = (c ≡ management) × (k ≡ secrets)
WritesVmiSecret b h (create c secrets ns o) =
    (c ≡ management)
    × (ns ≡ verrazzano_namespace)
    × IsFresh b o
    × ((err : Option Error) × Found (none, err) h)
WritesVmiSecret b h (update c secrets ns o) =
    (c ≡ management)
    × (ns ≡ verrazzano_namespace)
    × IsFresh b o
    × ((old : Secret) × (err : Option Error) × Found (some old, err) h × (has_login old ≡ false))
WritesVmiSecret b h (delete c secrets ns n) =
    (list : List Secret) × (o : Secret) × (c ≡ management)
    × Listed management secrets "" (label_of b) list h
    × In o list
    × IsOther b o
    × (ns ≡ o.metadata.namespace)
    × (n ≡ o.metadata.name)
WritesVmiSecret b h _ = ⊥

-- A complete secret was found, or a fresh one was created or replaced it, without an error.
abbrev pub SecretSettled : SyntheticBinding → History → Type 0
SecretSettled b h =
    ((old : Secret) × (err : Option Error) × Found (some old, err) h × (has_login old ≡ true))
    ⊎ ((o : Secret) × IsFresh b o
        × (In (event (create management secrets verrazzano_namespace o) none) h
            ⊎ In (event (update management secrets verrazzano_namespace o) none) h))

SecretSettled-lasts : (b : SyntheticBinding) → Lasts (SecretSettled b)
SecretSettled-lasts b e h (inl (o, err, f, c)) = inl (o, err, inr f, c)
SecretSettled-lasts b e h (inr (o, f, inl m)) = inr (o, f, inl (inr m))
SecretSettled-lasts b e h (inr (o, f, inr m)) = inr (o, f, inr (inr m))

module _ (b : SyntheticBinding) where
  -- NewVmiSecret, and then code that may rely on what was found.
  Runs-fresh :
      (J : History → Type 0)
      → Lasts J
      → (f : Secret → Prog (Option Error)) (h : History) → J h
      → ((o : Secret)
          → IsFresh b o
          → (h' : History) → J h'
          → Runs (WritesVmiSecret b) (OnSuccess (SecretSettled b)) ⊥ h' (f o))
      → Runs (WritesVmiSecret b) (OnSuccess (SecretSettled b)) ⊥ h (new_vmi_secret b >>= f)
  Runs-fresh J lasts f h j then = Runs-bind (new_vmi_secret b) f h (
      Runs-mono (new_vmi_secret b) h (λ h' o (fresh, j'). then o fresh h' j')
        (Runs-frame J lasts (new_vmi_secret b) h j (
          Runs-weaken (new_vmi_secret b) h
            (λ h' r g. subst (λ q. WritesVmiSecret b h' q) (sym g) refl) (new_vmi_secret_lem b h))))

  Runs-put_vmi_secret :
      (o : Option Secret) (err : Option Error) (h : History)
      → Found (o, err) h
      → Runs (WritesVmiSecret b) (OnSuccess (SecretSettled b)) ⊥ h (put_vmi_secret b o)
  unfolding put_vmi_secret is_complete
  Runs-put_vmi_secret none err h f =
      Runs-fresh (Found (none, err)) (λ e h' m. inr m) KubeSecrets.create h f
        λ o fresh h' f'.
          calls h' _ _ (refl, refl, fresh, (err, f'))
            λ x. returns _ x (λ p. inr (o, fresh, inl (rw p (inl refl))))
  Runs-put_vmi_secret (some old) err h f = elim (Bool-cases (has_login old)) [
    | inl e ↦ rw e (returns h none (λ p. inl (old, err, f, e)))
    | inr e ↦ rw e (
        Runs-fresh (Found (some old, err)) (λ e' h' m. inr m) KubeSecrets.update h f
          λ o fresh h' f'.
            calls h' _ _ (refl, refl, fresh, (old, err, f', e))
              λ x. returns _ x (λ p. inr (o, fresh, inr (rw p (inl refl)))))
  ]

pub create_vmi_secrets_lem :
    (b : SyntheticBinding)
    → Ensures
        (WritesVmiSecret b)
        (OnSuccess (λ h.
          ListedAll management secrets ""
            (label_of b)
            (SparedOrDeleted management secrets (λ o. contains (left_alone b) o.metadata.name))
            h
          × SecretSettled b h))
        (create_vmi_secrets b)
unfolding create_vmi_secrets delete_other_secrets delete_listed for_each_listed
create_vmi_secrets_lem b h =
    calls h _ _ (refl, refl)
      λ (found, err).
        Runs-next (put_vmi_secret b found) (delete_other_secrets b) _
          (Runs-put_vmi_secret b found err _ (inl refl))
          λ h' settled. Runs-keep (SecretSettled-lasts b) (delete_other_secrets b) h' settled (
            Runs-delete_listed management secrets (label_of b)
              (λ o. contains (left_alone b) o.metadata.name) (λ h''. (refl, refl))
              (λ h'' list o listed i e. (list, o, refl, listed, i, e, refl, refl)) h')
