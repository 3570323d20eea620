-- ===== src/Local/Vmis/Updates.antt =====
-- What CreateUpdateVmi writes, and the volume claims that it keeps.
use verrazzano_operator.Prelude.{
  if◌then◌else◌, ap, subst, sym, String, ◌≡◌, ◌≢◌, refl, ◌⊎◌, inl, inr, none, some, Option, ◌∷◌,
  true, false, ◌==◌, eq_iff, arith, Bool-cases, ◌&&◌, not,
}
use verrazzano_operator.Prelude.Slices.{In}
use verrazzano_operator.Constants.{verrazzano_namespace, vmi_system_binding_name}
use verrazzano_operator.Kube.{
  History, Request, Error, Answer, event, management, instances, Instance, cached_get, create,
  update, diff, lookup_env,
}
use verrazzano_operator.Prog.{ret, ◌>>=◌}
use verrazzano_operator.Prog.Rules.{
  Runs, calls, returns, Ensures, OnSuccess, Runs-bind, Runs-mono, Runs-weaken, Runs-frame, Lasts,
}
use verrazzano_operator.Types.{SyntheticBinding}
use verrazzano_operator.Util.{
  get_local_binding_labels, get_vmi_name_for_binding, is_system_profile_binding_name,
}
use verrazzano_operator.Environment.{shared_by, shared_vmi_variable, shared_vmi_default}
use verrazzano_operator.Local.Instances.{create_instance}
use verrazzano_operator.Local.Instances.Built.{
  ReadsVariable, ReplicasFit, Wanted, Created, create_instance_lem,
}
use verrazzano_operator.Local.Vmis.{
  keep_pvc_names, keep_resource_version, update_if_changed, reconcile_instance,
  after_create_instance, create_update_vmi,
}

-- The lister was asked for the binding's instance, and gave this answer.
abbrev pub Found : SyntheticBinding → Answer Instance → History → Type 0
Found b answer h =
    In
      (event
        (cached_get management instances verrazzano_namespace (get_vmi_name_for_binding b.name))
        answer)
      h

-- The new instance has the volume claims and the version of the old one.
abbrev pub Keeps : Instance → Instance → Type 0
Keeps old new =
    (new.spec.grafana.storage.pvc_names ≡ old.spec.grafana.storage.pvc_names)
    × (new.spec.prometheus.storage.pvc_names ≡ old.spec.prometheus.storage.pvc_names)
    × (new.spec.elasticsearch.storage.pvc_names ≡ old.spec.elasticsearch.storage.pvc_names)
    × (new.metadata.resource_version ≡ old.metadata.resource_version)

-- The binding has an instance of its own: it is the system binding, or the variable does not turn
-- the shared instance on.
abbrev pub HasOwn : SyntheticBinding → History → Type 0
HasOwn b h =
    (v : Option String) × In (event (lookup_env shared_vmi_variable) v) h
    × ((vmi_system_binding_name ≡ b.name) ⊎ (shared_by v ≡ false))

-- The instance has the name of the binding, the Verrazzano namespace and the binding's labels, and
-- its numbers of replicas fit into 32 bits.
abbrev pub IsOwn : SyntheticBinding → Instance → Type 0
IsOwn b o =
    (o.metadata.name ≡ get_vmi_name_for_binding b.name)
    × (o.metadata.namespace ≡ verrazzano_namespace)
    × (o.metadata.labels ≡ get_local_binding_labels b)
    × ReplicasFit o.spec.elasticsearch

-- The lookup of the binding's instance by its name in the Verrazzano namespace, its creation where
-- none was found, and its update where one was found, with what is kept of that one.
abbrev pub TouchesOwn : SyntheticBinding → History → Request → Type 0
TouchesOwn b h (cached_get c k ns n) =
    (c ≡ management)
    × (k ≡ instances)
    × (ns ≡ verrazzano_namespace)
    × (n ≡ get_vmi_name_for_binding b.name)
TouchesOwn b h (diff k old new) = k ≡ instances
TouchesOwn b h (create c instances ns o) =
    (c ≡ management)
    × (ns ≡ verrazzano_namespace)
    × IsOwn b o
    × ((err : Option Error) × Found b (none, err) h)
TouchesOwn b h (update c instances ns o) =
    (c ≡ management)
    × (ns ≡ verrazzano_namespace)
    × IsOwn b o
    × ((old : Instance) × (err : Option Error) × Found b (some old, err) h × Keeps old o)
TouchesOwn b h _ = ⊥

-- A variable is read, or the binding has an instance of its own and the call is about that
-- instance.
abbrev pub WritesOwn : SyntheticBinding → History → Request → Type 0
WritesOwn b h r = ReadsVariable h r ⊎ (HasOwn b h × TouchesOwn b h r)

-- The binding's instance was found as wanted, updated or created, without an error.
abbrev pub InstanceSettled : SyntheticBinding → History → Type 0
InstanceSettled b h =
    (o : Instance) × IsOwn b o
    × (((old : Instance) × Found b (some old, none) h × In (event (diff instances old o) "") h)
        ⊎ In (event (update management instances verrazzano_namespace o) none) h
        ⊎ In (event (create management instances verrazzano_namespace o) none) h)

HasOwn-lasts : (b : SyntheticBinding) → Lasts (HasOwn b)
HasOwn-lasts b e h (v, i, d) = (v, inr i, d)

module _ (b : SyntheticBinding) (new : Instance) (wanted : Wanted b new) where
  own : IsOwn b new
  own = (
    ap (λ m. m.name) wanted.0,
    ap (λ m. m.namespace) wanted.0,
    ap (λ m. m.labels) wanted.0,
    wanted.1,
  )

  found :
      (answer : Answer Instance) (h : History)
      → In
          (event (cached_get management instances new.metadata.namespace new.metadata.name) answer)
          h
      → Found b answer h
  found answer h =
      subst (λ m. In (event (cached_get management instances m.namespace m.name) answer) h) wanted.0

  Runs-update_if_changed :
      (old : Instance) (err : Option Error) (d : String) (h : History)
      → HasOwn b h
      → Found b (some old, err) h
      → In (event (diff instances old (keep_pvc_names old new)) d) h
      → Runs
          (WritesOwn b)
          (OnSuccess (InstanceSettled b))
          ⊥
          h
          (update_if_changed old (keep_pvc_names old new) err d)
  unfolding keep_pvc_names
  Runs-update_if_changed old err d h has f m =
      let kept = keep_resource_version old (keep_pvc_names old new) in
      elim (Bool-cases (d == "")) [
        | inl e ↦ rw e (
            returns h err (λ q.
              (keep_pvc_names old new, own, inl (old, rw (← q) f, rw (← (eq_iff d "").0 e) m))))
        | inr e ↦ rw e (
            calls h _ _ (inr (has, (refl, own.1, own, (old, err, f, (refl, refl, refl, refl)))))
              λ x. returns _ x (λ q. (
                kept,
                own,
                inr (
                    inl
                      (inl (sym (λ i. event (update management instances (own.1 i) kept) (q i))))),
              )))
      ]

  Runs-reconcile_instance :
      (answer : Answer Instance) (h : History)
      → HasOwn b h
      → Found b answer h
      → Runs (WritesOwn b) (OnSuccess (InstanceSettled b)) ⊥ h (reconcile_instance new answer)
  unfolding keep_pvc_names
  Runs-reconcile_instance (none, err) h has f =
      calls h _ _ (inr (has, (refl, own.1, own, (err, f)))) λ x. returns _ x (λ q. (
        new,
        own,
        inr (inr (inl (sym (λ i. event (create management instances (own.1 i) new) (q i))))),
      ))
  Runs-reconcile_instance (some old, err) h has f =
      calls h _ _ (inr (has, refl))
        λ d. Runs-update_if_changed old err d _ (HasOwn-lasts b _ h has) (inr f) (inl refl)

-- After createInstance: an error is returned, and an instance is settled.
Runs-after_create_instance :
    (b : SyntheticBinding) (uri : String) (answer : Answer Instance) (h : History)
    → HasOwn b h
    → Created b uri answer
    → Runs
        (WritesOwn b)
        (OnSuccess (λ h'. (uri ≢ "") × InstanceSettled b h'))
        ⊥
        h
        (after_create_instance answer)
unfolding keep_pvc_names
Runs-after_create_instance b uri (none, none) h has (empty, failed) = absurd (cc)
Runs-after_create_instance b uri (none, some err) h has (empty, failed) =
    returns h (some err) (λ q. cc)
Runs-after_create_instance b uri (some new, some err) h has (nonempty, ok, wanted) = absurd (cc)
Runs-after_create_instance b uri (some new, none) h has (nonempty, ok, wanted) =
    calls h (cached_get management instances new.metadata.namespace new.metadata.name) _
      (inr (has, (refl, refl, ap (λ m. m.namespace) wanted.0, ap (λ m. m.name) wanted.0)))
      λ answer.
        Runs-mono (reconcile_instance new answer) _ (λ h' err q p. (nonempty, q p))
          (Runs-reconcile_instance b new wanted answer _ (HasOwn-lasts b _ h has) (
            found b new wanted answer
              (event (cached_get management instances new.metadata.namespace new.metadata.name)
                  answer
                ∷ h)
              (inl refl)))

-- The binding uses the shared instance: it is not the system binding, and the variable says so.
abbrev pub UsesShared : SyntheticBinding → History → Type 0
UsesShared b h =
    (v : Option String) × In (event (lookup_env shared_vmi_variable) v) h
    × (vmi_system_binding_name ≢ b.name)
    × (shared_by v ≡ true)

-- CreateUpdateVmi does not panic. It looks up and writes nothing but the binding's own instance,
-- and this only if the binding is the system binding or the shared instance is off: it creates it
-- only where the lister found none, and updates it only where it found one, of which the new one
-- keeps the volume claims of its three storages and the version. What is written has the binding's
-- name and labels, the Verrazzano namespace, and replica counts of 32 bits. Where it returns no
-- error, the binding uses the shared instance, or the URI is not empty and the binding's instance
-- was found without a difference, updated or created.
pub create_update_vmi_lem :
    (b : SyntheticBinding) (uri storage : String)
    → Ensures
        (WritesOwn b)
        (OnSuccess (λ h. UsesShared b h ⊎ ((uri ≢ "") × InstanceSettled b h)))
        (create_update_vmi b uri storage)
unfolding create_update_vmi shared_vmi_default is_system_profile_binding_name
create_update_vmi_lem b uri storage h =
    calls h (lookup_env shared_vmi_variable) _ (inl tt)
      λ v. go v (Bool-cases (shared_by v)) (Bool-cases (vmi_system_binding_name == b.name))
  where
    create :
        (v : Option String)
        → HasOwn b (event (lookup_env shared_vmi_variable) v ∷ h)
        → Runs
            (WritesOwn b)
            (OnSuccess (λ h. UsesShared b h ⊎ ((uri ≢ "") × InstanceSettled b h)))
            ⊥
            (event (lookup_env shared_vmi_variable) v ∷ h)
            (create_instance b uri storage >>= after_create_instance)
    create v has = Runs-bind (create_instance b uri storage) after_create_instance _ (
        Runs-mono (create_instance b uri storage) _
          (λ h' answer (made, own).
            Runs-mono (after_create_instance answer) h' (λ h'' err q p. inr (q p))
              (Runs-after_create_instance b uri answer h' own made))
          (Runs-frame (HasOwn b) (HasOwn-lasts b) (create_instance b uri storage) _ has (
            Runs-weaken (create_instance b uri storage) _ (λ h' r g. inl g)
              (create_instance_lem b uri storage _))))

    go :
        (v : Option String)
        → (shared_by v ≡ true) ⊎ (shared_by v ≡ false)
        → ((vmi_system_binding_name == b.name) ≡ true)
          ⊎ ((vmi_system_binding_name == b.name) ≡ false)
        → Runs
            (WritesOwn b)
            (OnSuccess (λ h. UsesShared b h ⊎ ((uri ≢ "") × InstanceSettled b h)))
            ⊥
            (event (lookup_env shared_vmi_variable) v ∷ h)
            (if shared_by v && not (vmi_system_binding_name == b.name)
              then ret none
              else create_instance b uri storage >>= after_create_instance)
    go v (inl on) (inr other) =
        rw (on, other)
          (returns _ none (λ p.
            inl (v, inl refl, (λ q. ground (arith, eq_iff vmi_system_binding_name b.name)), on)))
    go v (inl on) (inl system) =
        rw (on, system)
          (create v (v, inl refl, inl ((eq_iff vmi_system_binding_name b.name).0 system)))
    go v (inr off) q = rw off (create v (v, inl refl, inr off))
