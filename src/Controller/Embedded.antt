-- ===== src/Controller/Embedded.antt =====
-- pkg/controller/controller.go: the handlers with the methods of `managedPackage`, some of which
-- are those of a nil interface.
use verrazzano_operator.Prelude.{
  ◌≡◌, refl, true, Option, none, some, [], ◌∷◌, if◌then◌else◌, is_some, Option-cases, Bool-cases,
  inl, inr,
}
use verrazzano_operator.Prelude.Maps.{lookup}
use verrazzano_operator.Kube.{Error, History}
use verrazzano_operator.Prog.{Prog, ret, panic, ◌>>=◌, for_each, or_return}
use verrazzano_operator.Prog.Rules.{Runs, returns, panics, Runs-bind, Runs-any, Runs-mono}
use verrazzano_operator.Types.{SyntheticBinding, SyntheticModelBinding}
use verrazzano_operator.Util.{contains}
use verrazzano_operator.Packages.{managed_package}
use verrazzano_operator.Controller.{Controller, binding_finalizer, forget_binding}
use verrazzano_operator.Controller.Resources.{
  delete_local_resources, delete_managed_resources, delete_resources, cleanup_orphaned_resources,
  get_cluster_info, create_managed_cluster_resources_for_binding, run_until_error, run_all,
  delete_shared_resources,
}
use verrazzano_operator.Controller.Handlers.{
  process_application_binding_deleted, sync_resources, create_update_global_entities,
}

-- Whatever is called and answered, a result satisfies `P`; there may be none.
abbrev Yields : {A : Type 0} → (A → Type 0) → History → Prog A → Type 0
Yields P h p = Runs (λ _ _. Unit {0}) (λ _ a. P a) (Unit {0}) h p

Yields-bind :
    {A B : Type 0} (P : B → Type 0) (m : Prog A) (f : A → Prog B) (h : History)
    → ((h' : History) (a : A) → Yields P h' (f a))
    → Yields P h (m >>= f)
Yields-bind P m f h q = Runs-bind m f h (Runs-any m h q)

module _ (c : Controller) (own : c.packages.managed ≡ managed_package) where
  delete_managed_resources-panic :
      (mb : SyntheticModelBinding) → delete_managed_resources mb c ≡ panic
  unfolding delete_managed_resources managed_package run_until_error for_each
  delete_managed_resources-panic mb = rw own refl

  cleanup_orphaned_resources-panic :
      (mb : SyntheticModelBinding) → cleanup_orphaned_resources mb c ≡ panic
  unfolding cleanup_orphaned_resources managed_package run_all
  cleanup_orphaned_resources-panic mb = rw own refl

  delete_resources-fails :
      (b : SyntheticBinding) (mb : SyntheticModelBinding) (h : History)
      → Yields (λ err. is_some err ≡ true) h (delete_resources b mb c)
  unfolding delete_resources run_until_error for_each
  delete_resources-fails b mb h =
      Yields-bind (λ err. is_some err ≡ true) (delete_local_resources b c.packages.local) _ h last
    where
      last :
          (h' : History) (err : Option Error)
          → Yields
              (λ err'. is_some err' ≡ true)
              h'
              (or_return err (
                run_until_error
                  (delete_managed_resources mb c ∷ delete_shared_resources mb c ∷ [])))
      last h' none = rw (delete_managed_resources-panic mb) (panics h' tt)
      last h' (some e) = returns h' (some e) refl

  -- If the controller's `managed` field is the `managedPackage` of the source, then the handler
  -- never removes anything from the controller's maps: whatever the other packages do, a run that
  -- returns at all returns the controller as it was; the other runs panic.
  pub process_application_binding_deleted-unchanged :
      (b : SyntheticBinding) (h : History)
      → Yields (λ c'. c' ≡ c) h (process_application_binding_deleted b c)
  unfolding process_application_binding_deleted
  process_application_binding_deleted-unchanged b h =
      elim (Bool-cases (contains b.finalizers binding_finalizer)) [
        | inr f ↦ rw (f, process_application_binding_deleted) (returns h c refl)
        | inl f ↦ elim (Option-cases (lookup b.name c.synthetic_model_bindings)) [
          | inl p ↦ rw (f, p, process_application_binding_deleted) (returns h c refl)
          | inr (mb, p) ↦
              rw (f, p, process_application_binding_deleted)
                (Runs-bind (delete_resources b mb c) _ h
                  (Runs-mono (delete_resources b mb c) h last (delete_resources-fails b mb h)))
        ]
      ]
    where
      last :
          (h' : History) (err : Option Error)
          → is_some err ≡ true
          → Yields (λ c'. c' ≡ c) h' (ret (if is_some err then c else forget_binding b c))
      last h' err e = rw e (returns h' c refl)

  -- If the controller's `managed` field is the `managedPackage` of the source, then no run that
  -- begins to synchronise a pair's resources returns, whatever the other packages do: each one
  -- panics.
  pub sync_resources-panics :
      (b : SyntheticBinding) (mb : SyntheticModelBinding) (h : History)
      → Yields (λ err. ⊥) h (sync_resources b mb c)
  unfolding sync_resources
  sync_resources-panics b mb h =
      Yields-bind (λ err. ⊥) (create_update_global_entities b c) _ h
        λ h1 a1.
          Yields-bind (λ err. ⊥) (c.packages.local.update_acme_dns_secret b _ c.verrazzano_uri) _ h1
            λ h2 a2.
              Yields-bind (λ err. ⊥) get_cluster_info _ h2
                λ h3 info.
                  Yields-bind (λ err. ⊥) (create_managed_cluster_resources_for_binding mb info c) _
                    h3 λ h4 a4. rw (cleanup_orphaned_resources-panic mb) (panics h4 tt)
