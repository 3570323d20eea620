-- ===== src/Controller/Keeping.antt =====
-- pkg/controller/controller.go: the handlers for bindings keep the controller consistent.
use verrazzano_operator.Prelude.{
  Bool, true, false, Option, none, some, ◌==◌, Bool-cases, Option-cases, inl, inr, if◌then◌else◌,
  is_some,
}
use verrazzano_operator.Prelude.Maps.{lookup}
use verrazzano_operator.Types.{SyntheticBinding}
use verrazzano_operator.Util.{contains}
use verrazzano_operator.Kube.{History, Error}
use verrazzano_operator.Prog.{Prog, ret}
use verrazzano_operator.Prog.Rules.{Runs, returns, Runs-bind, Runs-any}
use verrazzano_operator.Controller.{
  Controller, binding_finalizer, put_binding, set_count, Noted, skip, sync, count_sync,
  note_binding, renew_pair, adopt_binding, forget_binding, ltb,
}
use verrazzano_operator.Controller.Resources.{delete_resources}
use verrazzano_operator.Controller.Handlers.{
  process_application_binding_deleted, process_application_binding_added, sync_binding, after_noted,
}
use verrazzano_operator.Controller.Consistency.{
  IsConsistent, Recorded, put_binding-Recorded, put_binding-IsConsistent, renew_pair-IsConsistent,
  adopt_binding-IsConsistent, forget_binding-IsConsistent,
}

-- A noted binding is recorded, and the controller is still consistent.
abbrev NotedOk : SyntheticBinding → Noted → Type 0
NotedOk b (skip c) = IsConsistent c
NotedOk b (sync c) = Recorded c.application_bindings b.name × IsConsistent c

count_sync-NotedOk :
    (b : SyntheticBinding) (c : Controller)
    → Recorded c.application_bindings b.name
    → IsConsistent c
    → NotedOk b (count_sync b c)
unfolding set_count count_sync
count_sync-NotedOk b c r w = elim (Option-cases (lookup b.name c.binding_sync_threshold)) [
  | inl e ↦ rw (e, count_sync) w
  | inr (n, e) ↦ elim (Bool-cases (ltb n 4)) [
    | inl p ↦ rw (e, p, count_sync) w
    | inr p ↦ rw (e, p, count_sync) (r, w)
  ]
]

note_binding-NotedOk :
    (b : SyntheticBinding) (c : Controller) → IsConsistent c → NotedOk b (note_binding b c)
unfolding note_binding
note_binding-NotedOk b c w =
    let put : NotedOk b (sync (put_binding b c)) =
      (put_binding-Recorded b c, put_binding-IsConsistent b c w) in
    elim (Option-cases (lookup b.name c.application_bindings)) [
      | inl e ↦ rw (e, note_binding) put
      | inr (o, e) ↦ elim (Bool-cases (o.resource_version == b.resource_version)) [
        | inl p ↦ rw (e, p, note_binding) (count_sync-NotedOk b c (o, e) w)
        | inr p ↦ rw (e, p, note_binding) put
      ]
    ]

-- Whatever is called and answered, a result satisfies `P`; there may be none.
abbrev pub Returns : {A : Type 0} → (A → Type 0) → Prog A → Type 0
Returns P p = (h : History) → Runs (λ _ _. Unit {0}) (λ _ a. P a) (Unit {0}) h p

Returns-if :
    {A : Type 0} {P : A → Type 0} (q : Bool) (x y : Prog A)
    → Returns P x
    → Returns P y
    → Returns P (if q then x else y)
Returns-if true x y f g = f
Returns-if false x y f g = g

after_noted-IsConsistent :
    (b : SyntheticBinding) (n : Noted) → NotedOk b n → Returns IsConsistent (after_noted b n)
after_noted-IsConsistent b (skip c) w h = returns h c w
after_noted-IsConsistent b (sync c) w h = Runs-bind (sync_binding b (renew_pair b c)) _ h (
    Runs-any (sync_binding b (renew_pair b c)) h
      λ h' a. returns h' (renew_pair b c) (renew_pair-IsConsistent b c w.0 w.1))

pub process_application_binding_deleted-IsConsistent :
    (b : SyntheticBinding) (c : Controller)
    → IsConsistent c
    → Returns IsConsistent (process_application_binding_deleted b c)
unfolding process_application_binding_deleted
process_application_binding_deleted-IsConsistent b c w h =
    elim (Bool-cases (contains b.finalizers binding_finalizer)) [
      | inr e ↦ rw (e, process_application_binding_deleted) (returns h c w)
      | inl e ↦ elim (Option-cases (lookup b.name c.synthetic_model_bindings)) [
        | inl p ↦ rw (e, p, process_application_binding_deleted) (returns h c w)
        | inr (mb, p) ↦
            rw (e, p, process_application_binding_deleted)
              (Runs-bind (delete_resources b mb c) _ h
                (Runs-any (delete_resources b mb c) h λ h' err. last err h'))
      ]
    ]
  where
    last :
        (err : Option Error)
        → Returns IsConsistent (ret (if is_some err then c else forget_binding b c))
    last none h' = returns h' (forget_binding b c) (forget_binding-IsConsistent b c w)
    last (some e) h' = returns h' c w

pub process_application_binding_added-IsConsistent :
    (b : SyntheticBinding) (c : Controller)
    → IsConsistent c
    → Returns IsConsistent (process_application_binding_added b c)
unfolding process_application_binding_added
process_application_binding_added-IsConsistent b c w h = elim (Option-cases b.deletion_timestamp) [
  | inl e ↦
      rw (e, process_application_binding_added)
        (after_noted-IsConsistent b (note_binding b c) (note_binding-NotedOk b c w) h)
  | inr (t, e) ↦
      rw (e, process_application_binding_added)
        (Returns-if (contains b.finalizers binding_finalizer)
          (process_application_binding_deleted b (adopt_binding b c)) (ret c)
          (process_application_binding_deleted-IsConsistent b (adopt_binding b c)
            (adopt_binding-IsConsistent b c w))
          (λ h'. returns h' c w) h)
]
