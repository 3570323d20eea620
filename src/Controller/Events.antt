-- ===== src/Controller/Events.antt =====
-- pkg/controller/controller.go: the controller under any sequence of events, one after another.
use verrazzano_operator.Prelude.{String, none, some, List, [], ◌∷◌, Option-cases, inl, inr}
use verrazzano_operator.Prelude.Maps.{lookup}
use verrazzano_operator.Kube.{Answer, Connection, ServiceAccount, event}
use verrazzano_operator.Prog.{Prog, ret, ◌>>=◌}
use verrazzano_operator.Prog.Rules.{returns, panics, calls, Runs-bind, Runs-any, Runs-mono}
use verrazzano_operator.Types.{SyntheticBinding, SyntheticModel}
use verrazzano_operator.Controller.{
  Controller, process_application_model_added, process_application_model_deleted,
}
use verrazzano_operator.Controller.Resources.{
  get_cluster_info, create_managed_cluster_resources_for_binding,
}
use verrazzano_operator.Controller.Handlers.{
  process_application_binding_deleted, process_application_binding_added, process_managed_cluster,
  with_service_account, when_built, put_connection, system_pair, synced_informers,
}
use verrazzano_operator.Controller.Consistency.{
  IsConsistent, process_application_model_added-IsConsistent,
  process_application_model_deleted-IsConsistent,
}
use verrazzano_operator.Controller.Keeping.{
  Returns, process_application_binding_deleted-IsConsistent,
  process_application_binding_added-IsConsistent,
}

pub data Occurrence : Type 0 where
  model_added : SyntheticModel → Occurrence
  model_deleted : SyntheticModel → Occurrence
  binding_added : SyntheticBinding → Occurrence
  binding_deleted : SyntheticBinding → Occurrence
  cluster_added : String → String → Occurrence

abbrev pub handle : Occurrence → Controller → Prog Controller
handle (model_added model) c = ret (process_application_model_added model c)
handle (model_deleted model) c = ret (process_application_model_deleted model c)
handle (binding_added binding) c = process_application_binding_added binding c
handle (binding_deleted binding) c = process_application_binding_deleted binding c
handle (cluster_added cluster_name path) c = process_managed_cluster cluster_name path c

unfoldable pub handle_all : List Occurrence → Controller → Prog Controller
handle_all [] c = ret c
handle_all (o ∷ os) c = handle o c >>= handle_all os

Returns-bind :
    {A B : Type 0} {P : A → Type 0} {Q : B → Type 0} (m : Prog A) (f : A → Prog B)
    → Returns P m
    → ((a : A) → P a → Returns Q (f a))
    → Returns Q (m >>= f)
Returns-bind m f e next h = Runs-bind m f h (Runs-mono m h (λ h' a p. next a p h') (e h))

Returns-any : {A : Type 0} {P : A → Type 0} (m : Prog A) → ((a : A) → P a) → Returns P m
Returns-any m q h = Runs-any m h (λ h' a. q a)

when_built-IsConsistent :
    (cluster_name : String) (c : Controller) (answer : Answer Connection)
    → IsConsistent c
    → Returns IsConsistent (when_built cluster_name c answer)
unfolding put_connection
when_built-IsConsistent cluster_name c (found, some e) w = λ h. returns h c w
when_built-IsConsistent cluster_name c (none, none) w = λ h. panics h tt
when_built-IsConsistent cluster_name c (some conn, none) w =
    let c1 = put_connection cluster_name conn c in
    let wait = c.packages.wait_for_cache_sync c.stop_ch (synced_informers conn) in
    Returns-bind {P = λ a. Unit {0}} wait _ (Returns-any wait (λ a. tt)) λ a u.
      Returns-bind {P = λ a. Unit {0}} get_cluster_info _ (Returns-any get_cluster_info (λ a. tt))
        λ info u'.
          Returns-bind {P = λ a. Unit {0}}
            (create_managed_cluster_resources_for_binding (system_pair cluster_name c1) info c1) _
            (Returns-any _ (λ a. tt)) λ err u'' h. returns h c1 w

process_managed_cluster-IsConsistent :
    (cluster_name path : String) (c : Controller)
    → IsConsistent c
    → Returns IsConsistent (process_managed_cluster cluster_name path c)
unfolding process_managed_cluster
process_managed_cluster-IsConsistent cluster_name path c w h =
    calls h _ _ tt (λ answer. with_account answer (event _ answer ∷ h))
  where
    with_account :
        (answer : Answer ServiceAccount)
        → Returns IsConsistent (with_service_account cluster_name path c answer)
    with_account (found, some e) h' = returns h' c w
    with_account (none, none) h' = panics h' tt
    with_account (some sa, none) h' =
        let c1 : Controller = record c { image_pull_secrets = sa.image_pull_secrets } in
        let build = c.packages.managed.build_managed_cluster_connection path c.stop_ch in
        elim (Option-cases (lookup cluster_name c.managed_cluster_connections)) [
          | inr (conn, e) ↦ rw (e, with_service_account) (returns h' c1 w)
          | inl e ↦
              rw (e, with_service_account)
                (Returns-bind {P = λ a. Unit {0}} build (when_built cluster_name c1)
                  (Returns-any build (λ a. tt))
                  (λ answer u. when_built-IsConsistent cluster_name c1 answer w) h')
        ]

handle-IsConsistent :
    (o : Occurrence) (c : Controller) → IsConsistent c → Returns IsConsistent (handle o c)
handle-IsConsistent (model_added model) c w =
    λ h. returns h _ (process_application_model_added-IsConsistent model c w)
handle-IsConsistent (model_deleted model) c w =
    λ h. returns h _ (process_application_model_deleted-IsConsistent model c w)
handle-IsConsistent (binding_added b) c w = process_application_binding_added-IsConsistent b c w
handle-IsConsistent (binding_deleted b) c w = process_application_binding_deleted-IsConsistent b c w
handle-IsConsistent (cluster_added n path) c w = process_managed_cluster-IsConsistent n path c w

-- Let each recorded binding stand under its name, and each pair under its binding's name, with
-- clusters under their own distinct names and with its binding recorded. Whatever sequence of
-- models, bindings and clusters the controller handles, one after another, and whatever is answered
-- to its calls, all this still holds of the controller that results, if no handler panics.
pub handle_all-IsConsistent :
    (os : List Occurrence) (c : Controller)
    → IsConsistent c
    → Returns IsConsistent (handle_all os c)
unfolding handle_all
handle_all-IsConsistent [] c w = λ h. returns h c w
handle_all-IsConsistent (o ∷ os) c w =
    Returns-bind (handle o c) (handle_all os) (handle-IsConsistent o c w)
      (λ c' w'. handle_all-IsConsistent os c' w')
