-- ===== src/Controller/Pairing.antt =====
-- pkg/controller/controller.go: which binding gets its pair when a model arrives, and the wait for
-- a pair's clusters.
use verrazzano_operator.Prelude.{
  String, ◌≡◌, ◌≢◌, refl, ℕ, zero, suc, Option, none, some, [], ◌∷◌, ◌==◌, Bool-cases, Option-cases,
  inl, inr, ◌⊎◌, eq_iff, arith,
}
use verrazzano_operator.Prelude.Slices.{All, Any, In}
use verrazzano_operator.Prelude.Maps.{Map, lookup, insert}
use verrazzano_operator.Kube.{
  Error, clusters_timeout, clusters_still_missing, timers, Connection, History, event,
}
use verrazzano_operator.Types.{SyntheticBinding, SyntheticModel, SyntheticModelBinding}
use verrazzano_operator.Util.{unavailable, get_managed_clusters_for_verrazzano_binding}
use verrazzano_operator.Util.Clusters.{HasConnection, Blames, get_managed_clusters_cases}
use verrazzano_operator.Prog.Rules.{Runs, calls, returns}
use verrazzano_operator.Controller.{
  Controller, add_pair, pair_first, put_model, process_application_model_added,
}
use verrazzano_operator.Controller.Resources.{await_clusters, wait_for_managed_clusters}

-- A binding of the model that has no pair.
abbrev pub Waits : SyntheticModel → Controller → SyntheticBinding → Type 0
Waits model c b =
    (lookup b.name c.synthetic_model_bindings ≡ none) × (model.name ≡ b.spec.model_name)

pair_first_cases :
    (model : SyntheticModel) (bindings : Map SyntheticBinding) (c : Controller)
    → (All (λ kv. Waits model c kv.1 → ⊥) bindings × (pair_first model bindings c ≡ c))
      ⊎ ((kv : String × SyntheticBinding) × In kv bindings
          × Waits model c kv.1
          × (pair_first model bindings c ≡ add_pair model kv.1 c))
unfolding pair_first
pair_first_cases model [] c = inl (tt, refl)
pair_first_cases model ((k, b) ∷ rest) c =
    elim (Option-cases (lookup b.name c.synthetic_model_bindings)) [
      | inl e ↦ elim (Bool-cases (model.name == b.spec.model_name)) [
        | inl p ↦ inr (
          (k, b),
          inl refl,
          (e, (eq_iff model.name b.spec.model_name).0 p),
          rw (e, p, pair_first) refl,
        )
        | inr p ↦ elim (pair_first_cases model rest c) [
          | inl (free, q) ↦ inl (
            (λ w. ground (arith, eq_iff model.name b.spec.model_name), free),
            rw (e, p, pair_first) q,
          )
          | inr (kv, i, w, q) ↦ inr (kv, inr i, w, rw (e, p, pair_first) q)
        ]
      ]
      | inr (mb, e) ↦ elim (pair_first_cases model rest c) [
        | inl (free, q) ↦ inl ((λ w. cc, free), rw (e, pair_first) q)
        | inr (kv, i, w, q) ↦ inr (kv, inr i, w, rw (e, pair_first) q)
      ]
    ]

-- A model that the controller does not know, or knows in another version, is recorded; if no
-- recorded binding of the model is without a pair, nothing else changes; otherwise one such binding
-- gets its pair and nothing else changes, so the others stay without one.
pub process_application_model_added_cases :
    (model : SyntheticModel) (c : Controller)
    → ((old : SyntheticModel)
        → lookup model.name c.application_models ≡ some old
        → old.resource_version ≢ model.resource_version)
    → let c1 : Controller = record c {
      application_models = insert model.name model c.application_models;
    } in
      (All (λ kv. Waits model c kv.1 → ⊥) c.application_bindings
        × (process_application_model_added model c ≡ c1))
      ⊎ ((kv : String × SyntheticBinding) × In kv c.application_bindings
          × Waits model c kv.1
          × (process_application_model_added model c ≡ add_pair model kv.1 c1))
unfolding process_application_model_added put_model
process_application_model_added_cases model c new =
    elim (Option-cases (lookup model.name c.application_models)) [
      | inl e ↦
          rw (e, process_application_model_added) (pair_first_cases model c.application_bindings _)
      | inr (old, e) ↦ elim (Bool-cases (old.resource_version == model.resource_version)) [
        | inl p ↦ elim (new old e ((eq_iff old.resource_version model.resource_version).0 p)) [ ]
        | inr p ↦
            rw (e, p, process_application_model_added)
              (pair_first_cases model c.application_bindings _)
      ]
    ]

-- How a wait ends, after this many ticks before the timeout: at once if there was none; at the first
-- if every cluster of the pair has a connection; and otherwise after all of them, with the last
-- error, which names a cluster that has none.
abbrev pub WaitOutcome : SyntheticModelBinding → String → Map Connection → ℕ → Option Error → Type 0
WaitOutcome mb name available zero err = err ≡ some (clusters_timeout name)
WaitOutcome mb name available (suc ticks) err =
    (All (HasConnection available) mb.managed_clusters × (err ≡ none))
    ⊎ ((e : Error) × Any (Blames mb.syn_binding.name available e) mb.managed_clusters
        × (err ≡ some (clusters_still_missing name e)))

await_missing :
    (name : String) (e : Error) (ticks : ℕ)
    → await_clusters name (unavailable e) ticks (some e) ≡ some (clusters_still_missing name e)
unfolding await_clusters
await_missing name e zero = refl
await_missing name e (suc ticks) = await_missing name e ticks

await_clusters_cases :
    (mb : SyntheticModelBinding) (name : String) (available : Map Connection) (ticks : ℕ)
    → WaitOutcome mb name available ticks
        (await_clusters name (get_managed_clusters_for_verrazzano_binding mb available) ticks none)
unfolding await_clusters
await_clusters_cases mb name available zero = refl
await_clusters_cases mb name available (suc ticks) =
    elim (get_managed_clusters_cases mb available) [
      | inl (m, found, all) ↦ rw found (inl (all, refl))
      | inr (e, missing, any) ↦ rw missing (inr (e, any, await_missing name e ticks))
    ]

-- With the filter of the source, waitForManagedClusters does not panic and makes just one call, for
-- a timeout of 60 seconds and a tick of 5. If the timeout comes before any tick, it returns the
-- timeout without an error in it. If not, it returns no error exactly where every cluster of the
-- pair has a connection; otherwise it returns the timeout with the last error in it, which names a
-- cluster of the pair that has no connection.
pub wait_for_managed_clusters_lem :
    (mb : SyntheticModelBinding) (name : String) (c : Controller)
    → c.packages.filter ≡ get_managed_clusters_for_verrazzano_binding
    → (h : History)
    → Runs
        (λ h' r. (h' ≡ h) × (r ≡ timers 60 5))
        (λ h' err.
          (ticks : ℕ) × (h' ≡ event (timers 60 5) ticks ∷ h)
          × WaitOutcome mb name c.managed_cluster_connections ticks err)
        ⊥
        h
        (wait_for_managed_clusters mb name c)
unfolding wait_for_managed_clusters
wait_for_managed_clusters_lem mb name c own_filter h = rw own_filter (
    calls h (timers 60 5) _ (refl, refl)
      λ ticks.
        returns _ _ (ticks, refl, await_clusters_cases mb name c.managed_cluster_connections ticks))
