-- ===== src/Managed/Namespaces/Waits.antt =====
-- A namespace counts as removed only when the API server has said so.
use verrazzano_operator.Prelude.{ℕ, zero, suc, String, Option, none, some, refl, inl, inr}
use verrazzano_operator.Prelude.Slices.{In}
use verrazzano_operator.Kube.{
  Error, not_found, History, Request, event, Connection, managed, Namespace, namespaces, live_get,
  delete, timers, Answer,
}
use verrazzano_operator.Prog.Rules.{
  Runs, calls, returns, OnSuccess, Lasts, Runs-mono, Runs-frame, Runs-or_return,
}
use verrazzano_operator.Managed.Namespaces.{
  await_removal, removal_answer, wait_for_ns_deletion, delete_and_wait, Prog, finish_or,
}

-- The API server answered that there is no such namespace.
abbrev pub Gone : Connection → String → History → Type 0
Gone conn n h =
    (o : Option Namespace) × In
      (event (live_get (managed conn) namespaces "" n) (o, some not_found)) h

-- Its deletion was accepted, and the API server answered that it does not exist.
abbrev pub Removed : Connection → String → History → Type 0
Removed conn n h = In (event (delete (managed conn) namespaces "" n) none) h × Gone conn n h

pub Removed-lasts : (conn : Connection) (n : String) → Lasts (Removed conn n)
Removed-lasts conn n e h (d, (o, g)) = (inr d, (o, inr g))

module _ {G : History → Request → Type 0} {X : Type 0} (conn : Connection) (n cluster : String)
    (may_get : (h : History) → G h (live_get (managed conn) namespaces "" n)) where
  Runs-removal_answer :
      (rest : Prog (Option Error)) (answer : Answer Namespace) (h : History)
      → In (event (live_get (managed conn) namespaces "" n) answer) h
      → Runs G (OnSuccess (Gone conn n)) X h rest
      → Runs G (OnSuccess (Gone conn n)) X h (finish_or (removal_answer n cluster answer) rest)
  unfolding removal_answer
  Runs-removal_answer rest (o, none) h m r = r
  Runs-removal_answer rest (o, some not_found) h m r = returns h none (λ _. (o, m))
  Runs-removal_answer rest (o, some _) h m r = returns h _ (λ p. cc)

  Runs-await_removal :
      (ticks : ℕ) (h : History)
      → Runs G (OnSuccess (Gone conn n)) X h (await_removal conn n cluster ticks)
  unfolding await_removal
  Runs-await_removal zero h = returns h _ (λ p. cc)
  Runs-await_removal (suc ticks) h =
      calls h _ _ (may_get h)
        λ answer. Runs-removal_answer _ answer _ (inl refl) (Runs-await_removal ticks _)

  -- Success means that the deletion was accepted and the namespace is gone.
  pub Runs-delete_and_wait :
      ((h : History) → G h (timers 120 1))
      → (h : History) → G h (delete (managed conn) namespaces "" n)
      → Runs G (OnSuccess (Removed conn n)) X h (delete_and_wait conn cluster n)
  unfolding delete_and_wait wait_for_ns_deletion
  Runs-delete_and_wait may_wait h g = calls h _ _ g λ err. Runs-or_return err _ _ λ p.
      calls _ _ _ (may_wait _) λ ticks.
        Runs-mono (await_removal conn n cluster ticks) _ (λ h' e q r. (q.1, q.0 r))
          (Runs-frame (In (event (delete (managed conn) namespaces "" n) none)) (λ e h' m. inr m)
            (await_removal conn n cluster ticks) _ (rw p (inr (inl refl)))
            (Runs-await_removal ticks _))
