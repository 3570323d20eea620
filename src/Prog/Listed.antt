-- ===== src/Prog/Listed.antt =====
-- The rule for loops over the answer of a lister.
use verrazzano_operator.Prelude.{refl, Option, none, List, ◌∷◌, String, inl, inr}
use verrazzano_operator.Prelude.Slices.{All, In, All-map}
use verrazzano_operator.Kube.{
  Request, Error, event, History, Client, Kind, Obj, Selector, cached_list,
}
use verrazzano_operator.Prog.{Prog, for_each, for_each_listed}
use verrazzano_operator.Prog.Rules.{
  Runs, calls, Lasts, OnSuccess, Runs-or_return, Runs-mono, Runs-frame, Runs-for_each,
}

-- The lister gave this list, without an error.
abbrev pub Listed : Client → (k : Kind) → String → Selector → List (Obj k) → History → Type 0
Listed c k ns s objs h = In (event (cached_list c k ns s) (objs, none)) h

-- The lister gave some list, without an error, and `F` holds of each of its entries.
abbrev pub ListedAll :
    Client → (k : Kind) → String → Selector → (Obj k → History → Type 0) → History → Type 0
ListedAll c k ns s F h = (objs : List (Obj k)) × Listed c k ns s objs h × All (λ o. F o h) objs

pub ListedAll-lasts :
    (c : Client) (k : Kind) (ns : String) (s : Selector) (F : Obj k → History → Type 0)
    → ((o : Obj k) → Lasts (F o))
    → Lasts (ListedAll c k ns s F)
ListedAll-lasts c k ns s F kept e h (objs, m, a) = (objs, inr m, All-map objs (λ o. kept o e h) a)

module _ {G : History → Request → Type 0} {X : Type 0} (c : Client) (k : Kind) (ns : String)
    (s : Selector) (J : History → Type 0) (F : Obj k → History → Type 0) (lasts : Lasts J)
    (kept : (o : Obj k) → Lasts (F o)) (body : Obj k → Prog (Option Error)) where
  pub Runs-for_each_listed :
      ((objs : List (Obj k)) (o : Obj k)
        → In o objs
        → (h : History) → Listed c k ns s objs h
        → J h
        → Runs G (OnSuccess (F o)) X h (body o))
      → (h : History) → G h (cached_list c k ns s)
      → J h
      → Runs G (OnSuccess (ListedAll c k ns s F)) X h (for_each_listed c k ns s body)
  unfolding for_each_listed
  Runs-for_each_listed each h g j = calls h (cached_list c k ns s) _ g λ (objs, err).
      Runs-or_return err (for_each body objs) (event (cached_list c k ns s) (objs, err) ∷ h) λ p.
        rw p (
          Runs-mono (for_each body objs) _ (λ h' e q r. (objs, q.1, q.0 r))
            (Runs-frame (Listed c k ns s objs) (λ e h' m. inr m) (for_each body objs) _ (inl refl)
              (Runs-for_each (λ h'. Listed c k ns s objs h' × J h') F
                (λ e h' q. (inr q.0, lasts e h' q.1)) kept body objs
                (λ o m h' q. each objs o m h' q.0 q.1) _ (inl refl, lasts _ h j))))
