-- ===== src/Managed/Secrets/Sources.antt =====
-- A new secret is a copy of one that the management cluster holds.
use verrazzano_operator.Prelude.{
  ◌≡◌, ◌≢◌, refl, none, some, Option, [], ◌∷◌, inl, inr, String, ◌==◌, Bool-cases, eq_refl,
}
use verrazzano_operator.Prelude.Slices.{In, All, All-self}
use verrazzano_operator.Prelude.Maps.{Map, lookup, insert, insert-Entries, lookup-insert}
use verrazzano_operator.Constants.{default_namespace, verrazzano_namespace}
use verrazzano_operator.Kube.{
  History, Request, Client, Error, Answer, event, management, managed, Secret, secrets, cached_get,
  live_get, create, update, diff,
}
use verrazzano_operator.Prog.{Prog}
use verrazzano_operator.Prog.Rules.{Runs, calls, returns, panics, Lasts, Runs-bind, Runs-mono}
use verrazzano_operator.Local.Secrets.{get_secret, nil_on_error}
use verrazzano_operator.Managed.Secrets.{
  wls_runtime_encryption_secret, copied_secret, copy_into, copy_got, or_else_system, new_secret,
}

-- The two contents have the same keys, and each entry of the copy is one of the source.
abbrev pub SameContent : Map String → Map String → Type 0
SameContent source copy =
    All (λ kv. In kv source) copy × All (λ kv. (v : String) × (lookup kv.0 copy ≡ some v)) source

-- The secret is a copy, with no labels, of one that was read from the management cluster under the
-- same name: it has that one's type and content.
abbrev pub IsCopy : Secret → History → Type 0
IsCopy o h =
    (source : Secret) × (ns : String) × In
      (event (live_get management secrets ns o.metadata.name) (some source, none)) h
    × (o.metadata.labels ≡ [])
    × (o.secret_type ≡ source.secret_type)
    × SameContent source.content o.content

pub IsCopy-lasts : (o : Secret) → Lasts (IsCopy o)
IsCopy-lasts o e h (s, ns, m, labels, type, content) = (s, ns, inr m, labels, type, content)

module _ (P : String × String → Type 0) where
  copy_into-All : (to from : Map String) → All P to → All P from → All P (copy_into to from)
  unfolding copy_into
  copy_into-All to [] t f = t
  copy_into-All to ((k, v) ∷ from) t f =
      copy_into-All (insert k v to) from (insert-Entries P k v to f.0 t) f.1

-- A key that was written stays, whatever is written later.
lookup-copy_into :
    (k : String) (to from : Map String)
    → ((v : String) × (lookup k to ≡ some v))
    → (v : String) × (lookup k (copy_into to from) ≡ some v)
unfolding copy_into
lookup-copy_into k to [] has = has
lookup-copy_into k to ((j, w) ∷ from) (v, e) = elim (Bool-cases (j == k)) [
  | inl same ↦ lookup-copy_into k (insert j w to) from (w, rw (lookup-insert, same) refl)
  | inr other ↦ lookup-copy_into k (insert j w to) from (v, rw (lookup-insert, other) e)
]

copy_into-keys :
    (to from : Map String)
    → All (λ kv. (v : String) × (lookup kv.0 (copy_into to from) ≡ some v)) from
unfolding copy_into
copy_into-keys to [] = tt
copy_into-keys to ((k, v) ∷ from) = (
  lookup-copy_into k (insert k v to) from (v, simp (lookup-insert, eq_refl)),
  copy_into-keys (insert k v to) from,
)

copied_content : (source : Map String) → SameContent source (copy_into [] source)
copied_content source = (
  copy_into-All (λ kv. In kv source) [] source tt (All-self source (λ kv m. m)),
  copy_into-keys [] source,
)

-- Secrets are read from the management cluster; what is written to a managed cluster is a copy,
-- through a client that satisfies `P`, and no secret of the WebLogic runtime encryption type is
-- overwritten.
abbrev pub CopiesOnly : (Client → Type 0) → History → Request → Type 0
CopiesOnly P h (live_get management secrets ns n) = Unit
CopiesOnly P h (cached_get (managed conn) secrets ns n) = P (managed conn)
CopiesOnly P h (diff secrets old new) = Unit
CopiesOnly P h (create (managed conn) secrets ns o) =
    P (managed conn)
    × IsCopy o h
    × (ns ≡ o.metadata.namespace)
    × ((err : Option Error) × In
          (event (cached_get (managed conn) secrets ns o.metadata.name) (none, err)) h)
CopiesOnly P h (update (managed conn) secrets ns o) =
    P (managed conn)
    × IsCopy o h
    × (ns ≡ o.metadata.namespace)
    × ((old : Secret) × (err : Option Error) × (old.secret_type ≢ wls_runtime_encryption_secret)
        × In (event (cached_get (managed conn) secrets ns o.metadata.name) (some old, err)) h)
CopiesOnly P h _ = ⊥

abbrev pub MayPanic :
    {A : Type 0} → (Client → Type 0) → (History → A → Type 0) → History → Prog A → Type 0
MayPanic P Q = Runs (CopiesOnly P) Q (Unit {0})

-- A secret that comes without an error is a copy.
abbrev pub CopyOrError : String → String → History → Answer Secret → Type 0
CopyOrError n ns h (some o, none) = IsCopy o h
CopyOrError n ns h _ = Unit

-- What was got, unless there was an error, is in the history.
abbrev Got : String → History → Answer Secret → Type 0
Got n h (some o, none) =
    (home_ns : String) × In (event (live_get management secrets home_ns n) (some o, none)) h
Got n h _ = Unit

module _ (P : Client → Type 0) (n ns : String) where
  Runs-get_secret : (home_ns : String) (h : History) → MayPanic P (Got n) h (get_secret n home_ns)
  unfolding get_secret
  Runs-get_secret home_ns h = calls h _ _ tt λ answer. returns _ _ (got answer)
    where
      got :
          (answer : Answer Secret)
          → Got n (event (live_get management secrets home_ns n) answer ∷ h) (nil_on_error answer)
      got (some o, none) = (home_ns, inl refl)
      got (none, none) = tt
      got (some o, some e) = tt
      got (none, some e) = tt

  Runs-copy_got :
      (h : History) (answer : Answer Secret)
      → Got n h answer
      → MayPanic P (CopyOrError n ns) h (copy_got n ns [] [] answer)
  unfolding copied_secret copy_into
  Runs-copy_got h (some o, none) (hns, m) =
      returns h (some (copied_secret n ns [] [] o), none)
        (o, hns, m, refl, refl, copied_content o.content)
  Runs-copy_got h (none, none) g = panics h tt
  Runs-copy_got h (some o, some e) g = returns h _ tt
  Runs-copy_got h (none, some e) g = returns h _ tt

  Runs-or_else_system :
      (h : History) (answer : Answer Secret)
      → Got n h answer
      → MayPanic P (Got n) h (or_else_system n answer)
  Runs-or_else_system h (some o, none) g = returns h _ g
  Runs-or_else_system h (none, none) g = returns h _ tt
  Runs-or_else_system h (some o, some e) g = Runs-get_secret verrazzano_namespace h
  Runs-or_else_system h (none, some e) g = Runs-get_secret verrazzano_namespace h

  pub Runs-new_secret : (h : History) → MayPanic P (CopyOrError n ns) h (new_secret n ns [] [])
  unfolding new_secret
  Runs-new_secret h = Runs-bind _ _ h (
      Runs-mono _ h
        (λ h' first g. Runs-bind _ _ h' (
          Runs-mono _ h' (λ h'' answer g'. Runs-copy_got h'' answer g')
            (Runs-or_else_system h' first g)))
        (Runs-get_secret default_namespace h))
