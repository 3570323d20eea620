-- ===== src/Controller/Threshold.antt =====
-- pkg/controller/controller.go, processApplicationBindingAdded: how often an unchanged binding is
-- synchronised with the state of the clusters.
use verrazzano_operator.Prelude.{
  ◌≡◌, refl, ℕ, zero, suc, ◌+◌, ◌<◌, subst, ◌∙◌, true, some, eq_refl, arith, if◌then◌else◌, ltb,
}
use verrazzano_operator.Prelude.Maps.{lookup, lookup-insert}
use verrazzano_operator.Types.{SyntheticBinding}
use verrazzano_operator.Controller.{Controller, set_count, skip, sync, count_sync, note_binding}

-- The controller knows this very version of the binding.
abbrev pub IsKnown : SyntheticBinding → Controller → Type 0
IsKnown b c =
    (old : SyntheticBinding) × (lookup b.name c.application_bindings ≡ some old)
    × (old.resource_version ≡ b.resource_version)

abbrev pub HasCount : SyntheticBinding → ℕ → Controller → Type 0
HasCount b n c = lookup b.name c.binding_sync_threshold ≡ some n

-- `n` events for the binding in a row, each of which is skipped.
pub data Skips (b : SyntheticBinding) : ℕ → Controller → Controller → Type 0 where
  none_yet : (c : Controller) → Skips b 0 c c
  one_more :
      (n : ℕ) (c c1 c2 : Controller)
      → note_binding b c ≡ skip c1
      → Skips b n c1 c2
      → Skips b (suc n) c c2

set_count-HasCount :
    (b : SyntheticBinding) (n : ℕ) (c : Controller) → HasCount b n (set_count b n c)
unfolding set_count
set_count-HasCount b n c =
    rw (lookup-insert b.name b.name n c.binding_sync_threshold, eq_refl b.name) refl

set_count-IsKnown :
    (b : SyntheticBinding) (n : ℕ) (c : Controller) → IsKnown b c → IsKnown b (set_count b n c)
unfolding set_count
set_count-IsKnown b n c k = k

note_binding-count :
    (b : SyntheticBinding) (n : ℕ) (c : Controller)
    → IsKnown b c
    → HasCount b n c
    → note_binding b c ≡ (
        if ltb n 4
        then skip (set_count b (n + 1) c)
        else sync (set_count b 0 (set_count b (n + 1) c)))
unfolding note_binding count_sync
note_binding-count b n c (old, e, v) q =
    rw (e, v, eq_refl b.resource_version, q, note_binding, count_sync) refl

note_binding-skip :
    (b : SyntheticBinding) (n : ℕ) (c : Controller)
    → n < 4
    → IsKnown b c
    → HasCount b n c
    → note_binding b c ≡ skip (set_count b (n + 1) c)
note_binding-skip b n c l known count =
    let q : ltb n 4 ≡ true = ground arith in note_binding-count b n c known count ∙ rw q refl

skips :
    (b : SyntheticBinding) (k n m : ℕ) (c : Controller)
    → k + n ≡ m
    → m < 5
    → IsKnown b c
    → HasCount b n c
    → (c' : Controller) × Skips b k c c' × IsKnown b c' × HasCount b m c'
skips b zero n m c e l known count =
    let p : n ≡ m = omega arith in (c, none_yet c, known, subst (λ i. HasCount b i c) p count)
skips b (suc k) n m c e l known count =
    let c1 = set_count b (n + 1) c in
    let (c2, run, known2, count2) =
      skips b k (n + 1) m c1 (omega arith) l (set_count-IsKnown b (n + 1) c known)
        (set_count-HasCount b (n + 1) c) in
    (c2, one_more k c c1 c2 (note_binding-skip b n c (omega arith) known count) run, known2, count2)

-- If the controller knows this very version of the binding and its count is 0, then the handler
-- skips the next four events for the binding, and goes on to synchronise at the fifth; after that
-- the controller still knows this version, and the count is 0 again.
pub note_binding-period :
    (b : SyntheticBinding) (c : Controller)
    → IsKnown b c
    → HasCount b 0 c
    → (c4 : Controller) × (c5 : Controller) × Skips b 4 c c4
      × (note_binding b c4 ≡ sync c5)
      × IsKnown b c5
      × HasCount b 0 c5
note_binding-period b c known count =
    let (c4, run, known4, count4) = skips b 4 0 4 c refl (omega arith) known count in
    (
      c4,
      set_count b 0 (set_count b 5 c4),
      run,
      note_binding-count b 4 c4 known4 count4,
      set_count-IsKnown b 0 (set_count b 5 c4) (set_count-IsKnown b 5 c4 known4),
      set_count-HasCount b 0 (set_count b 5 c4),
    )
