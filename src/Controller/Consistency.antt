-- ===== src/Controller/Consistency.antt =====
-- pkg/controller/controller.go: what every handler keeps of the controller's maps.
use verrazzano_operator.Prelude.{
  String, ◌≡◌, ◌≢◌, refl, sym, subst, some, [], ◌∷◌, ◌==◌, eq_iff, arith, Bool-cases, Option-cases,
  inl, inr, is_some, eq_refl,
}
use verrazzano_operator.Prelude.Slices.{All, All-map, In, All-self, All-In}
use verrazzano_operator.Prelude.Maps.{
  Map, lookup, insert, without, lookup-insert, lookup-without, insert-Entries, without-Entries,
}
use verrazzano_operator.Types.{SyntheticBinding, SyntheticModel, SyntheticModelBinding}
use verrazzano_operator.Location.{create_synthetic_model_binding, update_synthetic_model_binding}
use verrazzano_operator.Location.Shape.{create_synthetic_model_binding-IsWellKeyed}
use verrazzano_operator.Util.Clusters.{IsWellKeyed}
use verrazzano_operator.Controller.{
  Controller, add_pair, pair_first, put_model, process_application_model_added,
  process_application_model_deleted, put_binding, renew_pair, adopt_binding, forget_binding,
  adopt_pair,
}

-- A pair stands under its binding's name, and its clusters under theirs.
abbrev pub IsPair : String × SyntheticModelBinding → Type 0
IsPair kv = (kv.0 ≡ kv.1.syn_binding.name) × IsWellKeyed kv.1.managed_clusters

abbrev pub Recorded : Map SyntheticBinding → String → Type 0
Recorded bindings k = (b : SyntheticBinding) × (lookup k bindings ≡ some b)

-- Bindings stand under their names, pairs are pairs, and each pair's binding is recorded.
abbrev pub IsConsistent : Controller → Type 0
IsConsistent c =
    All (λ kv. kv.0 ≡ kv.1.name) c.application_bindings
    × All (λ kv. IsPair kv × Recorded c.application_bindings kv.0) c.synthetic_model_bindings

In-Recorded :
    (bindings : Map SyntheticBinding) (kv : String × SyntheticBinding)
    → In kv bindings
    → Recorded bindings kv.0
unfolding lookup
In-Recorded [] kv i = elim i [ ]
In-Recorded ((j, v) ∷ m) (k, b) (inl e) = (v, ground (arith, eq_iff j k))
In-Recorded ((j, v) ∷ m) (k, b) (inr i) = elim (Bool-cases (j == k)) [
  | inl p ↦ (v, rw p refl)
  | inr p ↦ let r = In-Recorded m (k, b) i in (r.0, rw p r.1)
]

Recorded-insert :
    (bindings : Map SyntheticBinding) (b : SyntheticBinding) (k : String)
    → Recorded bindings k
    → Recorded (insert b.name b bindings) k
Recorded-insert bindings b k (v, e) = elim (Bool-cases (b.name == k)) [
  | inl p ↦ (b, rw (lookup-insert b.name k b bindings, p) refl)
  | inr p ↦ (v, rw (lookup-insert b.name k b bindings, p) e)
]

Recorded-without :
    (bindings : Map SyntheticBinding) (b : SyntheticBinding) (k : String)
    → k ≢ b.name
    → Recorded bindings k
    → Recorded (without b.name bindings) k
Recorded-without bindings b k n (v, e) = elim (Bool-cases (b.name == k)) [
  | inl p ↦ elim (n (sym ((eq_iff b.name k).0 p))) [ ]
  | inr p ↦ (v, rw (lookup-without b.name k bindings, p) e)
]

add_pair-IsConsistent :
    (model : SyntheticModel) (b : SyntheticBinding) (c : Controller)
    → Recorded c.application_bindings b.name
    → IsConsistent c
    → IsConsistent (add_pair model b c)
unfolding add_pair create_synthetic_model_binding
add_pair-IsConsistent model b c r w = (
  w.0,
  insert-Entries (λ kv. IsPair kv × Recorded c.application_bindings kv.0) b.name _
      c.synthetic_model_bindings
      (
        (
          refl,
          create_synthetic_model_binding-IsWellKeyed model b c.verrazzano_uri c.image_pull_secrets,
        ),
        r,
      )
      w.1,
)

pub put_binding-IsConsistent :
    (b : SyntheticBinding) (c : Controller) → IsConsistent c → IsConsistent (put_binding b c)
unfolding put_binding
put_binding-IsConsistent b c w = (
  insert-Entries (λ kv. kv.0 ≡ kv.1.name) b.name b c.application_bindings refl w.0,
  All-map c.synthetic_model_bindings
      (λ kv p. (p.0, Recorded-insert c.application_bindings b kv.0 p.1)) w.1,
)

pub put_binding-Recorded :
    (b : SyntheticBinding) (c : Controller) → Recorded (put_binding b c).application_bindings b.name
unfolding put_binding
put_binding-Recorded b c =
    (b, rw (lookup-insert b.name b.name b c.application_bindings, eq_refl b.name) refl)

pair_first-IsConsistent :
    (model : SyntheticModel) (bindings : Map SyntheticBinding) (c : Controller)
    → All (λ kv. Recorded c.application_bindings kv.1.name) bindings
    → IsConsistent c
    → IsConsistent (pair_first model bindings c)
unfolding pair_first
pair_first-IsConsistent model [] c r w = w
pair_first-IsConsistent model ((k, b) ∷ rest) c r w =
    let later = pair_first-IsConsistent model rest c r.1 w in
    elim (Option-cases (lookup b.name c.synthetic_model_bindings)) [
      | inr (mb, e) ↦ rw (e, pair_first) later
      | inl e ↦ elim (Bool-cases (model.name == b.spec.model_name)) [
        | inl p ↦ rw (e, p, pair_first) (add_pair-IsConsistent model b c r.0 w)
        | inr p ↦ rw (e, p, pair_first) later
      ]
    ]

put_model-IsConsistent :
    (model : SyntheticModel) (c : Controller) → IsConsistent c → IsConsistent (put_model model c)
unfolding put_model
put_model-IsConsistent model c w =
    pair_first-IsConsistent model c.application_bindings _
      (All-self c.application_bindings λ kv i.
        let e = All-In (λ kv'. kv'.0 ≡ kv'.1.name) kv c.application_bindings w.0 i in
        subst (Recorded c.application_bindings) e (In-Recorded c.application_bindings kv i))
      w

pub process_application_model_added-IsConsistent :
    (model : SyntheticModel) (c : Controller)
    → IsConsistent c
    → IsConsistent (process_application_model_added model c)
unfolding process_application_model_added
process_application_model_added-IsConsistent model c w =
    elim (Option-cases (lookup model.name c.application_models)) [
      | inl e ↦ rw (e, process_application_model_added) (put_model-IsConsistent model c w)
      | inr (existing, e) ↦
          elim (Bool-cases (existing.resource_version == model.resource_version)) [
            | inl p ↦ rw (e, p, process_application_model_added) w
            | inr p ↦ rw (e, p, process_application_model_added) (put_model-IsConsistent model c w)
          ]
    ]

pub process_application_model_deleted-IsConsistent :
    (model : SyntheticModel) (c : Controller)
    → IsConsistent c
    → IsConsistent (process_application_model_deleted model c)
unfolding process_application_model_deleted
process_application_model_deleted-IsConsistent model c w =
    elim (Bool-cases (is_some (lookup model.name c.application_models))) [
      | inl e ↦ rw e w
      | inr e ↦ rw e w
    ]

pub renew_pair-IsConsistent :
    (b : SyntheticBinding) (c : Controller)
    → Recorded c.application_bindings b.name
    → IsConsistent c
    → IsConsistent (renew_pair b c)
unfolding renew_pair update_synthetic_model_binding add_pair
renew_pair-IsConsistent b c r w =
    elim (Option-cases (lookup b.spec.model_name c.application_models)) [
      | inl e ↦ rw (e, renew_pair) w
      | inr (model, e) ↦
          let made = add_pair-IsConsistent model b c r w in
          elim (Option-cases (lookup b.name c.synthetic_model_bindings)) [
            | inl p ↦ rw (e, p, renew_pair) made
            | inr (mb, p) ↦ rw (e, p, renew_pair) made
          ]
    ]

adopt_pair-IsConsistent :
    (b : SyntheticBinding) (c : Controller)
    → Recorded c.application_bindings b.name
    → IsConsistent c
    → IsConsistent (adopt_pair b c)
unfolding adopt_pair
adopt_pair-IsConsistent b c r w = elim (Option-cases (lookup b.name c.synthetic_model_bindings)) [
  | inr (mb, p) ↦ rw (p, adopt_pair) w
  | inl p ↦ elim (Option-cases (lookup b.spec.model_name c.application_models)) [
    | inl q ↦ rw (p, q, adopt_pair) w
    | inr (model, q) ↦ rw (p, q, adopt_pair) (add_pair-IsConsistent model b c r w)
  ]
]

pub adopt_binding-IsConsistent :
    (b : SyntheticBinding) (c : Controller) → IsConsistent c → IsConsistent (adopt_binding b c)
unfolding adopt_binding
adopt_binding-IsConsistent b c w = elim (Option-cases (lookup b.name c.application_bindings)) [
  | inl e ↦ rw e (
      adopt_pair-IsConsistent b (put_binding b c) (put_binding-Recorded b c)
        (put_binding-IsConsistent b c w))
  | inr (o, e) ↦ rw e (adopt_pair-IsConsistent b c (o, e) w)
]

pub forget_binding-IsConsistent :
    (b : SyntheticBinding) (c : Controller) → IsConsistent c → IsConsistent (forget_binding b c)
unfolding forget_binding
forget_binding-IsConsistent b c w = (
  All-map (without b.name c.application_bindings) (λ kv p. p.0)
      (without-Entries (λ kv. kv.0 ≡ kv.1.name) b.name c.application_bindings w.0),
  All-map (without b.name c.synthetic_model_bindings)
      (λ kv p. (p.0.0, Recorded-without c.application_bindings b kv.0 p.1 p.0.1))
      (without-Entries (λ kv. IsPair kv × Recorded c.application_bindings kv.0) b.name
        c.synthetic_model_bindings w.1),
)
