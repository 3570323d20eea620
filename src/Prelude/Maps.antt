-- ===== src/Prelude/Maps.antt =====
-- Go maps with text keys, as association lists. Iteration (`range m`) is in the order of the list;
-- Go leaves that order open, so theorems range over every list.
use Prim.Native.String.{String}
use mathlib.Core.Path.{◌≡◌, refl, subst₂}
use mathlib.Core.Option.{Option, none, some}
use mathlib.Core.List.{List, [], ◌∷◌}
use native.Mathlib.Omega.{arith}
use text.Mathlib.Text.{◌==◌}
use text.Mathlib.TextEquality.{eq_iff}
use verrazzano_operator.Prelude.Cases.{if◌then◌else◌, Bool-cases}
use verrazzano_operator.Prelude.Slices.{All, Distinct}
use mathlib.Core.Logic.{◌≢◌, inl, inr}

abbrev pub Map {ℓ} : Type ℓ → Type ℓ
Map V = List (String × V)

module _ {ℓ} {V : Type ℓ} where
  -- value, ok := m[key]
  unfoldable pub lookup : String → Map V → Option V
  lookup key [] = none
  lookup key ((first, value) ∷ rest) =
      let later = lookup key rest in if first == key then some value else later

  -- m[key] = value
  unfoldable pub insert : String → V → Map V → Map V
  insert key value [] = (key, value) ∷ []
  insert key value ((first, old) ∷ rest) =
      let later = (first, old) ∷ insert key value rest in
      if first == key then (key, value) ∷ rest else later

  -- delete(m, key)
  unfoldable pub without : String → Map V → Map V
  without key [] = []
  without key ((first, value) ∷ rest) =
      let later = without key rest in if first == key then later else (first, value) ∷ later

  abbrev pub keys : Map V → List String
  keys [] = []
  keys ((first, value) ∷ rest) = first ∷ keys rest

  -- A read after a write: the write is at another key, or the read finds what was written.
  pub lookup-insert :
      (written read : String) (value : V) (m : Map V)
      → lookup read (insert written value m)
        ≡ (if written == read then some value else lookup read m)
  unfolding lookup insert
  lookup-insert written read value [] = refl
  lookup-insert written read value ((first, old) ∷ rest) =
      let induction = lookup-insert written read value rest in
      elim (Bool-cases (first == written)) [
        | inl same ↦ ground (arith, eq_iff first written, eq_iff first read, eq_iff written read)
        | inr other ↦ ground (arith, eq_iff first written, eq_iff first read, eq_iff written read)
      ]

  pub lookup-without :
      (gone read : String) (m : Map V)
      → lookup read (without gone m) ≡ (if gone == read then none else lookup read m)
  unfolding lookup without
  lookup-without gone read [] = ground arith
  lookup-without gone read ((first, value) ∷ rest) =
      let induction = lookup-without gone read rest in
      ground (arith, eq_iff first gone, eq_iff first read, eq_iff gone read)

  pub lookup-absent : (k : String) (m : Map V) → All (λ j. k ≢ j) (keys m) → lookup k m ≡ none
  unfolding lookup
  lookup-absent k [] h = refl
  lookup-absent k ((j, v) ∷ m) h = ground (arith, eq_iff j k, lookup-absent k m h.1)

  pub insert-All :
      (P : String → Type 0) (k : String) (v : V) (m : Map V)
      → P k
      → All P (keys m)
      → All P (keys (insert k v m))
  unfolding insert
  insert-All P k v [] p h = (p, tt)
  insert-All P k v ((j, w) ∷ m) p h = elim (Bool-cases (j == k)) [
    | inl e ↦ rw e (p, h.1)
    | inr e ↦ rw e (h.0, insert-All P k v m p h.1)
  ]

  -- Writing a key keeps the keys distinct, so a map made by writes has distinct keys.
  pub insert-Distinct :
      (k : String) (v : V) (m : Map V) → Distinct (keys m) → Distinct (keys (insert k v m))
  unfolding insert
  insert-Distinct k v [] d = (tt, tt)
  insert-Distinct k v ((j, w) ∷ m) d = elim (Bool-cases (j == k)) [
    | inl e ↦ rw e (rw (← (eq_iff j k).0 e) d.0, d.1)
    | inr e ↦ rw e (
      insert-All (λ i. j ≢ i) k v m (λ p. ground (arith, eq_iff j k)) d.0,
      insert-Distinct k v m d.1,
    )
  ]

  -- A write keeps what holds of each entry.
  pub insert-Entries {κ} :
      (P : String × V → Type κ) (k : String) (v : V) (m : Map V)
      → P (k, v)
      → All P m
      → All P (insert k v m)
  unfolding insert
  insert-Entries P k v [] p h = (p, tt)
  insert-Entries P k v ((j, w) ∷ m) p h = elim (Bool-cases (j == k)) [
    | inl e ↦ rw e (p, h.1)
    | inr e ↦ rw e (h.0, insert-Entries P k v m p h.1)
  ]

  pub lookup-Entries {κ} :
      (P : String × V → Type κ) (k : String) (v : V) (m : Map V)
      → All P m
      → lookup k m ≡ some v
      → P (k, v)
  unfolding lookup
  lookup-Entries P k v [] h e = cc
  lookup-Entries P k v ((j, w) ∷ m) h e = elim (Bool-cases (j == k)) [
    | inl q ↦
        let p : j ≡ k = (eq_iff j k).0 q in
        let r : w ≡ v = ground arith in subst₂ (λ a b. P (a, b)) p r h.0
    | inr q ↦ lookup-Entries P k v m h.1 (ground arith)
  ]

module _ {ℓ} {V : Type ℓ} where
  -- A deletion keeps what holds of each entry, and the other entries have other keys.
  pub without-Entries {κ} :
      (P : String × V → Type κ) (k : String) (m : Map V)
      → All P m
      → All (λ kv. P kv × (kv.0 ≢ k)) (without k m)
  unfolding without
  without-Entries P k [] h = tt
  without-Entries P k ((j, v) ∷ m) h = elim (Bool-cases (j == k)) [
    | inl e ↦ rw e (without-Entries P k m h.1)
    | inr e ↦ rw e ((h.0, λ p. ground (arith, eq_iff j k)), without-Entries P k m h.1)
  ]
