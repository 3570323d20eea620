-- ===== src/Prelude/Slices.antt =====
-- Go slices as lists: predicates by recursion and membership as evidence.
use Prim.Native.Nat.{ℕ, suc}
use mathlib.Core.List.{List, [], ◌∷◌}
use mathlib.Core.Path.{◌≡◌, subst, sym, refl}
use mathlib.Core.Logic.{◌≢◌, ◌⊎◌, inl, inr}

module _ {ℓ} {A : Type ℓ} where
  abbrev pub length : List A → ℕ
  length [] = 0
  length (x ∷ xs) = suc (length xs)

  -- Every entry satisfies `P`.
  abbrev pub All {κ} : (A → Type κ) → List A → Type κ
  All P [] = Unit
  All P (x ∷ xs) = P x × All P xs

  -- The entries are pairwise different.
  abbrev pub Distinct : List A → Type ℓ
  Distinct [] = Unit
  Distinct (x ∷ xs) = All (λ y. x ≢ y) xs × Distinct xs

-- Evidence that a value stands in a list; it can be matched.
abbrev pub In : {A : Type 0} → A → List A → Type 0
In a [] = ⊥
In a (x ∷ xs) = (a ≡ x) ⊎ In a xs

-- Evidence that some entry satisfies `P`.
abbrev pub Any : {A : Type 0} → (A → Type 0) → List A → Type 0
Any P [] = ⊥
Any P (x ∷ xs) = P x ⊎ Any P xs

pub In-Any : {A : Type 0} (P : A → Type 0) (x : A) (xs : List A) → In x xs → P x → Any P xs
In-Any P x [] m p = elim m [ ]
In-Any P x (y ∷ xs) (inl e) p = inl (subst P e p)
In-Any P x (y ∷ xs) (inr m) p = inr (In-Any P x xs m p)

pub All-In : {A : Type 0} (P : A → Type 0) (x : A) (xs : List A) → All P xs → In x xs → P x
All-In P x [] a m = elim m [ ]
All-In P x (y ∷ xs) a (inl e) = subst P (sym e) a.0
All-In P x (y ∷ xs) a (inr m) = All-In P x xs a.1 m

pub All-map :
    {A : Type 0} {P Q : A → Type 0} (xs : List A) → ((x : A) → P x → Q x) → All P xs → All Q xs
All-map [] f a = tt
All-map (x ∷ xs) f a = (f x a.0, All-map xs f a.1)

pub All-self : {A : Type 0} {P : A → Type 0} (xs : List A) → ((x : A) → In x xs → P x) → All P xs
All-self [] f = tt
All-self (x ∷ xs) f = (f x (inl refl), All-self xs (λ y m. f y (inr m)))
