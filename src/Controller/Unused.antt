-- ===== src/Controller/Unused.antt =====
-- The functions of pkg/controller/controller.go that nothing calls.
use Prim.Native.Nat.{◌-◌}
use verrazzano_operator.Prelude.{
  ℕ, zero, suc, String, Bool, true, false, Option, none, some, List, [], ◌∷◌, ◌++◌, ◌==◌,
  if◌then◌else◌, leb, ◌≡◌, ◌↔◌, refl, eq_iff, arith, ◌⊎◌, inl, inr, Bool-cases,
}
use verrazzano_operator.Prelude.Slices.{length, Any}
use verrazzano_operator.Kube.{Error, Answer, Workload, management, deployments, live_get, delete}
use verrazzano_operator.Prog.{Prog, ret, ask, ◌>>=◌}
use verrazzano_operator.Types.{KubernetesNamespace, ClusterPlacement}

abbrev pub take {ℓ} : {A : Type ℓ} → ℕ → List A → List A
take zero xs = []
take (suc n) [] = []
take (suc n) (x ∷ xs) = x ∷ take n xs

abbrev pub drop {ℓ} : {A : Type ℓ} → ℕ → List A → List A
drop zero xs = xs
drop (suc n) [] = []
drop (suc n) (x ∷ xs) = drop n xs

abbrev pub get_elem? {ℓ} : {A : Type ℓ} → List A → ℕ → Option A
get_elem? [] i = none
get_elem? (x ∷ xs) zero = some x
get_elem? (x ∷ xs) (suc i) = get_elem? xs i

-- The array after append(list[:i], list[i+1:]...), where the slice has `len` entries: the append
-- copies within the array, whose last entries stay.
abbrev pub shift_left : ℕ → ℕ → List String → List String
shift_left i len array = take i array ++ drop (suc i) (take len array) ++ drop (len - 1) array

-- The loop ranges over the slice as it was at the start, and reads each entry of the array when it
-- gets to it. Slicing behind the end of the slice that has become shorter is a panic, `none` here.
unfoldable pub remove_loop : ℕ → ℕ → List String → ℕ → String → Option (List String)
remove_loop zero i array len s = some (take len array)
remove_loop (suc rounds) i array len s =
    let kept = remove_loop rounds (suc i) array len s in
    let removed = remove_loop rounds (suc i) (shift_left i len array) (len - 1) s in
    elim (get_elem? array i) [
      | none ↦ none
      | some v ↦ if v == s then (if leb (suc i) len then removed else none) else kept
    ]

unfoldable pub remove : List String → String → Option (List String)
unfolding remove_loop
remove list s = remove_loop (length list) 0 list (length list) s

-- The inner loop of checkForDuplicateNamespaces.
unfoldable pub names_namespace : String → List KubernetesNamespace → Bool
names_namespace name [] = false
names_namespace name (curr ∷ rest) = if curr.name == name then true else names_namespace name rest

-- The outer loop, from a value of `dupFound` on.
unfoldable pub find_duplicate : List KubernetesNamespace → List KubernetesNamespace → Bool → Bool
unfolding names_namespace
find_duplicate [] currs dup_found = dup_found
find_duplicate (namespace ∷ rest) currs dup_found =
    find_duplicate rest currs (if names_namespace namespace.name currs then true else dup_found)

unfoldable pub check_for_duplicate_namespaces : ClusterPlacement → ClusterPlacement → Bool
unfolding find_duplicate
check_for_duplicate_namespaces placement curr_placement =
    find_duplicate placement.namespaces curr_placement.namespaces false

abbrev pub delete_found : String → String → Answer Workload → Prog (Option Error)
delete_found namespace name (some dep, err) = ask (delete management deployments namespace name)
delete_found namespace name (none, err) = ret err

unfoldable pub delete_deployment : String → String → Prog (Option Error)
delete_deployment namespace name =
    ask (live_get management deployments namespace name) >>= delete_found namespace name

-- Both placements name a namespace.
abbrev pub HasDuplicate : List KubernetesNamespace → List KubernetesNamespace → Type 0
HasDuplicate ns currs = Any (λ n. Any (λ curr. curr.name ≡ n.name) currs) ns

names_namespace_iff :
    (name : String) (currs : List KubernetesNamespace)
    → (names_namespace name currs ≡ true) ↔ Any (λ curr. curr.name ≡ name) currs
unfolding names_namespace
names_namespace_iff name [] = ((λ h. cc), (λ m. elim m [ ]))
names_namespace_iff name (curr ∷ rest) =
    let later = names_namespace_iff name rest in
    elim (Bool-cases (curr.name == name)) [
      | inl e ↦ rw e ((λ h. inl ((eq_iff curr.name name).0 e)), (λ m. refl))
      | inr e ↦ rw e (
        (λ h. inr (later.0 h)),
        λ m. elim m [ inl p ↦ absurd (ground (arith, eq_iff curr.name name)) | inr n ↦ later.1 n ],
      )
    ]

find_duplicate_iff :
    (ns currs : List KubernetesNamespace) (dup_found : Bool)
    → (find_duplicate ns currs dup_found ≡ true) ↔ ((dup_found ≡ true) ⊎ HasDuplicate ns currs)
unfolding find_duplicate
find_duplicate_iff [] currs dup_found = (inl, λ m. elim m [ inl e ↦ e | inr n ↦ elim n [ ] ])
find_duplicate_iff (n ∷ ns) currs dup_found = elim (Bool-cases (names_namespace n.name currs)) [
  | inl e ↦ rw e (
    (λ h. inr (inl ((names_namespace_iff n.name currs).0 e))),
    λ m. (find_duplicate_iff ns currs true).1 (inl refl),
  )
  | inr e ↦
      let later = find_duplicate_iff ns currs dup_found in
      rw e (
        (λ h. elim (later.0 h) [ inl d ↦ inl d | inr m ↦ inr (inr m) ]),
        λ m. later.1 (elim m [
          | inl d ↦ inl d
          | inr (inl q) ↦ absurd (ground (arith, (names_namespace_iff n.name currs).1 q))
          | inr (inr q) ↦ inr q
        ]),
      )
]

-- The check finds a duplicate exactly if both placements name some namespace.
pub check_for_duplicate_namespaces_lem :
    (placement curr_placement : ClusterPlacement)
    → (check_for_duplicate_namespaces placement curr_placement ≡ true)
      ↔ HasDuplicate placement.namespaces curr_placement.namespaces
unfolding check_for_duplicate_namespaces
check_for_duplicate_namespaces_lem placement curr_placement =
    let both = find_duplicate_iff placement.namespaces curr_placement.namespaces false in
    ((λ h. elim (both.0 h) [ inl e ↦ absurd (cc) | inr m ↦ m ]), λ m. both.1 (inr m))
