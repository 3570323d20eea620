-- ===== src/Environment/Flags.antt =====
-- Which values of a variable turn a component off, and which turn the shared instance on.
use verrazzano_operator.Prelude.{
  String, ◌≡◌, ◌↔◌, refl, true, false, Option, none, some, List, ◌∷◌, Bool-cases, inl, inr,
  if◌then◌else◌, ◌⊎◌, arith,
}
use verrazzano_operator.Prelude.Slices.{In}
use verrazzano_operator.Kube.{History, event, lookup_env}
use verrazzano_operator.Prog.Rules.{Ensures, calls, returns}
use verrazzano_operator.Constants.{vmi_system_binding_name}
use verrazzano_operator.Util.{contains}
use verrazzano_operator.Util.Strings.{contains→In, In→contains}
use verrazzano_operator.Environment.{
  true_words, false_words, parse_bool, enabled_by, get_boolean, shared_by, shared_vmi_default,
  shared_vmi_variable, get_profile_binding_name,
}

parse_bool-true : (v : String) → In v true_words → parse_bool v ≡ some true
unfolding parse_bool
parse_bool-true v m = rw (In→contains true_words v m) refl

parse_bool-false : (v : String) → In v false_words → parse_bool v ≡ some false
unfolding parse_bool contains
parse_bool-false v (inl e) = rw e refl
parse_bool-false v (inr (inl e)) = rw e refl
parse_bool-false v (inr (inr (inl e))) = rw e refl
parse_bool-false v (inr (inr (inr (inl e)))) = rw e refl
parse_bool-false v (inr (inr (inr (inr (inl e))))) = rw e refl
parse_bool-false v (inr (inr (inr (inr (inr (inl e)))))) = rw e refl
parse_bool-false v (inr (inr (inr (inr (inr (inr m)))))) = elim m [ ]

-- What ParseBool takes for true, for false, and refuses.
parse_bool_cases :
    (v : String)
    → (In v true_words × (parse_bool v ≡ some true))
      ⊎ (In v false_words × (parse_bool v ≡ some false))
      ⊎ (parse_bool v ≡ none)
unfolding parse_bool
parse_bool_cases v = elim (Bool-cases (contains true_words v)) [
  | inl p ↦ inl (contains→In true_words v p, rw (p, parse_bool) refl)
  | inr p ↦ elim (Bool-cases (contains false_words v)) [
    | inl q ↦ inr (inl (contains→In false_words v q, rw (p, q, parse_bool) refl))
    | inr q ↦ inr (inr (rw (p, q, parse_bool) refl))
  ]
]

-- The variable is set, to one of the words.
abbrev pub SetTo : List String → Option String → Type 0
SetTo words none = ⊥
SetTo words (some v) = In v words

enabled_by-false : (o : Option String) → (enabled_by o ≡ false) ↔ SetTo false_words o
enabled_by-false none = ((λ p. cc), (λ m. elim m [ ]))
enabled_by-false (some v) =
    ((λ p. off p (parse_bool_cases v)), (λ m. rw (parse_bool-false v m, enabled_by) refl))
  where
    off :
        enabled_by (some v) ≡ false
        → (In v true_words × (parse_bool v ≡ some true))
          ⊎ (In v false_words × (parse_bool v ≡ some false))
          ⊎ (parse_bool v ≡ none)
        → In v false_words
    off p (inl (m, e)) = ground arith
    off p (inr (inl (m, e))) = m
    off p (inr (inr e)) = ground arith

shared_by-true : (o : Option String) → (shared_by o ≡ true) ↔ SetTo true_words o
shared_by-true none = ((λ p. cc), (λ m. elim m [ ]))
shared_by-true (some v) =
    ((λ p. on p (parse_bool_cases v)), (λ m. rw (parse_bool-true v m, shared_by) refl))
  where
    on :
        shared_by (some v) ≡ true
        → (In v true_words × (parse_bool v ≡ some true))
          ⊎ (In v false_words × (parse_bool v ≡ some false))
          ⊎ (parse_bool v ≡ none)
        → In v true_words
    on p (inl (m, e)) = m
    on p (inr (inl (m, e))) = ground arith
    on p (inr (inr e)) = ground arith

-- The last call read the variable, and the value satisfies `P`.
abbrev pub Read : String → (Option String → Type 0) → History → Type 0
Read var P h =
    (value : Option String) × (before : History) × (h ≡ event (lookup_env var) value ∷ before)
    × P value

-- getBoolean reads its variable and makes no other call, and its result is false exactly if the
-- variable is set to one of the words that ParseBool takes for false: a variable that is not set,
-- or is set to anything else, turns the component on.
pub get_boolean_lem :
    (var : String)
    → Ensures
        (λ h r. r ≡ lookup_env var)
        (λ h value. Read var (λ o. (value ≡ false) ↔ SetTo false_words o) h)
        (get_boolean var)
unfolding get_boolean
get_boolean_lem var h =
    calls h (lookup_env var) _ refl λ o. returns _ _ (o, h, refl, enabled_by-false o)

-- GetProfileBindingName reads the variable of the shared instance and makes no other call; its
-- result is the name of the system binding if the variable is set to one of the words that
-- ParseBool takes for true, and the given name otherwise.
get_profile_binding_name_lem :
    (name : String)
    → Ensures
        (λ h r. r ≡ lookup_env shared_vmi_variable)
        (λ h result.
          Read shared_vmi_variable
            (λ o.
              (SetTo true_words o × (result ≡ vmi_system_binding_name))
              ⊎ ((SetTo true_words o → ⊥) × (result ≡ name)))
            h)
        (get_profile_binding_name name)
unfolding get_profile_binding_name shared_vmi_default
get_profile_binding_name_lem name h =
    calls h (lookup_env shared_vmi_variable) _ refl λ o. returns _ _ (o, h, refl, result o)
  where
    result :
        (o : Option String)
        → (SetTo true_words o
            × ((if shared_by o then vmi_system_binding_name else name) ≡ vmi_system_binding_name))
          ⊎ ((SetTo true_words o → ⊥)
              × ((if shared_by o then vmi_system_binding_name else name) ≡ name))
    result o = elim (Bool-cases (shared_by o)) [
      | inl p ↦ inl ((shared_by-true o).0 p, rw p refl)
      | inr p ↦ inr ((λ m. ground (arith, (shared_by-true o).1 m)), rw p refl)
    ]
