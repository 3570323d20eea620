-- ===== src/Util/Strings.antt =====
-- Membership in slices of strings, and what RemoveDuplicateValues keeps.
use verrazzano_operator.Prelude.{
  String, true, List, [], ◌∷◌, ◌≡◌, ◌≢◌, refl, inl, inr, arith, eq_iff, not, ◌&&◌, false,
}
use verrazzano_operator.Prelude.Slices.{In, All, Distinct}
use verrazzano_operator.Util.{contains, remove_seen, remove_duplicate_values}

pub contains→In : (s : List String) (e : String) → contains s e ≡ true → In e s
unfolding contains
contains→In [] e h = cc
contains→In (a ∷ s) e h = ground (arith, eq_iff a e, contains→In s e)

pub In→contains : (s : List String) (e : String) → In e s → contains s e ≡ true
unfolding contains
In→contains [] e m = elim m [ ]
In→contains (a ∷ s) e (inl p) = ground (arith, eq_iff a e)
In→contains (a ∷ s) e (inr m) = ground (arith, In→contains s e m)

-- A value is kept exactly when it is in the input and has not been seen.
contains-remove_seen :
    (seen xs : List String) (e : String)
    → contains (remove_seen seen xs) e ≡ (contains xs e && not (contains seen e))
unfolding contains remove_seen
contains-remove_seen seen [] e = refl
contains-remove_seen seen (x ∷ xs) e =
    ground (arith, eq_iff x e, contains-remove_seen seen xs e, contains-remove_seen (x ∷ seen) xs e)

-- A list that does not hold `x` differs from `x` everywhere.
absent-All : (x : String) (xs : List String) → contains xs x ≡ false → All (λ y. x ≢ y) xs
unfolding contains
absent-All x [] h = tt
absent-All x (y ∷ xs) h = (ground (arith, eq_iff y x), absent-All x xs (ground (arith, eq_iff y x)))

remove_seen-Distinct : (seen xs : List String) → Distinct (remove_seen seen xs)
unfolding remove_seen contains
remove_seen-Distinct seen [] = tt
remove_seen-Distinct seen (x ∷ xs) = ground (
  arith,
  eq_iff x x,
  remove_seen-Distinct seen xs,
  remove_seen-Distinct (x ∷ seen) xs,
  absent-All x (remove_seen (x ∷ seen) xs),
  contains-remove_seen (x ∷ seen) xs x,
)

-- RemoveDuplicateValues keeps exactly the values of its input, each once.
remove_duplicate_values_lem :
    (xs : List String)
    → Distinct (remove_duplicate_values xs)
      × ((e : String) → contains (remove_duplicate_values xs) e ≡ contains xs e)
unfolding remove_duplicate_values contains
remove_duplicate_values_lem xs =
    (remove_seen-Distinct [] xs, λ e. ground (arith, contains-remove_seen [] xs e))
