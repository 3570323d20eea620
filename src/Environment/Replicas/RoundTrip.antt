-- ===== src/Environment/Replicas/RoundTrip.antt =====
-- The decimal print of an int32, as fmt prints it, and reading it back as a replica count.
use Prim.Native.Nat.{◌*◌, ◌+◌, ◌/◌, ◌%◌}
use verrazzano_operator.Prelude.{
  ℕ, zero, suc, String, ◌≡◌, sym, ap, subst, arith, some, List, [], ◌∷◌, inl, inr, Bool-cases, ◌==◌,
  eq_iff, ◌^◌, ◌<◌, if◌then◌else◌, leb,
}
use verrazzano_operator.Prelude.Slices.{All, length}
use verrazzano_operator.Prelude.Integers.{ℤ, pos, negsuc, negative, IsInt32, codes}
use verrazzano_operator.Environment.Replicas.{parse_int, replica_count}
use verrazzano_operator.Environment.Replicas.Decimal.{
  IsDigit, IsNumeral, place_value, Spells, plain, minus, shift, parse_int_complete,
}
use verrazzano_operator.Environment.Replicas.Counts.{int32-fits}

-- The digits of `n` before `out`. The first argument bounds how many there are.
unfoldable print_digits : ℕ → ℕ → List ℕ → List ℕ
print_digits zero n out = out
print_digits (suc fuel) n out =
    let more = print_digits fuel (n / 10) ((b'0' + n % 10) ∷ out) in
    if leb n 9 then (b'0' + n) ∷ out else more

unfoldable pub decimal : ℤ → List ℕ
unfolding print_digits
decimal (pos n) = print_digits (suc n) n []
decimal (negsuc n) = b'-' ∷ print_digits (suc (suc n)) (suc n) []

-- As many rounds as the number says are enough.
place_value-print_digits :
    (fuel n : ℕ) (out : List ℕ)
    → n < fuel
    → place_value (print_digits fuel n out) ≡ n * 10 ^ length out + place_value out
unfolding print_digits
place_value-print_digits zero n out enough = absurd (omega arith)
place_value-print_digits (suc fuel) n out enough =
    let digits : n / 10 * 10 + n % 10 ≡ n = omega arith in
    let whole = ap (λ m. m * 10 ^ length out) digits in
    ground (
      arith,
      whole,
      shift (n / 10) (n % 10) (10 ^ length out),
      place_value-print_digits fuel (n / 10) ((b'0' + n % 10) ∷ out),
    )

print_digits-IsNumeral :
    (fuel n : ℕ) (out : List ℕ) → n < fuel → All IsDigit out → IsNumeral (print_digits fuel n out)
unfolding print_digits
print_digits-IsNumeral zero n out enough digits = absurd (omega arith)
print_digits-IsNumeral (suc fuel) n out enough digits = elim (Bool-cases (leb n 9)) [
  | inl small ↦ rw small ((λ p. cc), (ground arith, digits))
  | inr large ↦ rw large (
      print_digits-IsNumeral fuel (n / 10) ((b'0' + n % 10) ∷ out) (ground arith)
        (omega arith, digits))
]

value-print_digits : (n : ℕ) → place_value (print_digits (suc n) n []) ≡ n
value-print_digits n = omega (arith, place_value-print_digits (suc n) n [] (omega arith))

decimal-Spells : (z : ℤ) → Spells (decimal z) z
unfolding decimal
decimal-Spells (pos n) =
    subst (λ m. Spells (decimal (pos n)) (pos m)) (value-print_digits n)
      (plain _ (print_digits-IsNumeral (suc n) n [] (omega arith) tt))
decimal-Spells (negsuc n) =
    subst (λ m. Spells (decimal (negsuc n)) (negative m)) (value-print_digits (suc n))
      (minus _ (print_digits-IsNumeral (suc (suc n)) (suc n) [] (omega arith) tt))

-- A variable that holds the decimal print of an int32 gives that number as the replica count,
-- whatever the default is.
pub replica_count-decimal :
    (default z : ℤ) (value : String)
    → IsInt32 z
    → codes value ≡ decimal z
    → replica_count default value ≡ z
unfolding replica_count parse_int
replica_count-decimal default z value fits printed =
    let parsed : parse_int (codes value) ≡ some z =
      rw printed (parse_int_complete (decimal z) z (decimal-Spells z) fits) in
    elim (Bool-cases (value == "")) [
      | inl e ↦
          let q : value ≡ "" = (eq_iff value "").0 e in
          absurd (subst (λ v. parse_int (codes v) ≡ some z → ⊥) (sym q) (λ p. cc) parsed)
      | inr e ↦ rw e (rw parsed (int32-fits z fits))
    ]
