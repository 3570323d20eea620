-- ===== src/Environment/Replicas/Decimal.antt =====
-- What getEnvReplicaCount makes of a text: its value, or the default.
use verrazzano_operator.Prelude.{
  if◌then◌else◌, zero, suc, Bool, sym, subst, ℕ, ◌≡◌, ◌≢◌, refl, arith, Option, none, some, List,
  [], ◌∷◌, ◌↔◌, ◌^◌, Bool-cases, inl, inr, ltb, ◌≤◌, true, false,
}
use Prim.Native.Nat.{◌-◌, ◌*◌, ◌+◌, suc}
use native.Mathlib.Nat.{add-mul, mul_assoc}
use verrazzano_operator.Prelude.Slices.{All, length}
use verrazzano_operator.Prelude.Integers.{ℤ, pos, negative, IsInt32}
use verrazzano_operator.Environment.Replicas.{
  read_digits, parse_uint, signed, parse_int, Bool, leb, sign_byte,
}

abbrev pub IsDigit : ℕ → Type 0
IsDigit c = (b'0' ≤ c) × (c ≤ b'9')

-- Each digit counts as often as its place says.
abbrev pub place_value : List ℕ → ℕ
place_value [] = 0
place_value (c ∷ rest) = (c - b'0') * 10 ^ length rest + place_value rest

pub shift : (n d p : ℕ) → (n * 10 + d) * p ≡ n * (10 * p) + d * p
shift n d p = rw (add-mul (n * 10) d p) (rw (mul_assoc n 10 p) refl)

read_digits_sound :
    (n r : ℕ) (s : List ℕ)
    → read_digits n s ≡ some r
    → All IsDigit s × (r ≡ n * 10 ^ length s + place_value s)
unfolding read_digits
read_digits_sound n r [] h = ground arith
read_digits_sound n r (c ∷ s) h =
    ground (arith, read_digits_sound (n * 10 + (c - b'0')) r s, shift n (c - b'0') (10 ^ length s))

read_digits_complete :
    (n : ℕ) (s : List ℕ)
    → All IsDigit s
    → read_digits n s ≡ some (n * 10 ^ length s + place_value s)
unfolding read_digits
read_digits_complete n [] h = ground arith
read_digits_complete n (c ∷ s) h =
    ground
      (arith, read_digits_complete (n * 10 + (c - b'0')) s h.1, shift n (c - b'0') (10 ^ length s))

abbrev pub IsNumeral : List ℕ → Type 0
IsNumeral s = (s ≢ []) × All IsDigit s

parse_uint_sound : (s : List ℕ) (n : ℕ) → parse_uint s ≡ some n → IsNumeral s × (n ≡ place_value s)
unfolding parse_uint
parse_uint_sound [] n h = cc
parse_uint_sound (c ∷ s) n h =
    let (digits, value) = read_digits_sound 0 n (c ∷ s) h in
    (((λ p. cc), digits), (omega (arith, value)))

parse_uint_complete : (s : List ℕ) → IsNumeral s → parse_uint s ≡ some (place_value s)
unfolding parse_uint
parse_uint_complete [] (filled, digits) = absurd (filled refl)
parse_uint_complete (c ∷ s) (filled, digits) = ground (arith, read_digits_complete 0 (c ∷ s) digits)

-- The texts of the integers: decimal digits, after a sign or none.
pub data Spells : List ℕ → ℤ → Type 0 where
  plain : (s : List ℕ) → IsNumeral s → Spells s (pos (place_value s))
  plus : (s : List ℕ) → IsNumeral s → Spells (b'+' ∷ s) (pos (place_value s))
  minus : (s : List ℕ) → IsNumeral s → Spells (b'-' ∷ s) (negative (place_value s))

negative-IsInt32 : (n : ℕ) → IsInt32 (negative n) ↔ (n ≤ 2 ^ 31)
negative-IsInt32 zero = ((λ p. omega arith), (λ p. omega arith))
negative-IsInt32 (suc n) = ((λ p. omega arith), (λ p. omega arith))

-- The number with its sign.
abbrev pub with_sign : Bool → ℕ → ℤ
with_sign true n = negative n
with_sign false n = pos n

signed_sound :
    (neg : Bool) (s : List ℕ) (o : Option ℕ) (z : ℤ)
    → parse_uint s ≡ o
    → signed neg o ≡ some z
    → IsNumeral s × (z ≡ with_sign neg (place_value s)) × IsInt32 z
signed_sound neg s none z e h = cc
signed_sound true s (some n) z e h =
    let (numeral, value) = parse_uint_sound s n e in
    elim (Bool-cases (leb n (2 ^ 31))) [
      | inl p ↦
          let q : z ≡ negative n = ground arith in
          (numeral, cc, subst IsInt32 (sym q) ((negative-IsInt32 n).1 (ground arith)))
      | inr p ↦ ground arith
    ]
signed_sound false s (some n) z e h =
    let (numeral, value) = parse_uint_sound s n e in
    elim (Bool-cases (ltb n (2 ^ 31))) [
      | inl p ↦
          let q : z ≡ pos n = ground arith in (numeral, cc, subst IsInt32 (sym q) (ground arith))
      | inr p ↦ ground arith
    ]

signed_complete :
    (neg : Bool) (s : List ℕ)
    → IsNumeral s
    → IsInt32 (with_sign neg (place_value s))
    → signed neg (parse_uint s) ≡ some (with_sign neg (place_value s))
signed_complete true s numeral fits =
    let bound = (negative-IsInt32 (place_value s)).0 fits in
    rw (parse_uint_complete s numeral) (ground arith)
signed_complete false s numeral fits = rw (parse_uint_complete s numeral) (ground arith)

digit-not_sign : (c : ℕ) → IsDigit c → sign_byte c ≡ none
digit-not_sign c d = ground arith

-- The value of a text is found, if it fits.
pub parse_int_complete : (s : List ℕ) (z : ℤ) → Spells s z → IsInt32 z → parse_int s ≡ some z
unfolding parse_int
parse_int_complete s z (plain [] numeral) fits = absurd (numeral.0 refl)
parse_int_complete s z (plain (c ∷ t) numeral) fits =
    rw (digit-not_sign c numeral.1.0, parse_int) (signed_complete false (c ∷ t) numeral fits)
parse_int_complete s z (plus t numeral) fits = signed_complete false t numeral fits
parse_int_complete s z (minus t numeral) fits = signed_complete true t numeral fits

sign_byte_sound : (c : ℕ) (neg : Bool) → sign_byte c ≡ some neg → c ≡ (if neg then b'-' else b'+')
sign_byte_sound c true h = ground arith
sign_byte_sound c false h = ground arith

spelled :
    (c : ℕ) (t : List ℕ) (neg : Bool)
    → c ≡ (if neg then b'-' else b'+')
    → IsNumeral t
    → Spells (c ∷ t) (with_sign neg (place_value t))
spelled c t true e numeral = rw e (minus t numeral)
spelled c t false e numeral = rw e (plus t numeral)

-- What is found is the value of the text, and fits.
pub parse_int_sound : (s : List ℕ) (z : ℤ) → parse_int s ≡ some z → Spells s z × IsInt32 z
unfolding parse_int
parse_int_sound [] z h = cc
parse_int_sound (c ∷ t) z h = go (sign_byte c) refl h
  where
    go :
        (o : Option Bool)
        → sign_byte c ≡ o
        → elim o [ some neg ↦ signed neg (parse_uint t) | none ↦ signed false (parse_uint (c ∷ t)) ]
          ≡ some z
        → Spells (c ∷ t) z × IsInt32 z
    go none e h =
        let (numeral, value, fits) = signed_sound false (c ∷ t) _ z refl h in
        (subst (Spells (c ∷ t)) (sym value) (plain (c ∷ t) numeral), fits)
    go (some neg) e h =
        let (numeral, value, fits) = signed_sound neg t _ z refl h in
        (
          subst (Spells (c ∷ t)) (sym value) (spelled c t neg (sign_byte_sound c neg e) numeral),
          fits,
        )
