-- ===== src/Prelude/Integers.antt =====
-- Signed integers over the native ℕ, and the machine's 32-bit ones; the characters of a text.
use Prim.Native.Nat.{ℕ, zero, suc, ◌-◌, ◌%◌, ◌^◌, ◌<◌, compare, Ordering}
use mathlib.Core.Bool.{Bool, true, false}
use Prim.Native.Char.{code}
use Prim.Native.String.{String}
use mathlib.Core.List.{List, [], ◌∷◌}
use verrazzano_operator.Prelude.Cases.{if◌then◌else◌, ltb}

-- `negsuc n` is the number −(n + 1).
pub data ℤ : Type 0 where
  pos negsuc : ℕ → ℤ

-- −n
abbrev pub negative : ℕ → ℤ
negative zero = pos zero
negative (suc n) = negsuc n

-- −2³¹ ≤ z < 2³¹
abbrev pub IsInt32 : ℤ → Type 0
IsInt32 (pos n) = n < 2 ^ 31
IsInt32 (negsuc n) = n < 2 ^ 31

-- Go's conversion to int32, which keeps the lowest 32 bits.
unfoldable pub int32 : ℤ → ℤ
int32 (pos n) =
    let low = n % 2 ^ 32 in if ltb low (2 ^ 31) then pos low else negsuc (2 ^ 32 - 1 - low)
int32 (negsuc n) =
    let low = n % 2 ^ 32 in if ltb low (2 ^ 31) then negsuc low else pos (2 ^ 32 - 1 - low)

-- The code points of a text: its bytes, where it is ASCII.
abbrev pub codes : String → List ℕ
codes String.[] = []
codes (String.◌∷◌ c s) = code c ∷ codes s

abbrev pub is_byte : ℕ → ℕ → Bool
is_byte a b = elim (compare a b) [ Ordering.eq ↦ true | _ ↦ false ]
