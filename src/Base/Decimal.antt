-- ===== src/Base/Decimal.antt =====
-- The decimal digits that `%d` prints: they are digits, and g_ascii_strtoull reads the number back.
use Prim.Native.Nat.{ℕ, zero, suc, ◌+◌, ◌/◌, ◌%◌, ◌≤◌, ◌<◌}
use mathlib.Core.Path.{◌≡◌}
use mathlib.Core.Bool.{Bool, true, false}
use mathlib.Core.List.{[], ◌∷◌}
use native.Mathlib.Omega.{arith}
use libblockdev.Base.Text.{
  Bytes, is_digit, max_u64, decimal_loop, decimal, strtoull_digits, strtoull_10,
}

-- A text that begins with a digit.
abbrev pub digit_first : Bytes → Bool
digit_first [] = false
digit_first (c ∷ s) = is_digit c

digit_byte : (n : ℕ) → is_digit (b'0' + n % 10) ≡ true
digit_byte n = ground arith

loop-digit_first :
    (fuel n : ℕ) (out : Bytes)
    → digit_first out ≡ true
    → digit_first (decimal_loop fuel n out) ≡ true
unfolding decimal_loop
loop-digit_first zero n out h = h
loop-digit_first (suc fuel) n out h =
    ground
      (arith, digit_byte n, loop-digit_first fuel (n / 10) ((b'0' + n % 10) ∷ out) (digit_byte n))

pub decimal-digit_first : (n : ℕ) → digit_first (decimal n) ≡ true
unfolding decimal
decimal-digit_first n =
    ground (arith, digit_byte n, loop-digit_first n (n / 10) ((b'0' + n % 10) ∷ []) (digit_byte n))

-- Reading goes on where printing stops.
strtoull-loop :
    (fuel n : ℕ) (out : Bytes)
    → n < fuel
    → n ≤ max_u64
    → strtoull_digits 10 0 (decimal_loop fuel n out) ≡ strtoull_digits 10 n out
unfolding decimal_loop strtoull_digits
strtoull-loop zero n out h k = absurd (omega arith)
strtoull-loop (suc fuel) n out h k =
    ground (arith, strtoull-loop fuel (n / 10) ((b'0' + n % 10) ∷ out))

-- The number that is printed is read back.
pub strtoull_10-decimal : (n : ℕ) → n ≤ max_u64 → strtoull_10 (decimal n) ≡ n
unfolding decimal strtoull_10 strtoull_digits
strtoull_10-decimal n h = strtoull-loop (suc n) n [] (omega arith) h
