-- ===== src/Base/Bits.antt =====
-- Bit masks: what `x & (1 << i)`, `x | (1 << i)` and `(x & m) == m` say of the single bits.
use Prim.Native.Nat.{
  ℕ, zero, suc, ◌+◌, ◌*◌, ◌/◌, ◌%◌, ◌^◌, ◌≤◌, min, max, bit_and, bit_or, digits, bit_and-bitwise,
  bit_or-bitwise,
}
use mathlib.Core.Logic.{◌↔◌}
use mathlib.Core.Path.{◌≡◌, refl, ap, sym, ◌∙◌}
use mathlib.Core.Bool.{Bool, true, false, ◌&&◌, ◌||◌, not}
use native.Mathlib.Omega.{arith}
use native.Mathlib.Nat.{pow-suc}
use libblockdev.Base.Logic.{◌==◌, ==_iff}

abbrev and_digits : ℕ → ℕ → ℕ → ℕ
and_digits n a b = digits (λ b. zero) min n a b

-- More rounds than digits change nothing.
and_digits_enough : (n m a b : ℕ) → a ≤ n → a ≤ m → and_digits n a b ≡ and_digits m a b
and_digits_enough zero zero zero b p q = refl
and_digits_enough zero zero (suc a) b p q = refl
and_digits_enough zero (suc m) zero b p q = refl
and_digits_enough zero (suc m) (suc a) b p q = absurd (omega arith)
and_digits_enough (suc n) zero zero b p q = refl
and_digits_enough (suc n) zero (suc a) b p q = absurd (omega arith)
and_digits_enough (suc n) (suc m) zero b p q = refl
and_digits_enough (suc n) (suc m) (suc a) b p q =
    omega (arith, and_digits_enough n m (suc a / 2) (b / 2) (omega arith) (omega arith))

bit_and-zero_left : (b : ℕ) → bit_and 0 b ≡ 0
bit_and-zero_left b = bit_and-bitwise 0 b

-- Conjunction digit by digit.
pub bit_and-halves : (a b : ℕ) → bit_and a b ≡ bit_and (a / 2) (b / 2) * 2 + min (a % 2) (b % 2)
bit_and-halves zero b = omega (arith, bit_and-zero_left b, bit_and-zero_left (b / 2))
bit_and-halves (suc a) b = omega (
  arith,
  bit_and-bitwise (suc a) b,
  bit_and-bitwise (suc a / 2) (b / 2),
  and_digits_enough a (suc a / 2) (suc a / 2) (b / 2) (omega arith) (omega arith),
)

abbrev or_digits : ℕ → ℕ → ℕ → ℕ
or_digits n a b = digits (λ b. b) max n a b

or_digits_enough : (n m a b : ℕ) → a ≤ n → a ≤ m → or_digits n a b ≡ or_digits m a b
or_digits_enough zero zero zero b p q = refl
or_digits_enough zero zero (suc a) b p q = refl
or_digits_enough zero (suc m) zero b p q = refl
or_digits_enough zero (suc m) (suc a) b p q = absurd (omega arith)
or_digits_enough (suc n) zero zero b p q = refl
or_digits_enough (suc n) zero (suc a) b p q = absurd (omega arith)
or_digits_enough (suc n) (suc m) zero b p q = refl
or_digits_enough (suc n) (suc m) (suc a) b p q =
    omega (arith, or_digits_enough n m (suc a / 2) (b / 2) (omega arith) (omega arith))

bit_or-zero_left : (b : ℕ) → bit_or 0 b ≡ b
bit_or-zero_left b = bit_or-bitwise 0 b

-- Disjunction digit by digit.
pub bit_or-halves : (a b : ℕ) → bit_or a b ≡ bit_or (a / 2) (b / 2) * 2 + max (a % 2) (b % 2)
bit_or-halves zero b = omega (arith, bit_or-zero_left b, bit_or-zero_left (b / 2))
bit_or-halves (suc a) b = omega (
  arith,
  bit_or-bitwise (suc a) b,
  bit_or-bitwise (suc a / 2) (b / 2),
  or_digits_enough a (suc a / 2) (suc a / 2) (b / 2) (omega arith) (omega arith),
)

-- Bit `i` of a mask.
unfoldable pub bit : ℕ → ℕ → Bool
bit zero x = x % 2 == 1
bit (suc i) x = bit i (x / 2)

pub bit-zero : (i : ℕ) → bit i 0 ≡ false
unfolding bit
bit-zero zero = refl
bit-zero (suc i) = bit-zero i

pow-half : (i : ℕ) → 2 ^ suc i / 2 ≡ 2 ^ i
pow-half i = omega (arith, pow-suc 2 i)

pow-even : (i : ℕ) → 2 ^ suc i % 2 ≡ 0
pow-even i = omega (arith, pow-suc 2 i)

and_one_left : (x : ℕ) → bit_and 1 x ≡ x % 2
and_one_left x = omega (arith, bit_and-halves 1 x, bit_and-zero_left (x / 2))

-- The test `(1 << i) & x` is that of bit `i`.
pub bit_and-pow : (i x : ℕ) → (bit_and (2 ^ i) x == 0) ≡ not (bit i x)
unfolding bit
bit_and-pow zero x = ground (arith, and_one_left x)
bit_and-pow (suc i) x =
    ground (arith, bit_and-halves (2 ^ suc i) x, pow-half i, pow-even i, bit_and-pow i (x / 2))

pub bit-or : (i a b : ℕ) → bit i (bit_or a b) ≡ (bit i a || bit i b)
unfolding bit
bit-or zero a b = ground (arith, bit_or-halves a b)
bit-or (suc i) a b =
    let e : bit_or a b / 2 ≡ bit_or (a / 2) (b / 2) = omega (arith, bit_or-halves a b) in
    rw e (bit-or i (a / 2) (b / 2))

pub bit-and : (i a b : ℕ) → bit i (bit_and a b) ≡ (bit i a && bit i b)
unfolding bit
bit-and zero a b = ground (arith, bit_and-halves a b)
bit-and (suc i) a b =
    let e : bit_and a b / 2 ≡ bit_and (a / 2) (b / 2) = omega (arith, bit_and-halves a b) in
    rw e (bit-and i (a / 2) (b / 2))

pub bit-pow : (i j : ℕ) → bit i (2 ^ j) ≡ (i == j)
unfolding bit
bit-pow zero zero = refl
bit-pow zero (suc j) = ground (arith, pow-even j)
bit-pow (suc i) zero = ground (arith, bit-zero i)
bit-pow (suc i) (suc j) = rw (pow-half j) (ground (arith, bit-pow i j))

-- Masks with the same bits are equal.
bit_ext_fuel : (n a b : ℕ) → a ≤ n → b ≤ n → ((i : ℕ) → bit i a ≡ bit i b) → a ≡ b
unfolding bit
bit_ext_fuel zero a b p q h = omega arith
bit_ext_fuel (suc n) a b p q h =
    let half : a / 2 ≡ b / 2 =
      bit_ext_fuel n (a / 2) (b / 2) (omega arith) (omega arith) (λ i. h (suc i)) in
    ground (arith, h 0, half)

pub bit_ext : (a b : ℕ) → ((i : ℕ) → bit i a ≡ bit i b) → a ≡ b
bit_ext a b = bit_ext_fuel (a + b) a b (omega arith) (omega arith)

and_true_left : (a b : Bool) → (a && b) ≡ b → b ≡ true → a ≡ true
and_true_left true b h e = refl
and_true_left false b h e = cc

and_absorb : (a b : Bool) → (b ≡ true → a ≡ true) → (a && b) ≡ b
and_absorb true b h = refl
and_absorb false true h = cc (h refl)
and_absorb false false h = refl

-- The test `(x & m) == m` holds exactly if `x` has every bit of `m`.
pub has_mask_iff :
    (x m : ℕ) → ((bit_and x m == m) ≡ true) ↔ ((i : ℕ) → bit i m ≡ true → bit i x ≡ true)
has_mask_iff x m = (
  λ h i e.
      let eq : bit_and x m ≡ m = (==_iff (bit_and x m) m).0 h in
      and_true_left (bit i x) (bit i m) (sym (bit-and i x m) ∙ ap (bit i) eq) e,
  λ h.
      (==_iff (bit_and x m) m).1
        (bit_ext (bit_and x m) m λ i. bit-and i x m ∙ and_absorb (bit i x) (bit i m) (h i)),
)
