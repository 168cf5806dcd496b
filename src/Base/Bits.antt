-- ===== src/Base/Bits.antt =====
-- Laws of `&` with the masks that the program uses, and tables over a byte.
use Prim.Native.Nat.{
  ℕ, zero, suc, ◌+◌, ◌-◌, ◌*◌, ◌/◌, ◌%◌, ◌^◌, ◌≤◌, ◌<◌, min, bit_and, digits, bit_and-bitwise,
}
use mathlib.Core.Path.{◌≡◌, refl, ap, ◌∙◌}
use mathlib.Core.Bool.{Bool, true, ◌&&◌}
use native.Mathlib.Omega.{arith}
use native.Mathlib.Nat.{
  pow-suc, mul-one, div-one, mul_assoc, mul_comm, div-div-eq-div-mul, div-lt_iff_lt-mul, one-le-pow,
}

-- A test of every number below a bound.
unfoldable pub all_below : ℕ → (ℕ → Bool) → Bool
all_below zero p = true
all_below (suc n) p = p n && all_below n p

pub all_below-elim : (n : ℕ) (p : ℕ → Bool) (x : ℕ) → all_below n p ≡ true → x < n → p x ≡ true
unfolding all_below
all_below-elim zero p x h lt = absurd (omega arith)
all_below-elim (suc n) p x h lt = ground (arith, all_below-elim n p x)

abbrev and_by : ℕ → ℕ → ℕ → ℕ
and_by fuel a b = digits (λ _. zero) min fuel a b

-- Enough fuel is as good as more fuel.
and_by-eq : (n m a b : ℕ) → a ≤ n → a ≤ m → and_by n a b ≡ and_by m a b
and_by-eq zero zero a b p q = refl
and_by-eq zero (suc m) zero b p q = refl
and_by-eq zero (suc m) (suc a) b p q = absurd (omega arith)
and_by-eq (suc n) zero zero b p q = refl
and_by-eq (suc n) zero (suc a) b p q = absurd (omega arith)
and_by-eq (suc n) (suc m) zero b p q = refl
and_by-eq (suc n) (suc m) (suc a) b p q =
    omega (arith, and_by-eq n m (suc a / 2) (b / 2) (omega arith) (omega arith))

zero-bit_and : (b : ℕ) → bit_and 0 b ≡ 0
zero-bit_and b = bit_and-bitwise 0 b

-- `&` digit by digit.
pub bit_and-digit : (a b : ℕ) → bit_and a b ≡ bit_and (a / 2) (b / 2) * 2 + min (a % 2) (b % 2)
bit_and-digit zero b = omega (arith, zero-bit_and b, zero-bit_and (b / 2))
bit_and-digit (suc a) b = omega (
  arith,
  bit_and-bitwise (suc a) b,
  bit_and-bitwise (suc a / 2) (b / 2),
  and_by-eq a (suc a / 2) (suc a / 2) (b / 2) (omega arith) (omega arith),
)

bit_and-le_fuel : (n a b : ℕ) → a ≤ n → bit_and a b ≤ b
bit_and-le_fuel n zero b h = omega (arith, zero-bit_and b)
bit_and-le_fuel zero (suc a) b h = absurd (omega arith)
bit_and-le_fuel (suc n) (suc a) b h =
    omega (arith, bit_and-digit (suc a) b, bit_and-le_fuel n (suc a / 2) (b / 2) (omega arith))

-- `a & b` is at most the mask.
pub bit_and-le : (a b : ℕ) → bit_and a b ≤ b
bit_and-le a b = bit_and-le_fuel a a b (omega arith)

bit_and-even : (a b : ℕ) → bit_and a (b * 2) ≡ bit_and (a / 2) b * 2
bit_and-even a b =
    let half : b * 2 / 2 ≡ b = omega arith in
    let digit : bit_and a (b * 2) ≡ bit_and (a / 2) (b * 2 / 2) * 2 + min (a % 2) (b * 2 % 2) =
      bit_and-digit a (b * 2) in
    rw half at digit ∙ omega arith

-- A mask that is a multiple of 2 ^ k leaves a multiple of 2 ^ k.
pub bit_and_multiple : (k a m : ℕ) → bit_and a (m * 2 ^ k) ≡ bit_and (a / 2 ^ k) m * 2 ^ k
bit_and_multiple zero a m = rw (mul-one, div-one, mul-one)
bit_and_multiple (suc k) a m =
    let shift : m * 2 ^ suc k ≡ m * 2 ^ k * 2 = rw (pow-suc, ← mul_assoc) in
    rw
      (
        shift,
        bit_and-even a (m * 2 ^ k),
        bit_and_multiple k (a / 2) m,
        div-div-eq-div-mul,
        mul_comm 2 (2 ^ k),
        ← pow-suc,
      )
      (rw (pow-suc, ← mul_assoc))

-- A mask of ones leaves a number that is below it.
bit_and-ones : (w a : ℕ) → a < 2 ^ w → bit_and a (2 ^ w - 1) ≡ a
bit_and-ones zero a below =
    let nothing : a ≡ 0 = omega (arith, below) in rw nothing (zero-bit_and (2 ^ 0 - 1))
bit_and-ones (suc w) a below =
    let double : 2 ^ suc w ≡ 2 ^ w * 2 = pow-suc 2 w in
    let low : a / 2 < 2 ^ w = omega (arith, below, double) in
    let half : (2 ^ suc w - 1) / 2 ≡ 2 ^ w - 1 = omega (arith, double, below) in
    let digit = bit_and-digit a (2 ^ suc w - 1) in
    let digit' = rw half at digit in
    omega (arith, digit', bit_and-ones w (a / 2) low, double, below)

-- The mask that clears the low `k` bits of a number of `w + k` bits.
pub bit_and-aligned :
    (w k a : ℕ) → a < 2 ^ w * 2 ^ k → bit_and a ((2 ^ w - 1) * 2 ^ k) ≡ a / 2 ^ k * 2 ^ k
bit_and-aligned w k a below =
    bit_and_multiple k a (2 ^ w - 1)
    ∙ ap (λ (x : ℕ). x * 2 ^ k)
        (bit_and-ones w (a / 2 ^ k) ((div-lt_iff_lt-mul (one-le-pow k 2 (omega arith))).1 below))
