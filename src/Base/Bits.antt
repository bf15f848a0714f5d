-- ===== src/Base/Bits.antt =====
-- `bit a k` is the binary digit of `a` at position `k`: how `&` and `|` act on it, and that a
-- number is determined by its digits.
pub mod Step
use Step.{bit_and_step, bit_or_step}
use Prim.Native.Nat.{
  ℕ, zero, suc, ◌+◌, ◌-◌, ◌*◌, ◌/◌, ◌%◌, ◌^◌, ◌≤◌, ◌<◌, min, max, bit_and, bit_or, bit_and-bitwise,
}
use mathlib.Core.Path.{◌≡◌, refl, sym, ap, ◌∙◌}
use mathlib.Core.Logic.{◌≢◌}
use native.Mathlib.Nat.{pow-suc, one-le-pow}
use native.Mathlib.Omega.{arith}

pub bit : ℕ → ℕ → ℕ
bit a zero = a % 2
bit a (suc k) = bit (a / 2) k

pub bit-lt : (a k : ℕ) → bit a k < 2
unfolding bit
bit-lt a zero = omega arith
bit-lt a (suc k) = bit-lt (a / 2) k

pub bit-and : (a b k : ℕ) → bit (bit_and a b) k ≡ min (bit a k) (bit b k)
unfolding bit
bit-and a b zero = omega (arith, bit_and_step a b)
bit-and a b (suc k) =
    ap (λ t. bit t k) (omega (arith, bit_and_step a b)) ∙ bit-and (a / 2) (b / 2) k

pub bit-or : (a b k : ℕ) → bit (bit_or a b) k ≡ max (bit a k) (bit b k)
unfolding bit
bit-or a b zero = omega (arith, bit_or_step a b)
bit-or a b (suc k) = ap (λ t. bit t k) (omega (arith, bit_or_step a b)) ∙ bit-or (a / 2) (b / 2) k

pub bit-zero : (k : ℕ) → bit 0 k ≡ 0
unfolding bit
bit-zero zero = refl
bit-zero (suc k) = bit-zero k

two-pow-suc : (k : ℕ) → 2 ^ suc k ≡ 2 * 2 ^ k
two-pow-suc k = omega (arith, pow-suc 2 k)

pub bit-pow_self : (k : ℕ) → bit (2 ^ k) k ≡ 1
unfolding bit
bit-pow_self zero = refl
bit-pow_self (suc k) = ap (λ t. bit t k) (omega (arith, two-pow-suc k)) ∙ bit-pow_self k

pub bit-pow_ne : (j k : ℕ) → j ≢ k → bit (2 ^ j) k ≡ 0
unfolding bit
bit-pow_ne zero zero h = absurd (h refl)
bit-pow_ne zero (suc k) h = bit-zero k
bit-pow_ne (suc j) zero h = omega (arith, two-pow-suc j)
bit-pow_ne (suc j) (suc k) h =
    ap (λ t. bit t k) (omega (arith, two-pow-suc j)) ∙ bit-pow_ne j k (λ e. h (ap suc e))

-- the digits past the width of a number are 0
pub bit-past : (w a k : ℕ) → a < 2 ^ w → w ≤ k → bit a k ≡ 0
unfolding bit
bit-past zero a k h le = let e : a ≡ 0 = omega arith in rw e (bit-zero k)
bit-past (suc w) a zero h le = absurd (omega arith)
bit-past (suc w) a (suc k) h le = bit-past w (a / 2) k (omega (arith, two-pow-suc w)) (omega arith)

-- `~a` in `w` bits
pub bit-not : (w a k : ℕ) → a < 2 ^ w → k < w → bit (2 ^ w - 1 - a) k ≡ 1 - bit a k
unfolding bit
bit-not zero a k h lt = absurd (omega arith)
bit-not (suc w) a zero h lt = omega (arith, two-pow-suc w)
bit-not (suc w) a (suc k) h lt =
    ap (λ t. bit t k) (omega (arith, two-pow-suc w))
    ∙ bit-not w (a / 2) k (omega (arith, two-pow-suc w)) (omega arith)

-- numbers of at most `w` digits with the same digits are equal
pub eq_of_bits : (w a b : ℕ) → a < 2 ^ w → b < 2 ^ w → ((k : ℕ) → k < w → bit a k ≡ bit b k) → a ≡ b
unfolding bit
eq_of_bits zero a b ha hb h = omega arith
eq_of_bits (suc w) a b ha hb h = omega (
  arith,
  h 0 (omega arith),
  eq_of_bits w (a / 2) (b / 2) (omega (arith, two-pow-suc w)) (omega (arith, two-pow-suc w))
      (λ k hk. h (suc k) (omega arith)),
)

zero-bit_and : (b : ℕ) → bit_and 0 b ≡ 0
zero-bit_and b = bit_and-bitwise 0 b

pub bit_and-le : (w a b : ℕ) → a < 2 ^ w → bit_and a b ≤ a
bit_and-le zero a b h = let e : a ≡ 0 = omega arith in rw e (omega (arith, zero-bit_and b))
bit_and-le (suc w) a b h =
    omega (arith, bit_and_step a b, bit_and-le w (a / 2) (b / 2) (omega (arith, two-pow-suc w)))

pub bit_or-lt : (w a b : ℕ) → a < 2 ^ w → b < 2 ^ w → bit_or a b < 2 ^ w
bit_or-lt zero a b ha hb =
    let e : a ≡ 0 = omega arith in let f : b ≡ 0 = omega arith in rw (e, f) (omega arith)
bit_or-lt (suc w) a b ha hb = omega (
  arith,
  two-pow-suc w,
  bit_or_step a b,
  bit_or-lt w (a / 2) (b / 2) (omega (arith, two-pow-suc w)) (omega (arith, two-pow-suc w)),
)
