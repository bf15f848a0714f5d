-- ===== src/Base/Bits/Step.antt =====
-- `&` and `|` act on the lowest digit and on the rest by themselves.
use Prim.Native.Nat
use Prim.Native.Nat.{ℕ, zero, suc, ◌+◌, ◌*◌, ◌/◌, ◌%◌, ◌≤◌, min, max, bit_and, bit_or}
use mathlib.Core.Path.{◌≡◌, refl}
use native.Mathlib.Omega.{arith}

-- `z` is what an operation makes of 0 and a number, `op` what it makes of two digits.
module _ (z : ℕ → ℕ) (op : ℕ → ℕ → ℕ) where
  -- Rounds past the value of the first number change nothing. `bound` is what the proof goes down on.
  surplus :
      (bound rounds a b : ℕ)
      → rounds ≤ bound
      → a ≤ rounds
      → Nat.digits z op rounds a b ≡ Nat.bitwise z op a b
  surplus bound zero a b small enough = let none : a ≡ 0 = omega arith in rw none refl
  surplus bound (suc rounds) zero b small enough = refl
  surplus zero (suc rounds) (suc a) b small enough = absurd (omega arith)
  surplus (suc bound) (suc rounds) (suc a) b small enough =
      let half = suc a / 2 in
      let long = surplus bound rounds half (b / 2) (omega arith) (omega arith) in
      let short = surplus bound a half (b / 2) (omega arith) (omega arith) in
      omega (arith, long, short)

  halves :
      ((b : ℕ) → z b ≡ 2 * z (b / 2) + op 0 (b % 2))
      → (a b : ℕ) → Nat.bitwise z op a b ≡ 2 * Nat.bitwise z op (a / 2) (b / 2) + op (a % 2) (b % 2)
  halves at_zero zero b = at_zero b
  halves at_zero (suc a) b =
      omega (arith, surplus a a (suc a / 2) (b / 2) (omega arith) (omega arith))

pub bit_and_step : (a b : ℕ) → bit_and a b ≡ 2 * bit_and (a / 2) (b / 2) + min (a % 2) (b % 2)
bit_and_step a b =
    rw (Nat.bit_and-bitwise a b, Nat.bit_and-bitwise (a / 2) (b / 2))
      (halves (λ _. 0) min (λ n. omega arith) a b)

pub bit_or_step : (a b : ℕ) → bit_or a b ≡ 2 * bit_or (a / 2) (b / 2) + max (a % 2) (b % 2)
bit_or_step a b =
    rw (Nat.bit_or-bitwise a b, Nat.bit_or-bitwise (a / 2) (b / 2))
      (halves (λ n. n) max (λ n. omega arith) a b)
