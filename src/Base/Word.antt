-- ===== src/Base/Word.antt =====
-- Machine words as native numbers: wrap-around, and single flags of a `uint32_t` by `&`, `|`, `~`.
use Prim.Native.Nat.{ℕ, ◌+◌, ◌-◌, ◌%◌, ◌^◌, ◌<◌, bit_and, bit_or}
use mathlib.Core.Path.{◌≡◌, ap}
use mathlib.Core.Logic.{inl, inr}
use mathlib.Core.Bool.{Bool, true, false}
use native.Mathlib.Nat.{pow-le-pow_right}
use native.Mathlib.Omega.{arith}
use os.Base.Tests.{◌==◌, ◌!=◌, if◌then◌else◌, eq-cases}
use os.Base.Bits.{
  bit, bit-lt, bit-and, bit-or, bit-zero, bit-pow_self, bit-pow_ne, bit-not, eq_of_bits, bit_and-le,
  bit_or-lt,
}

abbrev pub u32_mod : ℕ
u32_mod = 2 ^ 32

-- a conversion to `uint32_t`
abbrev pub u32 : ℕ → ℕ
u32 n = n % 2 ^ 32

abbrev pub u8 : ℕ → ℕ
u8 n = n % 2 ^ 8

-- `a - b` on `uint32_t`
abbrev pub sub32 : ℕ → ℕ → ℕ
sub32 a b = (a + 2 ^ 32 - b) % 2 ^ 32

-- `~a` on `uint32_t`
abbrev pub not32 : ℕ → ℕ
not32 a = 2 ^ 32 - 1 - a

-- `w & (1 << k)` as a test
unfoldable pub has_flag : ℕ → ℕ → Bool
has_flag w k = bit_and w (2 ^ k) != 0

-- `w | (1 << k)`
unfoldable pub set_flag : ℕ → ℕ → ℕ
set_flag w k = bit_or w (2 ^ k)

-- `w & ~(1 << k)`
unfoldable pub clear_flag : ℕ → ℕ → ℕ
clear_flag w k = bit_and w (not32 (2 ^ k))

one_shl-lt : (k : ℕ) → k < 32 → 2 ^ k < 2 ^ 32
one_shl-lt k h =
    omega (arith, pow-le-pow_right {n = 2} (omega arith) {i = k} {j = 31} (omega arith))

bit-one_shl : (j k : ℕ) → bit (2 ^ j) k ≡ (if j == k then 1 else 0)
bit-one_shl j k = elim (eq-cases j k) [
  | inl e ↦ ground (arith, bit-pow_self k)
  | inr ne ↦ ground (arith, bit-pow_ne j k ne)
]

-- `w & (1 << k)` is not 0 exactly when digit `k` of `w` is 1
bit_and-one_shl : (w k : ℕ) → w < 2 ^ 32 → k < 32 → bit w k ≡ 0 → bit_and w (2 ^ k) ≡ 0
bit_and-one_shl w k hw hk e =
    eq_of_bits 32 (bit_and w (2 ^ k)) 0 (omega (arith, bit_and-le 32 w (2 ^ k) hw)) (omega arith)
      λ j hj. ground (arith, bit-and w (2 ^ k) j, bit-one_shl k j, bit-zero j)

bit_and-zero_lem : (w k : ℕ) → bit_and w (2 ^ k) ≡ 0 → bit w k ≡ 0
bit_and-zero_lem w k e =
    omega (arith, ap (λ t. bit t k) e, bit-and w (2 ^ k) k, bit-pow_self k, bit-zero k, bit-lt w k)

pub has_flag-bit : (w k : ℕ) → w < 2 ^ 32 → k < 32 → has_flag w k ≡ (bit w k == 1)
unfolding has_flag
has_flag-bit w k hw hk = ground (arith, bit_and-one_shl w k hw hk, bit_and-zero_lem w k, bit-lt w k)

pub set_flag-lt : (w k : ℕ) → w < 2 ^ 32 → k < 32 → set_flag w k < 2 ^ 32
unfolding set_flag
set_flag-lt w k hw hk = bit_or-lt 32 w (2 ^ k) hw (one_shl-lt k hk)

pub clear_flag-lt : (w k : ℕ) → w < 2 ^ 32 → clear_flag w k < 2 ^ 32
unfolding clear_flag
clear_flag-lt w k hw = omega (arith, bit_and-le 32 w (not32 (2 ^ k)) hw)

bit-set_flag : (w j k : ℕ) → bit (set_flag w j) k ≡ (if j == k then 1 else bit w k)
unfolding set_flag
bit-set_flag w j k = ground (arith, bit-or w (2 ^ j) k, bit-one_shl j k, bit-lt w k)

bit-clear_flag :
    (w j k : ℕ) → j < 32 → k < 32 → bit (clear_flag w j) k ≡ (if j == k then 0 else bit w k)
unfolding clear_flag
bit-clear_flag w j k hj hk = ground (
  arith,
  bit-and w (not32 (2 ^ j)) k,
  bit-not 32 (2 ^ j) k (one_shl-lt j hj) hk,
  bit-one_shl j k,
  bit-lt w k,
)

pub has_flag-set_flag :
    (w j k : ℕ)
    → w < 2 ^ 32
    → j < 32
    → k < 32
    → has_flag (set_flag w j) k ≡ (if j == k then true else has_flag w k)
has_flag-set_flag w j k hw hj hk = ground (
  arith,
  has_flag-bit (set_flag w j) k (set_flag-lt w j hw hj) hk,
  has_flag-bit w k hw hk,
  bit-set_flag w j k,
)

pub has_flag-clear_flag :
    (w j k : ℕ)
    → w < 2 ^ 32
    → j < 32
    → k < 32
    → has_flag (clear_flag w j) k ≡ (if j == k then false else has_flag w k)
has_flag-clear_flag w j k hw hj hk = ground (
  arith,
  has_flag-bit (clear_flag w j) k (clear_flag-lt w j hw) hk,
  has_flag-bit w k hw hk,
  bit-clear_flag w j k hj hk,
)
