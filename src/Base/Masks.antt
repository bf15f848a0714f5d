-- ===== src/Base/Masks.antt =====
-- `&` with a mask of low or of high digits, and `|` of numbers that share no digit.
use Prim.Native.Nat.{
  ℕ, zero, suc, ◌+◌, ◌-◌, ◌*◌, ◌/◌, ◌%◌, ◌^◌, ◌≤◌, ◌<◌, bit_and, bit_or, bit_or-bitwise,
}
use mathlib.Core.Path.{◌≡◌, refl, sym, ap, ◌∙◌}
use native.Mathlib.Nat.{pow-suc, div-add-mod', mod-lt, div-div-eq-div-mul}
use native.Mathlib.Omega.{arith}
use os.Base.Bits.Step.{bit_and_step, bit_or_step}

scale-suc : (q k : ℕ) → q * 2 ^ suc k ≡ 2 * (q * 2 ^ k)
scale-suc q k = rw (pow-suc 2 k) (omega arith)

two-pow_suc : (k : ℕ) → 2 ^ suc k ≡ 2 * 2 ^ k
two-pow_suc k = omega (arith, pow-suc 2 k)

bit_and-zero_bounded : (bound a : ℕ) → a ≤ bound → bit_and a 0 ≡ 0
bit_and-zero_bounded zero a h = let none : a ≡ 0 = omega arith in rw none refl
bit_and-zero_bounded (suc bound) a h =
    omega (arith, bit_and_step a 0, bit_and-zero_bounded bound (a / 2) (omega arith))

pub bit_and-zero : (a : ℕ) → bit_and a 0 ≡ 0
bit_and-zero a = bit_and-zero_bounded a a (omega arith)

bit_or-zero_bounded : (bound a : ℕ) → a ≤ bound → bit_or a 0 ≡ a
bit_or-zero_bounded zero a h = let none : a ≡ 0 = omega arith in rw none refl
bit_or-zero_bounded (suc bound) a h =
    omega (arith, bit_or_step a 0, bit_or-zero_bounded bound (a / 2) (omega arith))

pub bit_or-zero : (a : ℕ) → bit_or a 0 ≡ a
bit_or-zero a = bit_or-zero_bounded a a (omega arith)

-- The mask `2 ^ k - 1` keeps the `k` low digits.
pub bit_and-low : (k q r : ℕ) → r < 2 ^ k → bit_and (q * 2 ^ k + r) (2 ^ k - 1) ≡ r
bit_and-low zero q r h = omega (arith, bit_and-zero (q * 1 + r))
bit_and-low (suc k) q r h =
    let step = bit_and_step (q * 2 ^ suc k + r) (2 ^ suc k - 1) in
    let half : (q * 2 ^ suc k + r) / 2 ≡ q * 2 ^ k + r / 2 = omega (arith, scale-suc q k) in
    let mask : (2 ^ suc k - 1) / 2 ≡ 2 ^ k - 1 = omega (arith, two-pow_suc k) in
    let rest = bit_and-low k q (r / 2) (omega (arith, two-pow_suc k)) in
    let step' = rw (half, mask, rest) at step in omega (arith, scale-suc q k, two-pow_suc k)

-- The mask `m * 2 ^ k` drops the `k` low digits.
pub bit_and-high :
    (k q r m : ℕ) → r < 2 ^ k → bit_and (q * 2 ^ k + r) (m * 2 ^ k) ≡ bit_and q m * 2 ^ k
bit_and-high zero q r m h =
    let e : q * 1 + r ≡ q = omega arith in
    let e' : m * 1 ≡ m = omega arith in rw (e, e') (omega arith)
bit_and-high (suc k) q r m h =
    let step = bit_and_step (q * 2 ^ suc k + r) (m * 2 ^ suc k) in
    let half : (q * 2 ^ suc k + r) / 2 ≡ q * 2 ^ k + r / 2 = omega (arith, scale-suc q k) in
    let mask : m * 2 ^ suc k / 2 ≡ m * 2 ^ k = omega (arith, scale-suc m k) in
    let rest = bit_and-high k q (r / 2) m (omega (arith, two-pow_suc k)) in
    let step' = rw (half, mask, rest) at step in
    omega (arith, scale-suc m k, scale-suc (bit_and q m) k)

-- `|` of a multiple of `2 ^ k` and a number below `2 ^ k` is their sum.
pub bit_or-add : (k q r : ℕ) → r < 2 ^ k → bit_or (q * 2 ^ k) r ≡ q * 2 ^ k + r
bit_or-add zero q r h =
    let none : r ≡ 0 = omega arith in rw none (omega (arith, bit_or-zero (q * 1)))
bit_or-add (suc k) q r h =
    let step = bit_or_step (q * 2 ^ suc k) r in
    let half : q * 2 ^ suc k / 2 ≡ q * 2 ^ k = omega (arith, scale-suc q k) in
    let rest = bit_or-add k q (r / 2) (omega (arith, two-pow_suc k)) in
    let step' = rw (half, rest) at step in omega (arith, scale-suc q k)

-- `a & (2 ^ k - 1)` is the remainder.
pub bit_and-mod : (k a : ℕ) → 0 < 2 ^ k → bit_and a (2 ^ k - 1) ≡ a % 2 ^ k
bit_and-mod k a pos =
    ap (λ t. bit_and t (2 ^ k - 1)) (sym (div-add-mod' a (2 ^ k)))
    ∙ bit_and-low k (a / 2 ^ k) (a % 2 ^ k) (mod-lt a pos)

-- `a & ~0xFFF` is the address of the page of `a`.
pub bit_and-page : (a : ℕ) → a < 2 ^ 32 → bit_and a 0xFFFF_F000 ≡ a / 4096 * 4096
bit_and-page a h =
    let high = bit_and-high 12 (a / 4096) (a % 4096) 0xFFFFF (omega arith) in
    let low = bit_and-mod 20 (a / 4096) (omega arith) in
    let split : a / 4096 * 2 ^ 12 + a % 4096 ≡ a = omega arith in
    let high' = rw (split, low) at high in omega arith

-- The address of a page with flags in its low digits.
pub bit_or-page : (a f : ℕ) → a % 4096 ≡ 0 → f < 4096 → bit_or a f ≡ a + f
bit_or-page a f aligned h =
    let split : a / 4096 * 2 ^ 12 ≡ a = omega arith in
    let sum = bit_or-add 12 (a / 4096) f h in let sum' = rw split at sum in sum'

half-div : (x k : ℕ) → x / 2 / 2 ^ k ≡ x / 2 ^ suc k
half-div x k = div-div-eq-div-mul x 2 (2 ^ k) ∙ ap (λ t. x / t) (sym (two-pow_suc k))

-- `|` with a single flag that is not set adds it.
pub bit_or-flag : (k x : ℕ) → x / 2 ^ k % 2 ≡ 0 → bit_or x (2 ^ k) ≡ x + 2 ^ k
bit_or-flag zero x h = omega (arith, bit_or_step x 1, bit_or-zero (x / 2))
bit_or-flag (suc k) x h =
    let step = bit_or_step x (2 ^ suc k) in
    let mask : 2 ^ suc k / 2 ≡ 2 ^ k = omega (arith, two-pow_suc k) in
    let clear : x / 2 / 2 ^ k % 2 ≡ 0 = rw (half-div x k) h in
    let rest = bit_or-flag k (x / 2) clear in
    let step' = rw (mask, rest) at step in omega (arith, two-pow_suc k)

zero-bit_or : (b : ℕ) → bit_or 0 b ≡ b
zero-bit_or b = bit_or-bitwise 0 b

-- `|` of a number below `2 ^ k` and a multiple of `2 ^ k`.
pub bit_or-add_left : (k q r : ℕ) → r < 2 ^ k → bit_or r (q * 2 ^ k) ≡ q * 2 ^ k + r
bit_or-add_left zero q r h =
    let none : r ≡ 0 = omega arith in rw none (omega (arith, zero-bit_or (q * 1)))
bit_or-add_left (suc k) q r h =
    let step = bit_or_step r (q * 2 ^ suc k) in
    let half : q * 2 ^ suc k / 2 ≡ q * 2 ^ k = omega (arith, scale-suc q k) in
    let rest = bit_or-add_left k q (r / 2) (omega (arith, two-pow_suc k)) in
    let step' = rw (half, rest) at step in omega (arith, scale-suc q k)
