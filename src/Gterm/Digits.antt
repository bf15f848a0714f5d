-- ===== src/Gterm/Digits.antt =====
-- drivers/video/gterminal.c: the digits that `gterminal_decprint` prints.
use os.Base.{
  ℕ, zero, suc, ◌+◌, ◌-◌, ◌*◌, ◌/◌, ◌^◌, ◌<◌, ◌≡◌, refl, ◌∙◌, arith, List, [], ◌∷◌, eq-cases, eq→==,
  ne→==, inl, inr,
}
use native.Mathlib.Nat.{pow-suc}
use os.Strings.{Bytes}
use os.Fb.{Framebuffer}
use os.Gterm.{
  Gterminal, Psf1Font, digits_of, reverse_onto, gterminal_decprint, gterminal_writestring,
}

-- The number that decimal digits stand for, the first digit first, after the number `n`.
pub read_onto : ℕ → List ℕ → ℕ
read_onto n [] = n
read_onto n (d ∷ ds) = read_onto (n * 10 + (d - b'0')) ds

-- The same, the last digit first.
value : List ℕ → ℕ
value [] = 0
value (d ∷ ds) = value ds * 10 + (d - b'0')

read-reverse : (ds rest : List ℕ) → read_onto 0 (reverse_onto ds rest) ≡ read_onto (value ds) rest
unfolding read_onto value reverse_onto
read-reverse [] rest = refl
read-reverse (d ∷ ds) rest = read-reverse ds (d ∷ rest)

value-digits : (fuel num : ℕ) → num < 10 ^ fuel → value (digits_of fuel num) ≡ num
unfolding value digits_of
value-digits zero num h = omega arith
value-digits (suc fuel) num h = elim (eq-cases num 0) [
  | inl z ↦ rw (eq→== _ _ z) (omega arith)
  | inr nz ↦
      rw (ne→== _ _ nz)
        (omega (arith, value-digits fuel (num / 10) (omega (arith, pow-suc 10 fuel))))
]

-- `gterminal_decprint` of a word prints decimal digits that stand for that word: ten rounds of the
-- loop are enough.
pub gterminal_decprint_lem :
    (num : ℕ) (g : Gterminal) (fb : Framebuffer) (font : Psf1Font) (m : Bytes)
    → num < 2 ^ 32
    → (ds : List ℕ) × (gterminal_decprint num g fb font m ≡ gterminal_writestring ds g fb font m)
      × (read_onto 0 ds ≡ num)
unfolding gterminal_decprint gterminal_writestring read_onto
gterminal_decprint_lem num g fb font m h = elim (eq-cases num 0) [
  | inl z ↦ (b'0' ∷ [], rw (eq→== _ _ z) refl, omega arith)
  | inr nz ↦ (
    reverse_onto (digits_of 10 num) [],
    rw (ne→== _ _ nz) refl,
    read-reverse (digits_of 10 num) [] ∙ value-digits 10 num (omega arith),
  )
]
