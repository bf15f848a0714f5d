-- ===== src/Theme/Hex.antt =====
-- ui/theme.c: the colors that `hex_to_uint32` reads.
use os.Base.{ℕ, ◌+◌, ◌-◌, ◌%◌, ◌/◌, ◌^◌, ◌<◌, ◌≡◌, arith, List, [], ◌∷◌, ltb, if◌then◌else◌}
use os.Theme.{digit_value, hex_loop, hex_to_uint32}

-- The hexadecimal digit of a number below 16, in small letters.
pub hex_digit : ℕ → ℕ
hex_digit n = if ltb n 10 then b'0' + n else b'a' + (n - 10)

-- A color as `#rrggbb`.
pub print_color : ℕ → List ℕ
print_color color =
    b'#'
    ∷ hex_digit (color / 2 ^ 20 % 16)
    ∷ hex_digit (color / 2 ^ 16 % 16)
    ∷ hex_digit (color / 2 ^ 12 % 16)
    ∷ hex_digit (color / 2 ^ 8 % 16)
    ∷ hex_digit (color / 2 ^ 4 % 16)
    ∷ hex_digit (color % 16)
    ∷ []

digit_value-hex_digit : (n : ℕ) → n < 16 → digit_value (hex_digit n) ≡ n
unfolding digit_value hex_digit
digit_value-hex_digit n h = ground arith

-- Reading a color of 24 bits that was written as `#rrggbb` gives that color.
pub hex_to_uint32-print_color :
    (color : ℕ) → color < 2 ^ 24 → hex_to_uint32 (print_color color) ≡ color
unfolding hex_to_uint32 print_color hex_loop
hex_to_uint32-print_color color h =
    rw
      (
        digit_value-hex_digit (color / 2 ^ 20 % 16) (omega arith),
        digit_value-hex_digit (color / 2 ^ 16 % 16) (omega arith),
        digit_value-hex_digit (color / 2 ^ 12 % 16) (omega arith),
        digit_value-hex_digit (color / 2 ^ 8 % 16) (omega arith),
        digit_value-hex_digit (color / 2 ^ 4 % 16) (omega arith),
        digit_value-hex_digit (color % 16) (omega arith),
      )
      (omega arith)
