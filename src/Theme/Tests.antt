-- ===== src/Theme/Tests.antt =====
-- Examples of themes: a file of one line, and a byte that no newline follows.
use os.Base.{ℕ, ◌≡◌, refl, true, arith, some, List, [], ◌∷◌}
use os.Fat.Memory.{Disk, memory}
use os.Theme.{
  default_theme, load_theme, read_opened, read_blocks, read_block, read_byte, parse_line,
  until_zero, starts_with, hex_to_uint32, hex_loop, digit_value,
}
use os.Theme.Hex.{print_color, hex_to_uint32-print_color}
use os.Theme.Lines.{concat, ended_lines, settings, load_theme_lem}

-- `red=#010203`, a newline, and `b`.
abbrev text : List ℕ
text = b'r' ∷ b'e' ∷ b'd' ∷ b'=' ∷ b'#' ∷ b'0' ∷ b'1' ∷ b'0' ∷ b'2' ∷ b'0' ∷ b'3' ∷ 10 ∷ b'b' ∷ []

abbrev idle : Disk
idle = record { opened = 0; at = 0; entry = 0 }

abbrev read_to_end : Disk
read_to_end = record { opened = 1; at = 13; entry = 0 }

load_theme_test :
    load_theme (memory text []) 2 (b'a' ∷ []) idle
    ≡ some (true, record default_theme { red = 0x10203 }, record read_to_end { opened = 0 })
unfolding load_theme read_opened read_blocks read_block read_byte parse_line until_zero starts_with
    hex_to_uint32 hex_loop digit_value
load_theme_test = refl

load_theme_example :
    load_theme (memory text []) 2 (b'a' ∷ []) idle
    ≡ some (
      true,
      settings (ended_lines [] (concat (text ∷ []))) default_theme,
      record read_to_end { opened = 0 },
    )
load_theme_example =
    load_theme_lem (memory text []) 0 (b'a' ∷ []) idle read_to_end (text ∷ []) 2 refl
      (refl, refl, omega arith, (refl, refl)) (omega arith)

hex_to_uint32-print_color_example : hex_to_uint32 (print_color 0x181825) ≡ 0x181825
hex_to_uint32-print_color_example = hex_to_uint32-print_color 0x181825 (omega arith)
