-- ===== src/Vga/Tests.antt =====
-- Examples of the text mode terminal.
use os.Base.{◌≡◌, refl, arith, [], ◌∷◌}
use os.Strings.{Bytes}
use os.Vga.{Terminal, nibble_to_hex, hex_digits}
use os.Vga.Screen.{OnScreen}

abbrev blank : Bytes
blank p = 0

abbrev corner : Terminal
corner = record {
  terminal_row = 59;
  terminal_column = 89;
  terminal_color = 7;
  mem = blank;
  ports = [];
}

corner-OnScreen : OnScreen blank corner
corner-OnScreen = record { row = omega arith; column = omega arith; outside = λ p out. refl }

hex_test : hex_digits 8 0xB8F0A ≡ b'0' ∷ b'0' ∷ b'0' ∷ b'B' ∷ b'8' ∷ b'F' ∷ b'0' ∷ b'A' ∷ []
unfolding hex_digits nibble_to_hex
hex_test = refl
