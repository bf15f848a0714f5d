-- ===== src/Gterm/Tests.antt =====
-- Examples of the framebuffer and the terminal: 80 columns and 30 rows of glyphs of 16 lines.
use os.Base.{◌≡◌, refl, arith, [], ◌∷◌}
use os.Strings.{Bytes}
use os.Fb.{Framebuffer}
use os.Fb.Bounds.{IsValid as IsValidFb, Within}
use os.Gterm.{Gterminal, Psf1Font, gterminal_init, gterminal_putchar, gterminal_writestring}
use os.Gterm.Cursor.{IsValid, column_after, line_after, gterminal_putchar-cursor}
use os.Gterm.Bounds.{gterminal_writestring-Within}

abbrev screen : Framebuffer
screen = record { addr = 0xFD00_0000; width = 640; height = 480; pitch = 2560; bpp = 32 }

abbrev font : Psf1Font
font = record { glyph_buffer = 0x20_0000; glyph_count = 256; glyph_size = 16 }

abbrev terminal : Gterminal
terminal = record {
  cursor_x = 79;
  cursor_y = 29;
  fg = 0xFFFFFF;
  bg = 0;
  cols = 80;
  rows = 30;
  cursor_visible = 1;
  cursor_char_under = b' ';
}

abbrev blank : Bytes
blank p = 0

screen-IsValid : IsValidFb screen
screen-IsValid = record { row = omega arith; size = omega arith }

terminal-IsValid : IsValid terminal
terminal-IsValid = record {
  column = omega arith;
  row = omega arith;
  cols_fit = omega arith;
  rows_fit = omega arith;
}

gterminal_init_test :
    gterminal_init terminal screen font ≡ record terminal { cursor_x = 0; cursor_y = 0 }
unfolding gterminal_init
gterminal_init_test = refl

gterminal_putchar-cursor_example :
    (gterminal_putchar b'x' terminal screen font blank).0 ≡ record terminal {
      cursor_x = column_after b'x' terminal;
      cursor_y = line_after b'x' terminal;
      cursor_char_under = b' ';
    }
gterminal_putchar-cursor_example =
    gterminal_putchar-cursor b'x' screen font terminal blank terminal-IsValid

gterminal_writestring-Within_example :
    Within screen blank (gterminal_writestring (b'o' ∷ b'k' ∷ 10 ∷ []) terminal screen font blank).1
gterminal_writestring-Within_example =
    gterminal_writestring-Within screen screen-IsValid font (omega arith) (omega arith)
      (b'o' ∷ b'k' ∷ 10 ∷ []) terminal blank
