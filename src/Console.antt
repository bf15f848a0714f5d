-- ===== src/Console.antt =====
-- kernel/console.c: the console is the graphical terminal of the one `ui` context.
use os.Base.{ℕ, Bool, if◌then◌else◌, Option, some, List, [], ◌∷◌}
use os.Strings.{Bytes}
use os.Fb.{Framebuffer, fb_putpixel}
use os.Gterm.{
  Gterminal, Psf1Font, gterminal_putchar, gterminal_writestring, gterminal_clear,
  gterminal_move_cursor, gterminal_clear_line_from, gterminal_set_colors, gterminal_getfg,
  gterminal_getbg, gterminal_draw_cursor, gterminal_hide_cursor, gterminal_decprint,
}
use os.Theme.{Theme, load_theme}
use os.Fat.{FatFs}
use os.Base.Maybe.{◌>>=◌}
use os.Shell.{codes}

-- `ui_context_t`, with the memory.
pub record UiContext : Type 0 where
  pub fb : Framebuffer
  pub font : Psf1Font
  pub term : Gterminal
  pub theme : Theme
  pub mem : Bytes

-- The terminal and the memory after an operation.
abbrev pub updated : UiContext → Gterminal × Bytes → UiContext
updated ui r = record ui { term = r.0; mem = r.1 }

pub console_putchar : (c : ℕ) → UiContext → UiContext
console_putchar c ui = updated ui (gterminal_putchar c ui.term ui.fb ui.font ui.mem)

pub console_write : (str : List ℕ) → UiContext → UiContext
console_write str ui = updated ui (gterminal_writestring str ui.term ui.fb ui.font ui.mem)

pub console_clear : UiContext → UiContext
console_clear ui = updated ui (gterminal_clear ui.term ui.fb ui.mem)

pub console_move_cursor : (row col : ℕ) → UiContext → UiContext
console_move_cursor row col ui =
    updated ui (gterminal_move_cursor row col ui.term ui.fb ui.font ui.mem)

pub console_clear_line_from : (col : ℕ) → UiContext → UiContext
console_clear_line_from col ui =
    updated ui (gterminal_clear_line_from col ui.term ui.fb ui.font ui.mem)

pub console_set_colors : (fg bg : ℕ) → UiContext → UiContext
console_set_colors fg bg ui = record ui { term = gterminal_set_colors fg bg ui.term }

pub console_get_fg : UiContext → ℕ
console_get_fg ui = gterminal_getfg ui.term

pub console_get_bg : UiContext → ℕ
console_get_bg ui = gterminal_getbg ui.term

pub console_draw_cursor : UiContext → UiContext
console_draw_cursor ui = record ui { mem = gterminal_draw_cursor ui.term ui.fb ui.font ui.mem }

pub console_hide_cursor : UiContext → UiContext
console_hide_cursor ui = record ui { mem = gterminal_hide_cursor ui.term ui.fb ui.font ui.mem }

pub console_decprint : (num : ℕ) → UiContext → UiContext
console_decprint num ui = updated ui (gterminal_decprint num ui.term ui.fb ui.font ui.mem)

pub console_putpixel : (x y color : ℕ) → UiContext → UiContext
console_putpixel x y color ui = record ui { mem = fb_putpixel ui.fb x y color ui.mem }

-- `load_theme` prints the path, and a message when the file does not open, on this console.
unfoldable pub console_changetheme :
    (F : FatFs)
    → (fuel : ℕ) → (path : List ℕ) → UiContext
    → F.State
    → Option (Bool × UiContext × F.State)
console_changetheme F fuel path ui fs = load_theme F fuel path fs >>= λ loaded.
    let printed = console_write (10 ∷ []) (console_write path ui) in
    let told : UiContext =
      if loaded.0 then printed else console_write (codes "couldnt open file\n") printed in
    let white = loaded.1.white in
    some (loaded.0, console_set_colors white white (record told { theme = loaded.1 }), loaded.2)

pub console_gettheme : UiContext → Theme
console_gettheme ui = ui.theme
