-- ===== src/Gterm/Bounds.antt =====
-- drivers/video/gterminal.c: what the terminal draws stays in the framebuffer.
use os.Base.{
  ℕ, zero, suc, ◌+◌, ◌-◌, ◌*◌, ◌/◌, ◌^◌, ◌≤◌, ◌<◌, ◌≢◌, refl, ◌∙◌, Bool, true, false, arith, List,
  [], ◌∷◌, leb, ◌==◌, ◌!=◌, if◌then◌else◌, Bool-cases, inl, inr,
}
use native.Mathlib.Nat.{suc-mul, mul-le-mul_right}
use os.Base.Word.{u32, sub32, has_flag}
use os.Strings.{Bytes}
use os.Fb.{Framebuffer}
use os.Fb.Bounds.{IsValid, Within, Within-trans, fb_putpixel-Within, fill_rect-Within}
use os.Gterm.{
  Gterminal, Psf1Font, draw_bits, draw_rows, draw_char_psf, copy_row, copy_rows, gterminal_scroll,
  fill_cell, gterminal_draw_cursor, gterminal_hide_cursor, next_row, put_newline, put_backspace,
  put_glyph, gterminal_putchar, gterminal_writestring,
}

Within-if :
    (fb : Framebuffer) (b : Bool) (m m1 m2 : Bytes)
    → Within fb m m1
    → Within fb m m2
    → Within fb m (if b then m1 else m2)
Within-if fb true m m1 m2 h1 h2 = h1
Within-if fb false m m1 m2 h1 h2 = h2

module _ (fb : Framebuffer) (v : IsValid fb) where
  draw_bits-Within :
      (rounds col x y bits color : ℕ) (m : Bytes)
      → Within fb m (draw_bits rounds col x y bits color fb m)
  unfolding draw_bits
  draw_bits-Within zero col x y bits color m p out = refl
  draw_bits-Within (suc rounds) col x y bits color m p out =
      draw_bits-Within rounds (col + 1) x y bits color _ p out
      ∙ Within-if fb (has_flag bits (7 - col)) m _ m
          (fb_putpixel-Within fb (u32 (x + col)) y color m v) (λ q o. refl) p out

  draw_rows-Within :
      (rounds row x y glyph color : ℕ) (m : Bytes)
      → Within fb m (draw_rows rounds row x y glyph color fb m)
  unfolding draw_rows
  draw_rows-Within zero row x y glyph color m p out = refl
  draw_rows-Within (suc rounds) row x y glyph color m p out =
      draw_rows-Within rounds (row + 1) x y glyph color _ p out
      ∙ draw_bits-Within 8 0 x (u32 (y + row)) (m (u32 (glyph + row))) color m p out

  draw_char_psf-Within :
      (x y c color : ℕ) (font : Psf1Font) (m : Bytes)
      → Within fb m (draw_char_psf x y c color font fb m)
  unfolding draw_char_psf
  draw_char_psf-Within x y c color font m =
      draw_rows-Within font.glyph_size 0 x y (u32 (font.glyph_buffer + c * font.glyph_size)) color m

  copy_row-Within :
      (rounds x y row_size : ℕ) (m : Bytes)
      → x + rounds ≤ fb.pitch
      → y < fb.height
      → Within fb m (copy_row rounds x y row_size fb m)
  unfolding copy_row
  copy_row-Within zero x y row_size m hx hy p out = refl
  copy_row-Within (suc rounds) x y row_size m hx hy p out =
      let below = mul-le-mul_right {m = suc y} {n = fb.height} fb.pitch (omega arith) in
      let inside : y * fb.pitch + x < fb.height * fb.pitch = omega (arith, suc-mul y fb.pitch) in
      let ne : p ≢ u32 (fb.addr + u32 (y * fb.pitch + x)) = omega (arith, v.size) in
      copy_row-Within rounds (x + 1) y row_size _ (omega arith) hy p out ∙ ground arith

  copy_rows-Within :
      (rounds y row_size : ℕ) (m : Bytes)
      → y + rounds ≤ fb.height
      → Within fb m (copy_rows rounds y row_size fb m)
  unfolding copy_rows
  copy_rows-Within zero y row_size m hy p out = refl
  copy_rows-Within (suc rounds) y row_size m hy p out =
      copy_rows-Within rounds (y + 1) row_size _ (omega arith) p out
      ∙ copy_row-Within (u32 (fb.width * (fb.bpp / 8))) 0 y row_size m (omega (arith, v.row))
          (omega arith) p out

  module _ (font : Psf1Font) (fits : font.glyph_size ≤ fb.height) (small : fb.height < 2 ^ 31) where
    scroll-Within : (g : Gterminal) (m : Bytes) → Within fb m (gterminal_scroll g fb font m).1
    unfolding gterminal_scroll
    scroll-Within g m p out =
        fill_rect-Within fb _ fb.width 0 _ g.bg _ v p out
        ∙ copy_rows-Within (sub32 fb.height font.glyph_size) 0 font.glyph_size m (omega arith) p out

    fill_cell-Within :
        (g : Gterminal) (color : ℕ) (m : Bytes) → Within fb m (fill_cell g fb font color m)
    unfolding fill_cell
    fill_cell-Within g color m = fill_rect-Within fb font.glyph_size 8 _ _ color m v

    draw_cursor-Within :
        (g : Gterminal) (m : Bytes) → Within fb m (gterminal_draw_cursor g fb font m)
    unfolding gterminal_draw_cursor
    draw_cursor-Within g m =
        Within-if fb (g.cursor_visible != 0) m _ m (fill_cell-Within g g.fg m) (λ p out. refl)

    hide_cursor-Within :
        (g : Gterminal) (m : Bytes) → Within fb m (gterminal_hide_cursor g fb font m)
    unfolding gterminal_hide_cursor
    hide_cursor-Within g m =
        let cleared = fill_cell-Within g g.bg m in
        Within-if fb (g.cursor_char_under != b' ') m _ _
          (Within-trans fb cleared (draw_char_psf-Within _ _ g.cursor_char_under g.fg font _))
          cleared

    next_row-Within : (g : Gterminal) (m : Bytes) → Within fb m (next_row g fb font m).1
    unfolding next_row
    next_row-Within g m = elim (Bool-cases (leb g.rows (u32 (g.cursor_y + 1)))) [
      | inl e ↦ rw e (scroll-Within _ m)
      | inr e ↦ rw e (λ p out. refl)
    ]

    put_glyph-Within : (c : ℕ) (g : Gterminal) (m : Bytes) → Within fb m (put_glyph c g fb font m).1
    unfolding put_glyph
    put_glyph-Within c g m = elim (Bool-cases (leb g.cols (u32 (g.cursor_x + 1)))) [
      | inl e ↦
          rw e (Within-trans fb (draw_char_psf-Within _ _ c g.fg font m) (next_row-Within _ _))
      | inr e ↦ rw e (draw_char_psf-Within _ _ c g.fg font m)
    ]

    put_backspace-Within : (g : Gterminal) (m : Bytes) → Within fb m (put_backspace g fb font m).1
    unfolding put_backspace
    put_backspace-Within g m = fill_cell-Within _ _ m

    branch-Within :
        (c : ℕ) (g : Gterminal) (m : Bytes)
        → Within fb m
            (if c == 10
              then put_newline g fb font m
              else if c == 8
              then put_backspace g fb font m
              else put_glyph c g fb font m).1
    unfolding put_newline
    branch-Within c g m = elim (Bool-cases (c == 10)) [
      | inl e ↦ rw e (next_row-Within g m)
      | inr e ↦ elim (Bool-cases (c == 8)) [
        | inl e' ↦ rw (e, e') (put_backspace-Within g m)
        | inr e' ↦ rw (e, e') (put_glyph-Within c g m)
      ]
    ]

    gterminal_putchar-Within :
        (c : ℕ) (g : Gterminal) (m : Bytes) → Within fb m (gterminal_putchar c g fb font m).1
    unfolding gterminal_putchar
    gterminal_putchar-Within c g m =
        Within-trans fb (hide_cursor-Within g m)
          (Within-trans fb (branch-Within c g _) (draw_cursor-Within _ _))

    -- In a valid framebuffer that is as high as a glyph, printing a string writes nothing outside
    -- the framebuffer, wherever the cursor is.
    pub gterminal_writestring-Within :
        (str : List ℕ) (g : Gterminal) (m : Bytes)
        → Within fb m (gterminal_writestring str g fb font m).1
    unfolding gterminal_writestring
    gterminal_writestring-Within [] g m = λ p out. refl
    gterminal_writestring-Within (c ∷ str) g m =
        Within-trans fb (gterminal_putchar-Within c g m) (gterminal_writestring-Within str _ _)
