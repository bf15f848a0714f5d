-- ===== src/Gterm.antt =====
-- drivers/video/gterminal.c, the text terminal on the framebuffer, with `draw_char_psf` of
-- drivers/video/font_psf.c. The memory of bytes holds both the pixels and the glyphs. A `char` is
-- its byte, an `int` its word.
pub mod Cursor
pub mod Bounds
pub mod Digits
mod Tests
use os.Base.{
  ℕ, zero, suc, ◌+◌, ◌-◌, ◌*◌, ◌%◌, ◌/◌, ◌^◌, Bool, true, false, ◌&&◌, ◌||◌, List, [], ◌∷◌, leb,
  ltb, ◌==◌, ◌!=◌, if◌then◌else◌,
}
use os.Base.Word.{u32, sub32, has_flag}
use os.Strings.{Bytes, store_byte}
use os.Fb.{Framebuffer, is_negative, fb_putpixel, fill_rect}

pub record Gterminal : Type 0 where
  pub cursor_x : ℕ
  pub cursor_y : ℕ
  pub fg : ℕ
  pub bg : ℕ
  pub cols : ℕ
  pub rows : ℕ
  pub cursor_visible : ℕ
  pub cursor_char_under : ℕ

pub record Psf1Font : Type 0 where
  pub glyph_buffer : ℕ
  pub glyph_count : ℕ
  pub glyph_size : ℕ

-- The inner loop of `draw_char_psf` from `col` on, over the bits of a row of the glyph.
pub draw_bits : (rounds col x y bits color : ℕ) → Framebuffer → Bytes → Bytes
draw_bits zero col x y bits color fb m = m
draw_bits (suc rounds) col x y bits color fb m =
    let m' = (if has_flag bits (7 - col) then fb_putpixel fb (u32 (x + col)) y color m else m) in
    draw_bits rounds (col + 1) x y bits color fb m'

pub draw_rows : (rounds row x y glyph color : ℕ) → Framebuffer → Bytes → Bytes
draw_rows zero row x y glyph color fb m = m
draw_rows (suc rounds) row x y glyph color fb m =
    draw_rows rounds (row + 1) x y glyph color fb
      (draw_bits 8 0 x (u32 (y + row)) (m (u32 (glyph + row))) color fb m)

pub draw_char_psf : (x y c color : ℕ) → Psf1Font → Framebuffer → Bytes → Bytes
draw_char_psf x y c color font fb m =
    draw_rows font.glyph_size 0 x y (u32 (font.glyph_buffer + c * font.glyph_size)) color fb m

pub gterminal_init : Gterminal → Framebuffer → Psf1Font → Gterminal
gterminal_init gterm fb font = record {
  cursor_x = 0;
  cursor_y = 0;
  rows = fb.height / font.glyph_size;
  cols = fb.width / 8;
  fg = 0xFFFFFF;
  bg = 0x000000;
  cursor_visible = 1;
  cursor_char_under = b' ';
}

-- The copying loops of `gterminal_scroll`: row `y` takes the bytes of row `y + row_size`.
pub copy_row : (rounds x y row_size : ℕ) → Framebuffer → Bytes → Bytes
copy_row zero x y row_size fb m = m
copy_row (suc rounds) x y row_size fb m = copy_row rounds (x + 1) y row_size fb (
    store_byte m (u32 (fb.addr + u32 (y * fb.pitch + x)))
      (m (u32 (fb.addr + u32 ((y + row_size) * fb.pitch + x)))))

pub copy_rows : (rounds y row_size : ℕ) → Framebuffer → Bytes → Bytes
copy_rows zero y row_size fb m = m
copy_rows (suc rounds) y row_size fb m =
    copy_rows rounds (y + 1) row_size fb
      (copy_row (u32 (fb.width * (fb.bpp / 8))) 0 y row_size fb m)

pub gterminal_scroll : Gterminal → Framebuffer → Psf1Font → Bytes → Gterminal × Bytes
gterminal_scroll gterm fb font m =
    let row_size = font.glyph_size in
    let start = sub32 fb.height row_size in
    let moved = copy_rows start 0 row_size fb m in
    let cleared = fill_rect fb (fb.height - start) fb.width 0 start gterm.bg moved in
    (record gterm { cursor_y = sub32 gterm.cursor_y 1 }, cleared)

pub gterminal_clear : Gterminal → Framebuffer → Bytes → Gterminal × Bytes
gterminal_clear gterm fb m =
    (record gterm { cursor_x = 0; cursor_y = 0 }, fill_rect fb fb.height fb.width 0 0 gterm.bg m)

-- The cell at the cursor, in one color.
pub fill_cell : Gterminal → Framebuffer → Psf1Font → (color : ℕ) → Bytes → Bytes
fill_cell gterm fb font color m =
    fill_rect fb font.glyph_size 8 (u32 (gterm.cursor_x * 8))
      (u32 (gterm.cursor_y * font.glyph_size)) color m

pub gterminal_draw_cursor : Gterminal → Framebuffer → Psf1Font → Bytes → Bytes
gterminal_draw_cursor gterm fb font m =
    if gterm.cursor_visible != 0 then fill_cell gterm fb font gterm.fg m else m

pub gterminal_hide_cursor : Gterminal → Framebuffer → Psf1Font → Bytes → Bytes
gterminal_hide_cursor gterm fb font m =
    let m' = fill_cell gterm fb font gterm.bg m in
    if gterm.cursor_char_under != b' '
    then draw_char_psf (u32 (gterm.cursor_x * 8)) (u32 (gterm.cursor_y * font.glyph_size))
        gterm.cursor_char_under gterm.fg font fb m'
    else m'

-- `gterm->cursor_y++`, and a scroll when that leaves the last row.
pub next_row : Gterminal → Framebuffer → Psf1Font → Bytes → Gterminal × Bytes
next_row gterm fb font m =
    let below = record gterm { cursor_x = 0; cursor_y = u32 (gterm.cursor_y + 1) } in
    if leb below.rows below.cursor_y then gterminal_scroll below fb font m else (below, m)

-- The three branches of `gterminal_putchar`.
pub put_newline : Gterminal → Framebuffer → Psf1Font → Bytes → Gterminal × Bytes
put_newline gterm fb font m = next_row gterm fb font m

pub put_backspace : Gterminal → Framebuffer → Psf1Font → Bytes → Gterminal × Bytes
put_backspace gterm fb font m =
    let back =
      (if ltb 0 gterm.cursor_x
        then record gterm { cursor_x = gterm.cursor_x - 1 }
        else if ltb 0 gterm.cursor_y
        then record gterm { cursor_y = gterm.cursor_y - 1; cursor_x = sub32 gterm.cols 1 }
        else gterm) in
    (back, fill_cell back fb font back.bg m)

pub put_glyph : (c : ℕ) → Gterminal → Framebuffer → Psf1Font → Bytes → Gterminal × Bytes
put_glyph c gterm fb font m =
    let m' =
      draw_char_psf (u32 (gterm.cursor_x * 8)) (u32 (gterm.cursor_y * font.glyph_size)) c gterm.fg
        font fb m in
    let right = record gterm { cursor_x = u32 (gterm.cursor_x + 1) } in
    if leb right.cols right.cursor_x then next_row right fb font m' else (right, m')

pub gterminal_putchar : (c : ℕ) → Gterminal → Framebuffer → Psf1Font → Bytes → Gterminal × Bytes
gterminal_putchar c gterm fb font m =
    let hidden = gterminal_hide_cursor gterm fb font m in
    let r =
      (if c == 10
        then put_newline gterm fb font hidden
        else if c == 8
        then put_backspace gterm fb font hidden
        else put_glyph c gterm fb font hidden) in
    let gterm' = record (r.0) { cursor_char_under = b' ' } in
    (gterm', gterminal_draw_cursor gterm' fb font (r.1))

-- An `int` compared with a `uint32_t` is compared as a word.
pub gterminal_move_cursor :
    (row col : ℕ) → Gterminal → Framebuffer → Psf1Font → Bytes → Gterminal × Bytes
gterminal_move_cursor row col gterm fb font m =
    let row' = (if is_negative row then 0 else row) in
    let row'' = (if leb gterm.rows row' then sub32 gterm.rows 1 else row') in
    let col' = (if is_negative col then 0 else col) in
    let col'' = (if leb gterm.cols col' then sub32 gterm.cols 1 else col') in
    let hidden = gterminal_hide_cursor gterm fb font m in
    let gterm' = record gterm { cursor_x = col''; cursor_y = row'' } in
    (gterm', gterminal_draw_cursor gterm' fb font hidden)

-- The loop of `gterminal_clear_line_from` over the cells from `x` on.
pub clear_cells : (rounds x py : ℕ) → Gterminal → Framebuffer → Psf1Font → Bytes → Bytes
clear_cells zero x py gterm fb font m = m
clear_cells (suc rounds) x py gterm fb font m =
    clear_cells rounds (x + 1) py gterm fb font
      (fill_rect fb font.glyph_size 8 (u32 (x * 8)) py gterm.bg m)

pub gterminal_clear_line_from :
    (col : ℕ) → Gterminal → Framebuffer → Psf1Font → Bytes → Gterminal × Bytes
gterminal_clear_line_from col gterm fb font m =
    let col' = (if is_negative col then 0 else col) in
    if leb gterm.cols col'
    then (gterm, m)
    else (let py = u32 (gterm.cursor_y * font.glyph_size) in
        let m' = clear_cells (gterm.cols - col') col' py gterm fb font m in
        let gterm' = record gterm { cursor_x = col' } in
        (gterm', gterminal_draw_cursor gterm' fb font m'))

pub gterminal_set_colors : (fg bg : ℕ) → Gterminal → Gterminal
gterminal_set_colors fg bg gterm = record gterm { fg = fg; bg = bg }

-- The bytes of the string, without the 0 that ends it.
pub gterminal_writestring : List ℕ → Gterminal → Framebuffer → Psf1Font → Bytes → Gterminal × Bytes
gterminal_writestring [] gterm fb font m = (gterm, m)
gterminal_writestring (c ∷ str) gterm fb font m =
    let r = gterminal_putchar c gterm fb font m in gterminal_writestring str (r.0) fb font (r.1)

-- The digits that the first loop of `gterminal_decprint` leaves in `buffer`, the last first.
pub digits_of : (fuel num : ℕ) → List ℕ
digits_of zero num = []
digits_of (suc fuel) num =
    let rest = digits_of fuel (num / 10) in if num == 0 then [] else (b'0' + num % 10) ∷ rest

pub reverse_onto : List ℕ → List ℕ → List ℕ
reverse_onto [] ys = ys
reverse_onto (x ∷ xs) ys = reverse_onto xs (x ∷ ys)

-- A word has at most 10 digits.
pub gterminal_decprint : (num : ℕ) → Gterminal → Framebuffer → Psf1Font → Bytes → Gterminal × Bytes
gterminal_decprint num gterm fb font m =
    if num == 0
    then gterminal_putchar b'0' gterm fb font m
    else gterminal_writestring (reverse_onto (digits_of 10 num) []) gterm fb font m

pub gterminal_getfg : Gterminal → ℕ
gterminal_getfg gterm = gterm.fg

pub gterminal_getbg : Gterminal → ℕ
gterminal_getbg gterm = gterm.bg
