-- ===== src/Gterm/Cursor.antt =====
-- drivers/video/gterminal.c: where the cursor goes.
use os.Base.{
  ℕ, suc, ◌+◌, ◌-◌, ◌*◌, ◌^◌, ◌<◌, ◌≡◌, ◌≢◌, refl, ap, true, false, arith, List, [], ◌∷◌, leb, ltb,
  ◌==◌, if◌then◌else◌, eq-cases, eq→==, ne→==, lt→ltb, inl, inr,
}
use native.Mathlib.Nat.{suc-mul, mul-le-mul_right}
use os.Base.Word.{u32, sub32}
use os.Strings.{Bytes}
use os.Fb.{Framebuffer}
use os.Gterm.{
  gterminal_hide_cursor, Gterminal, Psf1Font, gterminal_putchar, put_newline, put_backspace,
  put_glyph, next_row, gterminal_scroll, gterminal_move_cursor, gterminal_writestring,
}

-- The cursor is on a cell of the screen.
pub record IsValid (g : Gterminal) : Type 0 where
  pub column : g.cursor_x < g.cols
  pub row : g.cursor_y < g.rows
  pub cols_fit : g.cols < 2 ^ 31
  pub rows_fit : g.rows < 2 ^ 31

-- The cells in the order of reading, from the top left one on.
abbrev pub cell : Gterminal → ℕ
cell g = g.cursor_y * g.cols + g.cursor_x

-- The cell after `cell g`, or the first of the last row when there is none.
pub advance : Gterminal → ℕ
advance g = if cell g + 1 == g.rows * g.cols then (g.rows - 1) * g.cols else cell g + 1

-- The row after `y`, which is the last one again when there is none.
abbrev pub row_after : (rows y : ℕ) → ℕ
row_after rows y = if y + 1 == rows then y else y + 1

next_row-cursor :
    (fb : Framebuffer) (font : Psf1Font) (g : Gterminal) (m : Bytes)
    → g.cursor_y < g.rows
    → g.rows < 2 ^ 31
    → (next_row g fb font m).0 ≡ record g { cursor_x = 0; cursor_y = row_after g.rows g.cursor_y }
unfolding next_row gterminal_scroll
next_row-cursor fb font g m hy hr =
    let up : u32 (g.cursor_y + 1) ≡ g.cursor_y + 1 = omega arith in
    elim (eq-cases (g.cursor_y + 1) g.rows) [
      | inl e ↦
          let full : leb g.rows (g.cursor_y + 1) ≡ true = ground arith in
          let down : sub32 (g.cursor_y + 1) 1 ≡ g.cursor_y = omega arith in
          rw (up, full, down, eq→== _ _ e) refl
      | inr ne ↦
          let room : leb g.rows (g.cursor_y + 1) ≡ false = ground arith in
          rw (up, room, ne→== _ _ ne) refl
    ]

abbrev blanked : Gterminal → Gterminal
blanked t = record t { cursor_char_under = b' ' }

-- Where `gterminal_putchar` leaves the cursor.
abbrev pub column_after : (c : ℕ) → Gterminal → ℕ
column_after c g =
    if c == 10
    then 0
    else if c == 8
    then (if ltb 0 g.cursor_x then g.cursor_x - 1 else if ltb 0 g.cursor_y then g.cols - 1 else 0)
    else if g.cursor_x + 1 == g.cols
    then 0
    else g.cursor_x + 1

abbrev pub line_after : (c : ℕ) → Gterminal → ℕ
line_after c g =
    if c == 10
    then row_after g.rows g.cursor_y
    else if c == 8
    then (if ltb 0 g.cursor_x then g.cursor_y else g.cursor_y - 1)
    else if g.cursor_x + 1 == g.cols
    then row_after g.rows g.cursor_y
    else g.cursor_y

module _ (fb : Framebuffer) (font : Psf1Font) (g : Gterminal) (m : Bytes) (v : IsValid g) where
  put_backspace-cursor :
      (put_backspace g fb font m).0
      ≡ record g { cursor_x = column_after 8 g; cursor_y = line_after 8 g }
  unfolding put_backspace
  put_backspace-cursor = elim (eq-cases g.cursor_x 0) [
    | inl zero_x ↦ elim (eq-cases g.cursor_y 0) [
      | inl zero_y ↦ rw (zero_x, zero_y) refl
      | inr up ↦
          let last : sub32 g.cols 1 ≡ g.cols - 1 = omega (arith, v.column, v.cols_fit) in
          rw (zero_x, lt→ltb 0 g.cursor_y (omega arith), last) refl
    ]
    | inr left ↦ rw (lt→ltb 0 g.cursor_x (omega arith)) refl
  ]

  put_glyph-cursor :
      (c : ℕ)
      → c ≢ 10
      → c ≢ 8
      → (put_glyph c g fb font m).0
        ≡ record g { cursor_x = column_after c g; cursor_y = line_after c g }
  unfolding put_glyph
  put_glyph-cursor c n10 n8 =
      let right : u32 (g.cursor_x + 1) ≡ g.cursor_x + 1 = omega (arith, v.column, v.cols_fit) in
      elim (eq-cases (g.cursor_x + 1) g.cols) [
        | inl e ↦
            let full : leb g.cols (g.cursor_x + 1) ≡ true = ground arith in
            rw (right, full, eq→== _ _ e, ne→== _ _ n10, ne→== _ _ n8)
              (next_row-cursor fb font (record g { cursor_x = g.cursor_x + 1 }) _ v.row v.rows_fit)
        | inr ne ↦
            let room : leb g.cols (g.cursor_x + 1) ≡ false = ground (arith, v.column) in
            rw (right, room, ne→== _ _ ne, ne→== _ _ n10, ne→== _ _ n8) refl
      ]

-- The cursor after a character, exactly, with nothing else of the terminal changed: to the left end
-- of the next row at a newline, one cell back at a backspace, one cell on at any other character,
-- where the row after the last one is the last one, scrolled.
pub gterminal_putchar-cursor :
    (c : ℕ) (fb : Framebuffer) (font : Psf1Font) (g : Gterminal) (m : Bytes)
    → IsValid g
    → (gterminal_putchar c g fb font m).0 ≡ record g {
      cursor_x = column_after c g;
      cursor_y = line_after c g;
      cursor_char_under = b' ';
    }
unfolding gterminal_putchar put_newline
gterminal_putchar-cursor c fb font g m v =
    let hidden = gterminal_hide_cursor g fb font m in
    elim (eq-cases c 10) [
      | inl e ↦ rw (eq→== _ _ e) (ap blanked (next_row-cursor fb font g hidden v.row v.rows_fit))
      | inr ne ↦ elim (eq-cases c 8) [
        | inl e ↦ rw e (ap blanked (put_backspace-cursor fb font g hidden v))
        | inr ne' ↦
            let step = put_glyph-cursor fb font g hidden v c ne ne' in
            rw (ne→== _ _ ne, ne→== _ _ ne') (ap blanked (rw (ne→== _ _ ne, ne→== _ _ ne') at step))
      ]
    ]

pub gterminal_putchar-IsValid :
    (c : ℕ) (fb : Framebuffer) (font : Psf1Font) (g : Gterminal) (m : Bytes)
    → IsValid g
    → IsValid (gterminal_putchar c g fb font m).0
gterminal_putchar-IsValid c fb font g m v = rw (gterminal_putchar-cursor c fb font g m v) (record {
  column = ground (arith, v.column);
  row = ground (arith, v.row);
  cols_fit = v.cols_fit;
  rows_fit = v.rows_fit;
})

next_cell :
    (x y cols rows : ℕ)
    → x < cols
    → y < rows
    → (if x + 1 == cols then row_after rows y else y) * cols + (if x + 1 == cols then 0 else x + 1)
      ≡ (if y * cols + x + 1 == rows * cols then (rows - 1) * cols else y * cols + x + 1)
next_cell x y cols rows hx hy =
    let next = suc-mul y cols in
    let below = mul-le-mul_right {m = suc y} {n = rows} cols (omega arith) in
    elim (eq-cases (x + 1) cols) [
      | inl e ↦ elim (eq-cases (y + 1) rows) [
        | inl e' ↦
            let last : y * cols + x + 1 ≡ rows * cols = rw (← e') (omega arith) in
            let y_is : y ≡ rows - 1 = omega arith in
            rw (eq→== _ _ e, eq→== _ _ e', eq→== _ _ last, ← y_is) (omega arith)
        | inr ne' ↦
            let after = mul-le-mul_right {m = suc (suc y)} {n = rows} cols (omega arith) in
            let more : y * cols + x + 1 ≢ rows * cols = omega (arith, suc-mul (suc y) cols) in
            rw (eq→== _ _ e, ne→== _ _ ne', ne→== _ _ more) (omega arith)
      ]
      | inr ne ↦
          let more : y * cols + x + 1 ≢ rows * cols = omega arith in
          rw (ne→== _ _ ne, ne→== _ _ more) (omega arith)
    ]

-- A character other than a newline and a backspace moves the cursor to the next cell in the order of
-- reading, or to the first of the last row when there is none.
pub gterminal_putchar-advance :
    (c : ℕ) (fb : Framebuffer) (font : Psf1Font) (g : Gterminal) (m : Bytes)
    → IsValid g
    → c ≢ 10
    → c ≢ 8
    → cell (gterminal_putchar c g fb font m).0 ≡ advance g
unfolding advance
gterminal_putchar-advance c fb font g m v n10 n8 =
    rw (gterminal_putchar-cursor c fb font g m v, ne→== _ _ n10, ne→== _ _ n8)
      (next_cell g.cursor_x g.cursor_y g.cols g.rows v.column v.row)

-- Any string leaves the cursor on the screen.
pub gterminal_writestring-IsValid :
    (str : List ℕ) (fb : Framebuffer) (font : Psf1Font) (g : Gterminal) (m : Bytes)
    → IsValid g
    → IsValid (gterminal_writestring str g fb font m).0
unfolding gterminal_writestring
gterminal_writestring-IsValid [] fb font g m v = v
gterminal_writestring-IsValid (c ∷ str) fb font g m v =
    gterminal_writestring-IsValid str fb font _ _ (gterminal_putchar-IsValid c fb font g m v)

-- Moving the cursor keeps it on the screen, wherever it is asked to go.
pub gterminal_move_cursor-IsValid :
    (row col : ℕ) (fb : Framebuffer) (font : Psf1Font) (g : Gterminal) (m : Bytes)
    → IsValid g
    → IsValid (gterminal_move_cursor row col g fb font m).0
unfolding gterminal_move_cursor
gterminal_move_cursor-IsValid row col fb font g m v = record {
  column = ground (arith, v.column, v.cols_fit);
  row = ground (arith, v.row, v.rows_fit);
  cols_fit = v.cols_fit;
  rows_fit = v.rows_fit;
}
