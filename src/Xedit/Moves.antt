-- ===== src/Xedit/Moves.antt =====
-- user_programs/xedit.c: the keys that go a line up or down.
use os.Base.{ℕ, ◌+◌, ◌-◌, ◌≤◌, ◌<◌, ◌≡◌, arith, false, leb, ◌==◌, if◌then◌else◌, ap₂, inl, inr}
use os.Xedit.{
  Editor, compute_cursor_line_col, find_line_start, find_line_end_from_start, move_cursor_up,
  move_cursor_down,
}
use os.Xedit.Editing.{IsValid}
use os.Xedit.Keys.{find_line_start_bound, find_line_end_from_start_bound}
use os.Xedit.Lines.{newlines_mono, IsStart, compute_cursor_line_col-IsAt, IsAt-unique}
use os.Xedit.Search.{find_line_start-Finds, IsAt-in_line, find_line_end_from_start-from}

-- Line and column of the cursor.
abbrev pub cursor_at : Editor → ℕ × ℕ
cursor_at e = compute_cursor_line_col e.cursor_pos e

-- The number of bytes of a line, and a column that it has.
abbrev pub line_length : (line : ℕ) → Editor → ℕ
line_length line e = find_line_end_from_start (find_line_start line e) e - find_line_start line e

abbrev pub column_in : (line col : ℕ) → Editor → ℕ
column_in line col e = if leb col (line_length line e) then col else line_length line e

-- A place in a line of the text is there.
column_in-at :
    (line col : ℕ) (e : Editor)
    → IsStart e.buffer line (find_line_start line e)
    → compute_cursor_line_col (find_line_start line e + column_in line col e) e
      ≡ (line, column_in line col e)
column_in-at line col e st =
    let start = find_line_start line e in
    let end = find_line_end_from_start start e in
    let from = find_line_end_from_start-from start e in
    let bound = find_line_end_from_start_bound start e (find_line_start_bound line e) in
    let pos = start + column_in line col e in
    let le : pos ≤ end = ground arith in
    let computed = compute_cursor_line_col-IsAt pos e (omega arith) in
    let found = compute_cursor_line_col pos e in
    let same =
      IsAt-unique e.buffer pos (found.0) (found.1) line (column_in line col e) computed
        (IsAt-in_line line start (column_in line col e) e st le) in
    ap₂ (λ l c. (l, c)) same.0 same.1

-- The line above the cursor is there.
line_above :
    (e : Editor)
    → IsValid e
    → 1 ≤ (cursor_at e).0
    → IsStart e.buffer ((cursor_at e).0 - 1) (find_line_start ((cursor_at e).0 - 1) e)
line_above e v pos =
    let at = compute_cursor_line_col-IsAt e.cursor_pos e v.cursor in
    elim (find_line_start-Finds ((cursor_at e).0 - 1) e) [
      | inl st ↦ st
      | inr (stop, few) ↦
          absurd
            (omega (arith, at.lines, newlines_mono e.buffer e.cursor_pos e.buffer_len v.cursor))
    ]

line_below :
    (line : ℕ) (e : Editor)
    → find_line_start line e < e.buffer_len
    → IsStart e.buffer line (find_line_start line e)
line_below line e lt = elim (find_line_start-Finds line e) [
  | inl st ↦ st
  | inr (stop, few) ↦ absurd (omega arith)
]

-- The key up takes the cursor from the first line to the start of the text, and from any other to the
-- line above; the key down to the line below, or to the end of the text if no line below has a byte.
-- In the line above or below the column is the one that the cursor had, as far as that line goes.
pub move_cursor_lem :
    (e : Editor)
    → IsValid e
    → (let (line, col) = cursor_at e in
        (line ≡ 0 → (move_cursor_up e).cursor_pos ≡ 0)
        × (1 ≤ line → cursor_at (move_cursor_up e) ≡ (line - 1, column_in (line - 1) col e))
        × (e.buffer_len ≤ find_line_start (line + 1) e
            → (move_cursor_down e).cursor_pos ≡ e.buffer_len)
        × (find_line_start (line + 1) e < e.buffer_len
            → cursor_at (move_cursor_down e) ≡ (line + 1, column_in (line + 1) col e)))
unfolding move_cursor_up move_cursor_down compute_cursor_line_col find_line_start
    find_line_end_from_start
move_cursor_lem e v = (
  λ top. ground arith,
  λ pos.
      let below : ((cursor_at e).0 == 0) ≡ false = ground arith in
      rw below (column_in-at ((cursor_at e).0 - 1) (cursor_at e).1 e (line_above e v pos)),
  λ last. ground arith,
  λ more.
      let there : leb e.buffer_len (find_line_start ((cursor_at e).0 + 1) e) ≡ false =
        ground arith in
      rw there (
        column_in-at ((cursor_at e).0 + 1) (cursor_at e).1 e
          (line_below ((cursor_at e).0 + 1) e more)),
)
