-- ===== src/Xedit/Rows.antt =====
-- user_programs/xedit.c: the rows of the screen that have the cursor.
use os.Base.{
  ◌^◌, List, ◌∷◌, ◌++◌, ℕ, zero, suc, ◌+◌, ◌-◌, ◌<◌, ◌≡◌, ◌≢◌, refl, ◌∙◌, ap, arith, true, ◌&&◌,
  leb, ltb, subst, ◌==◌, if◌then◌else◌, lt-cases, eq-cases, ne→==, inl, inr, Bool-cases,
}
use os.Theme.{Theme}
use os.Xedit.{Editor, find_line_start, find_line_end_from_start}
use os.Xedit.Editing.{IsValid}
use os.Xedit.Keys.{find_line_start_bound, find_line_end_from_start_bound}
use os.Xedit.Draw.{redraw_line, redraw_lines}
use os.Xedit.Lines.{
  newlines, newlines_mono, IsStart, IsAt, compute_cursor_line_col-IsAt, IsAt-unique, IsStart-unique,
}
use os.Xedit.Search.{
  find_line_start-Finds, IsAt-in_line, find_line_end_from_start-from,
  find_line_end_from_start-behind,
}
use os.Xedit.Moves.{cursor_at}
use os.Base.Word.{sub32}
use os.Xedit.Files.{Out, movecursor}
use os.Xedit.Still.{marks_in, marks_in-still, row_body, redraw_line-body, row_body-IsStill}
use os.Xedit.Cursor.{mark, cursor_marks, cursor_marks-row}

-- The number of the last line.
abbrev pub last_line : Editor → ℕ
last_line e = newlines e.buffer e.buffer_len

-- The cursor is between the start and the end of the line that it stands in, and of no other.
pub between_iff :
    (line : ℕ) (e : Editor)
    → IsValid e
    → IsStart e.buffer line (find_line_start line e)
    → (let start = find_line_start line e in
        let end = find_line_end_from_start start e in
        (leb start e.cursor_pos && leb e.cursor_pos end) ≡ (line == (cursor_at e).0))
between_iff line e v st =
    let start = find_line_start line e in
    let at = compute_cursor_line_col-IsAt e.cursor_pos e v.cursor in
    elim (eq-cases line (cursor_at e).0) [
      | inl same ↦
          let first : start ≡ at.start =
            IsStart-unique e.buffer (cursor_at e).0 start at.start
              (subst (λ l. IsStart e.buffer l start) same st) at.starts in
          let behind =
            find_line_end_from_start-behind start e.cursor_pos e (omega (arith, at.column)) v.cursor
              (omega (arith, at.lines, st.lines)) in
          ground (arith, at.column)
      | inr ne ↦ elim (Bool-cases (leb start e.cursor_pos)) [
        | inr above ↦ rw (above, ne→== _ _ ne) refl
        | inl from ↦ elim (lt-cases (find_line_end_from_start start e) e.cursor_pos) [
          | inl below ↦ ground arith
          | inr inside ↦
              let here : start + (e.cursor_pos - start) ≡ e.cursor_pos = ground arith in
              let there =
                subst (λ p. IsAt e.buffer p line (e.cursor_pos - start)) here
                  (IsAt-in_line line start (e.cursor_pos - start) e st (omega arith)) in
              absurd (
                ne
                  (IsAt-unique e.buffer e.cursor_pos line (e.cursor_pos - start) (cursor_at e).0
                    (cursor_at e).1 there at).0)
        ]
      ]
    ]

module _ (t : Theme) (differ : t.white ≢ t.black) where
  -- The row of a line of the text has the cursor if it stands in the line, a row behind the last line if
  -- it stands at the end of the text.
  cursor_marks-line :
      (line : ℕ) (e : Editor)
      → IsValid e
      → cursor_marks t (redraw_line line e t) ≡ (
          if leb line (last_line e)
          then (if line == (cursor_at e).0 then 1 else 0)
          else (if e.cursor_pos == e.buffer_len then 1 else 0))
  cursor_marks-line line e v =
      let start = find_line_start line e in
      let row = cursor_marks-row t differ line e in
      elim (find_line_start-Finds line e) [
        | inl st ↦
            let mono = newlines_mono e.buffer start e.buffer_len (find_line_start_bound line e) in
            let there : leb line (last_line e) ≡ true = ground (arith, st.lines) in
            row ∙ rw (between_iff line e v st, there) refl
        | inr (stop, few) ↦
            let from = find_line_end_from_start-from start e in
            let bound = find_line_end_from_start_bound start e (omega arith) in
            row ∙ ground (arith, v.cursor)
      ]

  cursor_marks-move :
      (to col : ℕ) (os : List Out) → cursor_marks t (movecursor to col ∷ os) ≡ cursor_marks t os
  unfolding cursor_marks mark
  cursor_marks-move to col os = omega arith

  -- A line that is drawn puts its marks into its row.
  marks_in-row :
      (k row at : ℕ) (e : Editor) (ys : List Out)
      → e.scroll_line + k < 2 ^ 32
      → marks_in t row at (redraw_line (e.scroll_line + k) e t ++ ys)
        ≡ (if k == row then cursor_marks t (redraw_line (e.scroll_line + k) e t) else 0)
          + marks_in t row k ys
  unfolding marks_in
  marks_in-row k row at e ys lt =
      let line = e.scroll_line + k in
      let to : sub32 line e.scroll_line ≡ k = omega arith in
      rw (redraw_line-body line e t, to, cursor_marks-move k 0 (row_body line e t))
        (marks_in-still t row k (row_body line e t) ys (row_body-IsStill line e t))

  rows-marks :
      (n k row at : ℕ) (e : Editor)
      → e.scroll_line + k + n < 2 ^ 32
      → marks_in t row at (redraw_lines n (e.scroll_line + k) e t) ≡ (
          if leb k row && ltb row (k + n)
          then cursor_marks t (redraw_line (e.scroll_line + row) e t)
          else 0)
  unfolding redraw_lines marks_in
  rows-marks zero k row at e lt = ground arith
  rows-marks (suc n) k row at e lt =
      let next : e.scroll_line + k + 1 ≡ e.scroll_line + (k + 1) = omega arith in
      let rest : marks_in t row k (redraw_lines n (e.scroll_line + k + 1) e t) ≡ (
          if leb (k + 1) row && ltb row (k + 1 + n)
          then cursor_marks t (redraw_line (e.scroll_line + row) e t)
          else 0) =
        ap (λ l. marks_in t row k (redraw_lines n l e t)) next
        ∙ rows-marks n (k + 1) row k e (omega arith) in
      marks_in-row k row at e (redraw_lines n (e.scroll_line + k + 1) e t) (omega arith)
      ∙ ap (λ b. (if k == row then cursor_marks t (redraw_line (e.scroll_line + k) e t) else 0) + b)
          rest
      ∙ elim (eq-cases k row) [
        | inl same ↦ rw (same) (ground arith)
        | inr ne ↦ rw (ne→== _ _ ne) (ground arith)
      ]

  -- With the cursor in the text, the first line on the screen below 2 ^ 32 - 27, and where black and white
  -- are two colors: of the 27 rows that `redraw_lines` draws, one that shows a line of the text has the
  -- cursor drawn once if the cursor stands in that line, and else not at all; and a row behind the last line
  -- of the text has it drawn once if the cursor stands at the end of the text, and else not at all.
  pub redraw_lines_lem :
      (e : Editor) (row : ℕ)
      → IsValid e
      → e.scroll_line + 27 < 2 ^ 32
      → row < 27
      → marks_in t row 0 (redraw_lines 27 e.scroll_line e t) ≡ (
          if leb (e.scroll_line + row) (last_line e)
          then (if e.scroll_line + row == (cursor_at e).0 then 1 else 0)
          else (if e.cursor_pos == e.buffer_len then 1 else 0))
  redraw_lines_lem e row v room lt =
      let first : e.scroll_line ≡ e.scroll_line + 0 = omega arith in
      let inside : (leb 0 row && ltb row (0 + 27)) ≡ true = ground arith in
      ap (λ l. marks_in t row 0 (redraw_lines 27 l e t)) first
      ∙ rows-marks 27 0 row 0 e (omega arith)
      ∙ rw inside (cursor_marks-line (e.scroll_line + row) e v)
