-- ===== src/Xedit/Cursor.antt =====
-- user_programs/xedit.c: how often the cursor is drawn on the screen.
use os.Base.{
  ℕ, zero, suc, ◌+◌, ◌-◌, ◌≤◌, ◌≡◌, ◌≢◌, ◌∙◌, ap₂, arith, List, [], ◌∷◌, ◌++◌, ◌&&◌, leb, ltb, ◌==◌,
  if◌then◌else◌, eq-cases, ne→==, inl, inr,
}
use os.Strings.{Bytes}
use os.Theme.{Theme}
use os.Shell.{codes}
use os.Xedit.{Editor, find_line_start, find_line_end_from_start}
use os.Xedit.Files.{Out, movecursor, clear_line_from, termcolor, write, writeint, termclear, exit}
use os.Xedit.Draw.{normal, inverted, draw_gutter, draw_text, redraw_line}
use os.Xedit.Search.{find_line_end_from_start-from}

-- The calls that set the colors of the cursor.
unfoldable pub mark : Theme → Out → ℕ
mark t (movecursor row col) = 0
mark t (clear_line_from col) = 0
mark t (termcolor fg bg) = if (fg == t.black) && (bg == t.white) then 1 else 0
mark t (write text) = 0
mark t (writeint n) = 0
mark t termclear = 0
mark t exit = 0

unfoldable pub cursor_marks : Theme → List Out → ℕ
cursor_marks t [] = 0
cursor_marks t (o ∷ os) = mark t o + cursor_marks t os

pub cursor_marks-append :
    (t : Theme) (xs ys : List Out)
    → cursor_marks t (xs ++ ys) ≡ cursor_marks t xs + cursor_marks t ys
unfolding cursor_marks
cursor_marks-append t [] ys = omega arith
cursor_marks-append t (x ∷ xs) ys = omega (arith, cursor_marks-append t xs ys)

cursor_marks-gutter : (t : Theme) (n : ℕ) → cursor_marks t (draw_gutter n) ≡ 0
unfolding cursor_marks mark draw_gutter
cursor_marks-gutter t n = ground arith

in_row :
    (start pos end : ℕ)
    → start ≤ end
    → (if leb start pos && ltb pos (start + (end - start)) then 1 else 0)
        + (if pos == end then 1 else 0)
      ≡ (if leb start pos && leb pos end then 1 else 0)
in_row start pos end le = ground arith

module _ (t : Theme) (differ : t.white ≢ t.black) where
  mark-inverted : mark t (inverted t) ≡ 1
  unfolding mark
  mark-inverted = ground arith

  mark-normal : mark t (normal t) ≡ 0
  unfolding mark
  mark-normal = ground arith

  cursor_marks-text :
      (n i pos : ℕ) (m : Bytes)
      → cursor_marks t (draw_text n i pos t m) ≡ (if leb i pos && ltb pos (i + n) then 1 else 0)
  unfolding draw_text cursor_marks mark
  cursor_marks-text zero i pos m = ground arith
  cursor_marks-text (suc n) i pos m =
      let rest = cursor_marks-text n (i + 1) pos m in
      elim (eq-cases i pos) [
        | inl here ↦ ground (arith, mark-inverted, mark-normal)
        | inr ne ↦ rw (ne→== _ _ ne) (ground arith)
      ]

  at_end-marks :
      (end pos : ℕ)
      → cursor_marks t (if pos == end then inverted t ∷ write (codes " ") ∷ normal t ∷ [] else [])
        ≡ (if pos == end then 1 else 0)
  unfolding cursor_marks mark
  at_end-marks end pos = ground (arith, mark-inverted, mark-normal)

  -- In the row of a line the cursor is drawn, if it stands in the line or at its end.
  pub cursor_marks-row :
      (line : ℕ) (e : Editor)
      → (let start = find_line_start line e in
          let end = find_line_end_from_start start e in
          cursor_marks t (redraw_line line e t)
          ≡ (if leb start e.cursor_pos && leb e.cursor_pos end then 1 else 0))
  unfolding redraw_line cursor_marks mark
  cursor_marks-row line e =
      let start = find_line_start line e in
      let end = find_line_end_from_start start e in
      let text = draw_text (end - start) start e.cursor_pos t e.buffer in
      let at_end : List Out =
        if e.cursor_pos == end then inverted t ∷ write (codes " ") ∷ normal t ∷ [] else [] in
      let whole : cursor_marks t (redraw_line line e t)
          ≡ cursor_marks t text + cursor_marks t at_end =
        omega (
          arith,
          cursor_marks-append t (draw_gutter (line + 1)) (normal t ∷ (text ++ at_end)),
          cursor_marks-gutter t (line + 1),
          cursor_marks-append t text at_end,
          mark-normal,
        ) in
      whole
      ∙ ap₂ (λ a b. a + b) (cursor_marks-text (end - start) start e.cursor_pos e.buffer)
          (at_end-marks end e.cursor_pos)
      ∙ in_row start e.cursor_pos end (find_line_end_from_start-from start e)
