-- ===== src/Xedit/Still.antt =====
-- user_programs/xedit.c: in which row of the screen the cursor is drawn.
use os.Base.{
  List, [], ◌∷◌, ◌++◌, ℕ, zero, suc, ◌+◌, ◌-◌, ◌≡◌, refl, arith, ltb, ◌==◌, if◌then◌else◌, inl, inr,
  Bool-cases,
}
use os.Theme.{Theme}
use os.Xedit.{Editor, find_line_start, find_line_end_from_start}
use os.Xedit.Draw.{normal, inverted, draw_gutter, draw_text, redraw_line}
use os.Base.Word.{sub32}
use os.Strings.{Bytes}
use os.Shell.{codes}
use os.Xedit.Files.{Out, movecursor, clear_line_from, termcolor, write, writeint, termclear, exit}
use os.Xedit.Cursor.{mark, cursor_marks}

-- The colors of the cursor that are set while the last row moved to is `row`, from row `at` on.
unfoldable pub marks_in : (t : Theme) → (row at : ℕ) → List Out → ℕ
marks_in t row at [] = 0
marks_in t row at (movecursor to col ∷ os) = marks_in t row to os
marks_in t row at (o ∷ os) = (if at == row then mark t o else 0) + marks_in t row at os

-- No call moves to another row.
unfoldable pub IsStill : List Out → Type 0
IsStill [] = Unit
IsStill (movecursor to col ∷ os) = ⊥
IsStill (o ∷ os) = IsStill os

pub marks_in-still :
    (t : Theme) (row at : ℕ) (xs ys : List Out)
    → IsStill xs
    → marks_in t row at (xs ++ ys)
      ≡ (if at == row then cursor_marks t xs else 0) + marks_in t row at ys
unfolding marks_in IsStill cursor_marks mark
marks_in-still t row at [] ys h = ground arith
marks_in-still t row at (movecursor to col ∷ xs) ys h = absurd h
marks_in-still t row at (clear_line_from col ∷ xs) ys h =
    ground (arith, marks_in-still t row at xs ys h)
marks_in-still t row at (termcolor fg bg ∷ xs) ys h =
    ground (arith, marks_in-still t row at xs ys h)
marks_in-still t row at (write text ∷ xs) ys h = ground (arith, marks_in-still t row at xs ys h)
marks_in-still t row at (writeint n ∷ xs) ys h = ground (arith, marks_in-still t row at xs ys h)
marks_in-still t row at (termclear ∷ xs) ys h = ground (arith, marks_in-still t row at xs ys h)
marks_in-still t row at (exit ∷ xs) ys h = ground (arith, marks_in-still t row at xs ys h)

IsStill-append : (xs ys : List Out) → IsStill xs → IsStill ys → IsStill (xs ++ ys)
unfolding IsStill
IsStill-append [] ys h k = k
IsStill-append (movecursor to col ∷ xs) ys h k = absurd h
IsStill-append (clear_line_from col ∷ xs) ys h k = IsStill-append xs ys h k
IsStill-append (termcolor fg bg ∷ xs) ys h k = IsStill-append xs ys h k
IsStill-append (write text ∷ xs) ys h k = IsStill-append xs ys h k
IsStill-append (writeint n ∷ xs) ys h k = IsStill-append xs ys h k
IsStill-append (termclear ∷ xs) ys h k = IsStill-append xs ys h k
IsStill-append (exit ∷ xs) ys h k = IsStill-append xs ys h k

draw_gutter-IsStill : (n : ℕ) → IsStill (draw_gutter n)
unfolding IsStill draw_gutter
draw_gutter-IsStill n = elim (Bool-cases (ltb n 10)) [
  | inl one ↦ rw one tt
  | inr more ↦ elim (Bool-cases (ltb n 100)) [
    | inl two ↦ rw (more, two) tt
    | inr three ↦ rw (more, three) tt
  ]
]

draw_text-IsStill : (n i pos : ℕ) (t : Theme) (m : Bytes) → IsStill (draw_text n i pos t m)
unfolding IsStill draw_text
draw_text-IsStill zero i pos t m = tt
draw_text-IsStill (suc n) i pos t m = elim (Bool-cases (i == pos)) [
  | inl here ↦ rw here (draw_text-IsStill n (i + 1) pos t m)
  | inr past ↦ rw past (draw_text-IsStill n (i + 1) pos t m)
]

-- What `redraw_line` draws after it moved to its row.
unfoldable pub row_body : (line : ℕ) → Editor → Theme → List Out
row_body line e t =
    let start = find_line_start line e in
    let end = find_line_end_from_start start e in
    clear_line_from 0
    ∷ termcolor t.light_gray t.black
    ∷ (draw_gutter (line + 1)
        ++ (normal t
            ∷ (draw_text (end - start) start e.cursor_pos t e.buffer
                ++ (if e.cursor_pos == end
                    then inverted t ∷ write (codes " ") ∷ normal t ∷ []
                    else []))))

pub redraw_line-body :
    (line : ℕ) (e : Editor) (t : Theme)
    → redraw_line line e t ≡ movecursor (sub32 line e.scroll_line) 0 ∷ row_body line e t
unfolding redraw_line row_body
redraw_line-body line e t = refl

pub row_body-IsStill : (line : ℕ) (e : Editor) (t : Theme) → IsStill (row_body line e t)
unfolding IsStill row_body
row_body-IsStill line e t =
    let start = find_line_start line e in
    let end = find_line_end_from_start start e in
    let at_end : List Out =
      if e.cursor_pos == end then inverted t ∷ write (codes " ") ∷ normal t ∷ [] else [] in
    let at_end-IsStill : IsStill at_end = elim (Bool-cases (e.cursor_pos == end)) [
      | inl here ↦ rw here tt
      | inr past ↦ rw past tt
    ] in
    IsStill-append (draw_gutter (line + 1)) _ (draw_gutter-IsStill (line + 1)) (
      IsStill-append (draw_text (end - start) start e.cursor_pos t e.buffer) at_end
        (draw_text-IsStill (end - start) start e.cursor_pos t e.buffer) at_end-IsStill)
