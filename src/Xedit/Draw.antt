-- ===== src/Xedit/Draw.antt =====
-- user_programs/xedit.c: what is drawn, as the system calls in their order. A text of one byte is empty if
-- the byte is 0.
use os.Base.{
  ℕ, zero, suc, ◌+◌, ◌-◌, Option, none, some, List, [], ◌∷◌, ◌++◌, ltb, ◌==◌, ◌!=◌, if◌then◌else◌,
}
use os.Base.Word.{sub32}
use os.Strings.{Bytes}
use os.Theme.{Theme}
use os.Shell.{codes}
use os.Xedit.{
  Editor, screen_height, compute_cursor_line_col, find_line_start, find_line_end_from_start,
}
use os.Xedit.Files.{Out, movecursor, clear_line_from, termcolor, write, writeint}

-- The colors of the text, the cursor and the status.
abbrev pub normal : Theme → Out
normal t = termcolor t.light_gray t.black

abbrev pub inverted : Theme → Out
inverted t = termcolor t.black t.white

abbrev pub status_color : Theme → Out
status_color t = termcolor t.black t.light_green

abbrev pub one_byte : ℕ → List ℕ
one_byte c = if c == 0 then [] else c ∷ []

-- The number in front of a line, in at least three columns.
unfoldable pub draw_gutter : (display_line : ℕ) → List Out
draw_gutter display_line =
    (if ltb display_line 10
      then write (codes "  ") ∷ []
      else if ltb display_line 100
      then write (codes " ") ∷ []
      else [])
    ++ (writeint display_line ∷ write (codes " |") ∷ [])

-- The loop over the bytes of a line, with `rounds` bytes left.
unfoldable pub draw_text : (rounds i cursor_pos : ℕ) → Theme → Bytes → List Out
draw_text zero i cursor_pos t m = []
draw_text (suc rounds) i cursor_pos t m =
    let rest = draw_text rounds (i + 1) cursor_pos t m in
    if i == cursor_pos
    then inverted t ∷ write (one_byte (m i)) ∷ normal t ∷ rest
    else write (one_byte (m i)) ∷ rest

unfoldable pub redraw_line : (line_no : ℕ) → Editor → Theme → List Out
redraw_line line_no e t =
    let start = find_line_start line_no e in
    let end = find_line_end_from_start start e in
    movecursor (sub32 line_no e.scroll_line) 0
    ∷ clear_line_from 0
    ∷ termcolor t.light_gray t.black
    ∷ (draw_gutter (line_no + 1)
        ++ (normal t
            ∷ (draw_text (end - start) start e.cursor_pos t e.buffer
                ++ (if e.cursor_pos == end
                    then inverted t ∷ write (codes " ") ∷ normal t ∷ []
                    else []))))

pub redraw_status : (filename : List ℕ) → Editor → Theme → List Out
redraw_status filename e t =
    let at = compute_cursor_line_col e.cursor_pos e in
    movecursor (screen_height - 1) 0
    ∷ status_color t
    ∷ write (codes " ")
    ∷ write filename
    ∷ write (codes " ")
    ∷ write (if e.modified then codes "[+]" else codes "[ ]")
    ∷ write (codes " Ln:")
    ∷ writeint (at.0 + 1)
    ∷ write (codes " Col:")
    ∷ writeint (at.1 + 1)
    ∷ write (codes "\n")
    ∷ normal t
    ∷ []

-- The loop over the rows of the screen, with `rounds` rows left.
unfoldable pub redraw_lines : (rounds line_no : ℕ) → Editor → Theme → List Out
redraw_lines zero line_no e t = []
redraw_lines (suc rounds) line_no e t =
    redraw_line line_no e t ++ redraw_lines rounds (line_no + 1) e t

-- `last_cursor_pos` and `last_scroll_line`, with `none` for -1.
pub record Last : Type 0 where
  pub last_cursor_pos : Option ℕ
  pub last_scroll_line : Option ℕ

-- The lines that are drawn, by these two.
pub redraw_changed : Option ℕ → Option ℕ → Editor → Theme → List Out
redraw_changed none scroll e t = redraw_lines (screen_height - 1) e.scroll_line e t
redraw_changed (some pos) none e t = redraw_lines (screen_height - 1) e.scroll_line e t
redraw_changed (some pos) (some scroll) e t =
    let cur_line = (compute_cursor_line_col e.cursor_pos e).0 in
    let old_line = (compute_cursor_line_col pos e).0 in
    if e.scroll_line != scroll
    then redraw_lines (screen_height - 1) e.scroll_line e t
    else if cur_line != old_line
    then redraw_line old_line e t ++ redraw_line cur_line e t
    else redraw_line cur_line e t

pub redraw_screen_partial : (filename : List ℕ) → Last → Editor → Theme → List Out × Last
redraw_screen_partial filename last e t = (
  redraw_changed last.last_cursor_pos last.last_scroll_line e t ++ redraw_status filename e t,
  record { last_cursor_pos = some e.cursor_pos; last_scroll_line = some e.scroll_line },
)
