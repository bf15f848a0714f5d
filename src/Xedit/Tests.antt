-- ===== src/Xedit/Tests.antt =====
-- Examples of editing: the text "ab" with the cursor between the letters, and a file with "hi".
use os.Base.{
  leb, ℕ, ◌+◌, ◌-◌, ◌<◌, ◌≤◌, none, some, ◌≡◌, refl, false, arith, List, [], ◌∷◌, ◌==◌,
  if◌then◌else◌, ◌⊎◌, inl,
}
use os.Strings.{Bytes}
use os.Theme.{default_theme}
use os.Fat.Shelf.{shelf, AnyText, shelf-Keeps}
use os.Shell.{Line, codes}
use os.Syscall.{Kernel}
use os.Syscall.Sample.{kernel}
use os.Xedit.{
  Editor, edit_key, line_col_loop, compute_cursor_line_col, find_line_start, move_cursor_up,
  move_cursor_down,
}
use os.Xedit.Keys.{IsVisible, edit_key_lem}
use os.Xedit.Editing.{IsValid}
use os.Xedit.Files.{text_of, save_buffer_to_file, load_file_into_buffer}
use os.Xedit.Saved.{Loaded, load_file_into_buffer-save_buffer_to_file}
use os.Xedit.Moves.{cursor_at, column_in, move_cursor_lem}
use os.Xedit.Draw.{redraw_line, redraw_lines}
use os.Xedit.Lines.{newlines}
use os.Xedit.Partial.{redraw_line-move}
use os.Xedit.Still.{marks_in}
use os.Xedit.Rows.{last_line, redraw_lines_lem}
use os.Xedit.Loop.{Session, edit_file}
use os.Xedit.Sessions.{edit_file_lem}

abbrev letters : Bytes
letters p = if p == 0 then b'a' else if p == 1 then b'b' else 0

abbrev editor : Editor
editor = record {
  buffer = letters;
  buffer_len = 2;
  modified = false;
  cursor_pos = 1;
  scroll_line = 0;
}

editor-IsValid : IsValid editor
editor-IsValid = record { cursor = omega arith; room = omega arith }

edit_key_example :
    ((0x81 < 32) × (edit_key 0x81 editor ≡ none))
    ⊎ ((e' : Editor) × ((edit_key 0x81 editor ≡ some e') × IsValid e' × IsVisible e'))
edit_key_example = edit_key_lem 0x81 editor editor-IsValid

abbrev machine : Kernel (List ℕ)
machine = record {
  fs = codes "hi";
  vmm = kernel.vmm;
  heap = kernel.heap;
  ui = kernel.ui;
  keyboard = kernel.keyboard;
}

abbrev note : List ℕ
note = codes "note"

load_file_into_buffer-save_buffer_to_file_example :
    ((save_buffer_to_file shelf 0x70000 note editor machine).editor.modified ≡ false)
    × Loaded shelf 0x70000 note AnyText
        (shelf-Keeps note)
        (text_of editor)
        (load_file_into_buffer shelf 0x70000 note editor
          (save_buffer_to_file shelf 0x70000 note editor machine).kernel).editor
load_file_into_buffer-save_buffer_to_file_example =
    load_file_into_buffer-save_buffer_to_file shelf 0x70000 note AnyText (shelf-Keeps note) editor
      editor machine editor-IsValid tt

move_cursor_example :
    (let (line, col) = cursor_at editor in
      (line ≡ 0 → (move_cursor_up editor).cursor_pos ≡ 0)
      × (1 ≤ line → cursor_at (move_cursor_up editor) ≡ (line - 1, column_in (line - 1) col editor))
      × (editor.buffer_len ≤ find_line_start (line + 1) editor
          → (move_cursor_down editor).cursor_pos ≡ editor.buffer_len)
      × (find_line_start (line + 1) editor < editor.buffer_len
          → cursor_at (move_cursor_down editor) ≡ (line + 1, column_in (line + 1) col editor)))
move_cursor_example = move_cursor_lem editor editor-IsValid

redraw_lines_example : marks_in default_theme 1 0 (redraw_lines 27 0 editor default_theme) ≡ (
    if leb (0 + 1) (last_line editor)
    then (if 0 + 1 == (cursor_at editor).0 then 1 else 0)
    else (if editor.cursor_pos == editor.buffer_len then 1 else 0))
unfolding default_theme
redraw_lines_example =
    redraw_lines_lem default_theme (omega arith) editor 1 editor-IsValid (omega arith) (omega arith)

-- The keys "o", "h", Ctrl-S, Ctrl-Q and a later one.
abbrev name : Line
name = record { line = note; echo = note; keys = b'o' ∷ b'h' ∷ 0x13 ∷ 0x11 ∷ b'x' ∷ [] }

edit_file_example :
    (s : Session (List ℕ)) × (edit_file shelf 0x70000 name editor machine ≡ some s)
    × (some s.kernel.fs ≡ some (codes "ohhi"))
    × (s.editor.modified ≡ false)
    × (s.keys ≡ b'x' ∷ [])
edit_file_example =
    edit_file_lem shelf 0x70000 name AnyText (shelf-Keeps note) (b'o' ∷ b'h' ∷ []) (b'x' ∷ [])
      (codes "hi") editor machine refl
      (
        (omega arith, omega arith, inl (omega arith)),
        ((omega arith, omega arith, inl (omega arith)), tt),
      )
      refl (omega arith) tt

-- Three lines of one letter each, with the cursor on the first.
abbrev three_lines : Editor
three_lines = record {
  buffer = λ p. if p == 1 then 10 else if p == 3 then 10 else b'a';
  buffer_len = 5;
  modified = false;
  cursor_pos = 0;
  scroll_line = 0;
}

three_lines-IsValid : IsValid three_lines
three_lines-IsValid = record { cursor = omega arith; room = omega arith }

redraw_line-move_example :
    redraw_line 2 (record three_lines { cursor_pos = 2 }) default_theme
    ≡ redraw_line 2 three_lines default_theme
unfolding newlines compute_cursor_line_col line_col_loop
redraw_line-move_example =
    redraw_line-move 2 2 three_lines default_theme three_lines-IsValid (omega arith) (omega arith)
      (omega arith) (omega arith)
