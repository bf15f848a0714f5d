-- ===== src/Xedit/Loop.antt =====
-- user_programs/xedit.c: the loop over the keys, and the program.
use os.Base.{ℕ, ◌==◌, if◌then◌else◌, Option, none, some, List, [], ◌∷◌, ◌++◌, false}
use os.Base.Maybe.{◌>>=◌}
use os.Fat.{FatFs}
use os.Theme.{Theme}
use os.Shell.{Line, readline, codes}
use os.Console.{console_gettheme}
use os.Syscall.{Kernel}
use os.Xedit.{Editor, edit_key}
use os.Xedit.Files.{
  Out, termcolor, write, termclear, exit, save_buffer_to_file, load_file_into_buffer,
}
use os.Xedit.Draw.{Last, redraw_screen_partial}

-- The static variables, the calls so far, with the echo of a line as one text, and the keys that are left.
pub record Session (S : Type 0) : Type 0 where
  pub editor : Editor
  pub last : Last
  pub kernel : Kernel S
  pub out : List Out
  pub keys : List ℕ

-- `buffer_at` is the address of the array `buffer`, `t` is `current_theme`.
module _ (F : FatFs) (buffer_at : ℕ) (filename : List ℕ) (t : Theme) where
  unfoldable pub redraw : Session F.State → Session F.State
  redraw s =
      let r = redraw_screen_partial filename s.last s.editor t in
      record s { last = r.1; out = s.out ++ r.0 }

  -- `Ctrl-S`, before the drawing.
  unfoldable pub save : Session F.State → Session F.State
  save s =
      let r = save_buffer_to_file F buffer_at filename s.editor s.kernel in
      record s { editor = r.editor; kernel = r.kernel; out = s.out ++ r.out }

  -- Any other key.
  unfoldable pub after_key : Option Editor → Session F.State → Session F.State
  after_key none s = s
  after_key (some e) s = redraw (record s { editor = e })

  -- The loop over the keys. `none` waits for one more key.
  unfoldable pub key_loop : List ℕ → Session F.State → Option (Session F.State)
  key_loop [] s = none
  key_loop (c ∷ keys) s =
      let saved = key_loop keys (redraw (save s)) in
      let edited = key_loop keys (after_key (edit_key c s.editor) s) in
      if c == 0x11 then some (record s { keys = keys }) else if c == 0x13 then saved else edited

  unfoldable pub editor_loop : List ℕ → Session F.State → Option (Session F.State)
  editor_loop keys s = key_loop keys (redraw s)

module _ (F : FatFs) (buffer_at : ℕ) where
  -- `_start` from the name of the file on, up to the loop.
  unfoldable pub begin : Line → Editor → Kernel F.State → Session F.State
  begin name e k =
      let t = console_gettheme k.ui in
      let loaded = load_file_into_buffer F buffer_at name.line e k in
      redraw F buffer_at name.line t (record {
        editor = loaded.editor;
        last = record { last_cursor_pos = none; last_scroll_line = none };
        kernel = loaded.kernel;
        out =
            write (codes "Enter filename to edit: ")
            ∷ write name.echo
            ∷ termcolor t.white t.black
            ∷ termclear
            ∷ [];
        keys = [];
      })

  abbrev pub quit : Session F.State → Option (Session F.State)
  quit s = some (record s { out = s.out ++ (exit ∷ []) })

  unfoldable pub edit_file : Line → Editor → Kernel F.State → Option (Session F.State)
  edit_file name e k =
      editor_loop F buffer_at name.line (console_gettheme k.ui) name.keys (begin name e k) >>= quit

  -- `_start`, with the variables as C sets them.
  pub start : (keys : List ℕ) → Kernel F.State → Option (Session F.State)
  start keys k = readline keys 256 >>= λ name.
      edit_file name
        (record {
          buffer = λ i. 0;
          buffer_len = 0;
          modified = false;
          cursor_pos = 0;
          scroll_line = 0;
        })
        k
