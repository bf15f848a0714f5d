-- ===== src/Xedit/Sessions.antt =====
-- user_programs/xedit.c: a session that ends with saving and quitting.
use os.Base.{
  ℕ, ◌+◌, ◌<◌, ◌≡◌, refl, ◌∙◌, ap, ap₂, sym, subst, arith, Option, none, some, List, [], ◌∷◌, ◌++◌,
  length, false, ◌==◌,
}
use os.Base.Maybe.{◌>>=◌}
use os.Fat.{FatFs, Keeps}
use os.Theme.{Theme}
use os.Shell.{Line}
use os.Console.{console_gettheme}
use os.Syscall.{Kernel}
use os.Syscall.Writes.{syscall_writefile_lem}
use os.Xedit.{Editor, max_buffer, edit_key}
use os.Xedit.Editing.{slice, before, behind}
use os.Xedit.Files.{exit, text_of, placed, save_buffer_to_file, load_file_into_buffer}
use os.Xedit.Saved.{length-bytes_at, load_file_into_buffer-Loaded}
use os.Xedit.Typing.{kept, typed, ArePrinted, text_of-cursor, text_of-typed}
use os.Xedit.Loop.{Session, redraw, save, after_key, key_loop, editor_loop, begin, quit, edit_file}

module _ (F : FatFs) (buffer_at : ℕ) (filename : List ℕ) (t : Theme) where
  after_key-editor :
      (o : Option Editor) (s : Session F.State)
      → ((after_key F buffer_at filename t o s).editor ≡ kept o s.editor)
        × ((after_key F buffer_at filename t o s).kernel ≡ s.kernel)
  unfolding after_key redraw
  after_key-editor none s = (refl, refl)
  after_key-editor (some e) s = (refl, refl)

  -- Keys that print are all edited.
  key_loop-typed :
      (cs rest : List ℕ) (s : Session F.State)
      → ArePrinted cs
      → (s' : Session F.State) × (key_loop F buffer_at filename t (cs ++ rest) s
          ≡ key_loop F buffer_at filename t rest s')
        × (s'.editor ≡ typed cs s.editor)
        × (s'.kernel ≡ s.kernel)
  unfolding key_loop typed
  key_loop-typed [] rest s printed = (s, refl, refl, refl)
  key_loop-typed (c ∷ cs) rest s ((low, del, arrows), printed) =
      let quit : (c == 0x11) ≡ false = ground arith in
      let saves : (c == 0x13) ≡ false = ground arith in
      let next = after_key F buffer_at filename t (edit_key c s.editor) s in
      let (editor, kernel) = after_key-editor (edit_key c s.editor) s in
      let (s', run, editor', kernel') = key_loop-typed cs rest next printed in
      (s', rw (quit, saves) run, editor' ∙ ap (typed cs) editor, kernel' ∙ kernel)

  module _ (Good : F.State → Type 0) (keeps : Keeps F filename Good) where
    -- The file has the text, and the editor knows it.
    save-contents :
        (s : Session F.State)
        → Good s.kernel.fs
        → (keeps.contents (save F buffer_at filename t s).kernel.fs ≡ some (text_of s.editor))
          × ((save F buffer_at filename t s).editor.modified ≡ false)
    unfolding save save_buffer_to_file
    save-contents s good =
        let (fine, holds, same) =
          syscall_writefile_lem F filename Good keeps (text_of s.editor)
            (placed F buffer_at s.editor s.kernel) good in
        rw fine (holds, refl)

    key_loop-saves :
        (cs rest : List ℕ) (s : Session F.State)
        → ArePrinted cs
        → Good s.kernel.fs
        → (s' : Session F.State) × (key_loop F buffer_at filename t (cs ++ (0x13 ∷ 0x11 ∷ rest)) s
            ≡ some s')
          × (keeps.contents s'.kernel.fs ≡ some (text_of (typed cs s.editor)))
          × (s'.editor.modified ≡ false)
          × (s'.keys ≡ rest)
    unfolding key_loop redraw
    key_loop-saves cs rest s printed good =
        let (u, run, editor, kernel) = key_loop-typed cs (0x13 ∷ 0x11 ∷ rest) s printed in
        let (holds, known) = save-contents u (subst (λ k. Good k.fs) (sym kernel) good) in
        (
          record (redraw F buffer_at filename t (save F buffer_at filename t u)) { keys = rest },
          run,
          holds ∙ ap (λ e. some (text_of e)) editor,
          known,
          refl,
        )

module _ (F : FatFs) (buffer_at : ℕ) (name : Line) (Good : F.State → Type 0)
    (keeps : Keeps F name.line Good) where
  -- A file is opened that has few enough bytes, keys that print are typed, then Ctrl-S and Ctrl-Q: the
  -- program ends, the keys behind Ctrl-Q are left, the editor has no change that is not saved, and the
  -- file has what was typed in front of what it had. The file system keeps what is written, as it does
  -- with room on the disk, in the state that reading the file leads to.
  pub edit_file_lem :
      (cs rest bytes : List ℕ) (e : Editor) (k : Kernel F.State)
      → name.keys ≡ cs ++ (0x13 ∷ 0x11 ∷ rest)
      → ArePrinted cs
      → keeps.contents k.fs ≡ some bytes
      → length bytes + length cs < max_buffer
      → Good (load_file_into_buffer F buffer_at name.line e k).kernel.fs
      → (s : Session F.State) × (edit_file F buffer_at name e k ≡ some s)
        × (keeps.contents s.kernel.fs ≡ some (cs ++ bytes))
        × (s.editor.modified ≡ false)
        × (s.keys ≡ rest)
  unfolding edit_file editor_loop redraw begin
  edit_file_lem cs rest bytes e k typing printed holds room good =
      let t = console_gettheme k.ui in
      let loaded = (load_file_into_buffer F buffer_at name.line e k).editor in
      let l =
        load_file_into_buffer-Loaded F buffer_at name.line Good keeps bytes e k holds
          (omega arith) in
      let len : loaded.buffer_len ≡ length bytes =
        sym (length-bytes_at loaded.buffer_len 0 loaded.buffer) ∙ ap length l.text in
      let front : before loaded ≡ [] = ap (slice loaded.buffer 0) l.cursor in
      let back : behind loaded ≡ bytes =
        ap (λ b. b ++ behind loaded) (sym front) ∙ sym (text_of-cursor loaded l.valid) ∙ l.text in
      let text : text_of (typed cs loaded) ≡ cs ++ bytes =
        text_of-typed cs loaded printed l.valid (omega (arith, len))
        ∙ ap₂ (λ a b. (a ++ cs) ++ b) front back in
      let b = redraw F buffer_at name.line t (begin F buffer_at name e k) in
      let (s, run, contents, known, left) =
        key_loop-saves F buffer_at name.line t Good keeps cs rest b printed good in
      (
        record s { out = s.out ++ (exit ∷ []) },
        ap (λ ks. key_loop F buffer_at name.line t ks b >>= quit F buffer_at) typing
            ∙ ap (λ o. o >>= quit F buffer_at) run,
        contents ∙ ap some text,
        known,
        left,
      )
