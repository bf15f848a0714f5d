-- ===== src/Xedit/Saved.antt =====
-- user_programs/xedit.c: a text that is saved, and loaded again.
use os.Base.{ℕ, zero, suc, ◌+◌, ◌<◌, ◌≡◌, refl, ◌∙◌, ap, ap₂, false, arith, List, ◌∷◌, some, length}
use os.Strings.{Bytes}
use os.Fat.{FatFs, Keeps}
use os.Syscall.{Kernel, mem_of, bytes_at, syscall_read_file, syscall_writefile}
use os.Syscall.Writes.{syscall_writefile_lem, syscall_read_file-all}
use os.Xedit.{Editor, max_buffer}
use os.Xedit.Editing.{IsValid}
use os.Xedit.Files.{text_of, placed, save_buffer_to_file, load_file_into_buffer}

pub length-bytes_at : (n a : ℕ) (m : Bytes) → length (bytes_at n a m) ≡ n
unfolding bytes_at
length-bytes_at zero a m = refl
length-bytes_at (suc n) a m = ap suc (length-bytes_at n (a + 1) m)

-- The bytes of an array, counted from its start.
bytes_at-from : (n b i : ℕ) (m : Bytes) → bytes_at n i (λ j. m (b + j)) ≡ bytes_at n (b + i) m
unfolding bytes_at
bytes_at-from zero b i m = refl
bytes_at-from (suc n) b i m =
    ap₂ ◌∷◌ refl (bytes_at-from n b (i + 1) m ∙ ap (λ a. bytes_at n a m) (omega arith))

module _ (F : FatFs) (buffer_at : ℕ) (filename : List ℕ) (Good : F.State → Type 0)
    (keeps : Keeps F filename Good) where
  -- The editor after a file with few enough bytes is loaded.
  pub record Loaded (bytes : List ℕ) (e : Editor) : Type 0 where
    pub text : text_of e ≡ bytes
    pub cursor : e.cursor_pos ≡ 0
    pub unchanged : e.modified ≡ false
    pub valid : IsValid e

  pub load_file_into_buffer-Loaded :
      (bytes : List ℕ) (e : Editor) (k : Kernel F.State)
      → keeps.contents k.fs ≡ some bytes
      → length bytes < max_buffer
      → Loaded bytes (load_file_into_buffer F buffer_at filename e k).editor
  unfolding load_file_into_buffer
  load_file_into_buffer-Loaded bytes e k holds room =
      let (all, read) =
        syscall_read_file-all F filename Good keeps bytes buffer_at max_buffer
          (placed F buffer_at e k) holds room (omega arith) in
      let m =
        mem_of (syscall_read_file F filename buffer_at max_buffer (placed F buffer_at e k)).1 in
      let loaded = (load_file_into_buffer F buffer_at filename e k).editor in
      let len : loaded.buffer_len ≡ length bytes = rw all (ground arith) in
      record {
        text =
            ap (λ n. bytes_at n 0 loaded.buffer) len
            ∙ bytes_at-from (length bytes) buffer_at 0 m
            ∙ ap (λ a. bytes_at (length bytes) a m) (omega arith)
            ∙ read;
        cursor = refl;
        unchanged = refl;
        valid = record { cursor = omega arith; room = omega arith };
      }

  -- Where the file system keeps what is written, as it does with room on the disk, a text that is
  -- saved and loaded again, by the same editor or another, is the same text; the cursor stands at its
  -- start within the buffer, and neither editor takes it for changed.
  pub load_file_into_buffer-save_buffer_to_file :
      (e e' : Editor) (k : Kernel F.State)
      → IsValid e
      → Good k.fs
      → (let saved = save_buffer_to_file F buffer_at filename e k in
          (saved.editor.modified ≡ false)
          × Loaded (text_of e) (load_file_into_buffer F buffer_at filename e' saved.kernel).editor)
  unfolding save_buffer_to_file
  load_file_into_buffer-save_buffer_to_file e e' k v good =
      let (fine, holds, same) =
        syscall_writefile_lem F filename Good keeps (text_of e) (placed F buffer_at e k) good in
      let after = (syscall_writefile F filename (text_of e) (placed F buffer_at e k)).1 in
      let short : length (text_of e) < max_buffer =
        omega (arith, length-bytes_at e.buffer_len 0 e.buffer, v.room) in
      rw fine (refl, load_file_into_buffer-Loaded (text_of e) e' after holds short)
