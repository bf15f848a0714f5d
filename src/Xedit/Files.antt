-- ===== src/Xedit/Files.antt =====
-- user_programs/xedit.c: the file that is edited. The array `buffer` is at the address `buffer_at` of the
-- memory; an editor has its bytes.
use os.Base.{ℕ, ◌+◌, ◌-◌, false, ◌&&◌, ◌||◌, List, [], ◌∷◌, leb, ltb, ◌==◌, ◌!=◌, if◌then◌else◌}
use os.Fat.{FatFs}
use os.Fb.{is_negative}
use os.Shell.{codes}
use os.Syscall.{Kernel, mem_of, with_mem, bytes_at, syscall_writefile, syscall_read_file}
use os.Xedit.{Editor, max_buffer}

-- The system calls that draw or write.
pub data Out : Type 0 where
  movecursor : (row col : ℕ) → Out
  clear_line_from : (col : ℕ) → Out
  termcolor : (fg bg : ℕ) → Out
  write : List ℕ → Out
  writeint : ℕ → Out
  termclear : Out
  exit : Out

abbrev pub text_of : Editor → List ℕ
text_of e = bytes_at e.buffer_len 0 e.buffer

-- What a function of the editor has done.
pub record Edited (S : Type 0) : Type 0 where
  pub editor : Editor
  pub kernel : Kernel S
  pub out : List Out

module _ (F : FatFs) (buffer_at : ℕ) where
  -- The kernel with the bytes of the array in the memory.
  abbrev pub placed : Editor → Kernel F.State → Kernel F.State
  placed e k =
      with_mem
        (λ a.
          if leb buffer_at a && ltb a (buffer_at + max_buffer)
          then e.buffer (a - buffer_at)
          else mem_of k a)
        k

  unfoldable pub save_buffer_to_file :
      (filename : List ℕ) → Editor → Kernel F.State → Edited F.State
  save_buffer_to_file filename e k =
      let r = syscall_writefile F filename (text_of e) (placed e k) in
      if r.0 != 0
      then record { editor = e; kernel = r.1; out = write (codes "Failed to save file\n") ∷ [] }
      else record {
        editor = record e { modified = false };
        kernel = r.1;
        out = write (codes " File saved\n") ∷ [];
      }

  unfoldable pub load_file_into_buffer :
      (filename : List ℕ) → Editor → Kernel F.State → Edited F.State
  load_file_into_buffer filename e k =
      let r = syscall_read_file F filename buffer_at max_buffer (placed e k) in
      let len =
        (if (r.0 == 0) || is_negative r.0
          then 0
          else if leb max_buffer r.0
          then max_buffer - 1
          else r.0) in
      record {
        editor = record e {
          buffer = λ i. mem_of r.1 (buffer_at + i);
          buffer_len = len;
          cursor_pos = 0;
          modified = false;
        };
        kernel = r.1;
        out = [];
      }
