-- ===== src/Cat.antt =====
-- user_programs/cat.c: a file is printed. `buf` is the address of the array of that name.
pub mod Printed
mod Tests
use os.Base.{ℕ, ◌+◌, Option, some, List, [], ◌∷◌, ◌++◌, ◌==◌, if◌then◌else◌, length, get_or}
use os.Base.Word.{u32}
use os.Base.Maybe.{◌>>=◌}
use os.Strings.{store_byte}
use os.Fat.{FatFs}
use os.Fb.{is_negative}
use os.Shell.{Call, write, exit, codes, Line, readline}
use os.Syscall.{Kernel, mem_of, string_at, syscall_read_file}

-- `strcpy(fullpath, "/")` makes the test for a `/` at its end fail.
pub cat_path : (input : List ℕ) → List ℕ
cat_path input = if get_or input 0 0 == b'/' then input else b'/' ∷ input

module _ (F : FatFs) (fuel buf : ℕ) where
  -- From the name of the file on. The 0 is stored before the result is looked at.
  pub print_file : (fullpath : List ℕ) → Kernel F.State → Option (List Call)
  print_file fullpath k =
      let r = syscall_read_file F fullpath buf 512 k in
      string_at fuel buf (store_byte (mem_of r.1) (u32 (buf + r.0)) 0) >>= λ text. some (
        write text
        ∷ ((if is_negative r.0
              then write (codes "Failed to read file: ") ∷ write fullpath ∷ write (codes "\n") ∷ []
              else [])
            ++ (write (codes "\n") ∷ exit ∷ [])))

  -- `_start`. The program does not come back from `syscall_exit`.
  pub start : (keys : List ℕ) → Kernel F.State → Option (List Call)
  start keys k = readline keys 256 >>= λ name.
      if length name.line == 0
      then some (write (codes "Usage: cat <filename>\n") ∷ exit ∷ [])
      else print_file (cat_path name.line) k
