-- ===== src/Cat/Printed.antt =====
-- user_programs/cat.c: what is printed is the file.
use os.Base.{
  ℕ, suc, ◌+◌, ◌^◌, ◌<◌, ◌≤◌, ◌≡◌, ◌≢◌, refl, ◌∙◌, ap, sym, arith, false, some, List, [], ◌∷◌,
  length,
}
use os.Base.Word.{u32}
use os.Strings.{Bytes, store_byte}
use os.Strings.Texts.{IsString}
use os.Syscall.Texts.{string_at-IsString}
use os.Fat.{FatFs, Keeps}
use os.Fb.{is_negative}
use os.Shell.{write, exit, codes}
use os.Syscall.{Kernel, mem_of, bytes_at, syscall_read_file}
use os.Syscall.Writes.{bytes_at-store_byte, syscall_read_file-all}
use os.Cat.{print_file}

abbrev pub NoZeros : List ℕ → Type 0
NoZeros [] = Unit
NoZeros (c ∷ cs) = (c ≢ 0) × NoZeros cs

-- Bytes that are not 0, with a 0 behind them, are a string.
IsString-bytes_at :
    (a : ℕ) (bs : List ℕ) (m : Bytes)
    → NoZeros bs
    → bytes_at (length bs) a m ≡ bs
    → m (a + length bs) ≡ 0
    → IsString m a bs
unfolding bytes_at
IsString-bytes_at a [] m full same end = let here : a ≡ a + 0 = omega arith in ap m here ∙ end
IsString-bytes_at a (c ∷ cs) m (ne, full) same end =
    let head : m a ≡ c = cc in
    let tail : bytes_at (length cs) (a + 1) m ≡ cs = cc in
    let there : a + suc (length cs) ≡ a + 1 + length cs = omega arith in
    (head, ne, IsString-bytes_at (a + 1) cs m full tail (ap m (sym there) ∙ end))

module _ (F : FatFs) (fuel buf : ℕ) (fullpath : List ℕ) (Good : F.State → Type 0)
    (keeps : Keeps F fullpath Good) where
  -- Of a file that is there, with fewer than 512 bytes and none of them 0, `cat` prints all bytes in
  -- their order, a newline, and no message, if the string has fuel for one byte more.
  pub print_file_lem :
      (bytes : List ℕ) (k : Kernel F.State)
      → keeps.contents k.fs ≡ some bytes
      → NoZeros bytes
      → length bytes < 512
      → length bytes < fuel
      → buf + 512 ≤ 2 ^ 32
      → print_file F fuel buf fullpath k ≡ some (write bytes ∷ write (codes "\n") ∷ exit ∷ [])
  unfolding print_file
  print_file_lem bytes k holds full small enough in_memory =
      let (all, read) =
        syscall_read_file-all F fullpath Good keeps bytes buf 512 k holds small (omega arith) in
      let r = syscall_read_file F fullpath buf 512 k in
      let end : u32 (buf + length bytes) ≡ buf + length bytes = omega arith in
      let m = store_byte (mem_of r.1) (buf + length bytes) 0 in
      let same : bytes_at (length bytes) buf m ≡ bytes =
        bytes_at-store_byte (length bytes) buf (buf + length bytes) 0 (mem_of r.1) (omega arith)
        ∙ read in
      let text =
        string_at-IsString fuel buf m bytes (IsString-bytes_at buf bytes m full same (ground arith))
          enough in
      let good : is_negative (length bytes) ≡ false = ground arith in rw (all, end, text, good) refl
