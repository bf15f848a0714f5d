-- ===== src/Syscall/Writes.antt =====
-- syscall.c: `SYSCALL_WRITEFILE`, and `syscall_read_file` of what it wrote.
use os.Base.{
  ℕ, zero, suc, ◌+◌, ◌-◌, ◌^◌, ◌<◌, ◌≤◌, ◌≡◌, refl, ◌∙◌, ap, ap₂, false, arith, some, List, [], ◌∷◌,
  length, take, ◌!=◌,
}
use os.Base.Word.{sub32}
use os.Strings.{Bytes, store_byte}
use os.Fat.{FatFs, Keeps}
use os.Elf.{store_bytes}
use os.Elf.Segment.{store_bytes_lem}
use os.Syscall.{
  Kernel, mem_of, bytes_at, read_opened_file, syscall_read_file, write_opened_file,
  syscall_writefile,
}

pub bytes_at-store_byte :
    (n a p c : ℕ) (m : Bytes) → a + n ≤ p → bytes_at n a (store_byte m p c) ≡ bytes_at n a m
unfolding bytes_at
bytes_at-store_byte zero a p c m le = refl
bytes_at-store_byte (suc n) a p c m le =
    ap₂ ◌∷◌ (ground arith) (bytes_at-store_byte n (a + 1) p c m (omega arith))

pub bytes_at-store_bytes :
    (a : ℕ) (bs : List ℕ) (m : Bytes) → bytes_at (length bs) a (store_bytes a bs m) ≡ bs
unfolding bytes_at store_bytes
bytes_at-store_bytes a [] m = refl
bytes_at-store_bytes a (c ∷ cs) m =
    ap₂ ◌∷◌ (ground (arith, store_bytes_lem (a + 1) cs (store_byte m a c) a))
      (bytes_at-store_bytes (a + 1) cs (store_byte m a c))

take-all : (n : ℕ) (xs : List ℕ) → length xs ≤ n → take n xs ≡ xs
take-all zero [] le = refl
take-all (suc n) [] le = refl
take-all zero (x ∷ xs) le = absurd (omega arith)
take-all (suc n) (x ∷ xs) le = ap (λ t. x ∷ t) (take-all n xs (omega arith))

module _ (F : FatFs) (path : List ℕ) (Good : F.State → Type 0) (keeps : Keeps F path Good) where
  -- The write succeeds, and the memory is as before.
  pub syscall_writefile_lem :
      (bytes : List ℕ) (k : Kernel F.State)
      → Good k.fs
      → (let w = syscall_writefile F path bytes k in
          (w.0 ≡ 0) × (keeps.contents w.1.fs ≡ some bytes) × (mem_of w.1 ≡ mem_of k))
  unfolding syscall_writefile write_opened_file
  syscall_writefile_lem bytes k good =
      let (fine, all, holds) = keeps.writes k.fs bytes good in
      let same : (length bytes != length bytes) ≡ false = ground arith in
      rw (keeps.creates k.fs good, fine, all, same) (refl, holds, refl)

  -- All of the file is read into a buffer that has room for it and a 0.
  pub syscall_read_file-all :
      (bytes : List ℕ) (buf bufsize : ℕ) (k : Kernel F.State)
      → keeps.contents k.fs ≡ some bytes
      → length bytes < bufsize
      → bufsize < 2 ^ 32
      → (let r = syscall_read_file F path buf bufsize k in
          (r.0 ≡ length bytes) × (bytes_at (length bytes) buf (mem_of r.1) ≡ bytes))
  unfolding syscall_read_file read_opened_file
  syscall_read_file-all bytes buf bufsize k holds room small =
      let (fine, read) = keeps.reads k.fs bytes (bufsize - 1) holds in
      let size : sub32 bufsize 1 ≡ bufsize - 1 = omega arith in
      rw
        (keeps.opens k.fs bytes holds, size, fine, read, take-all (bufsize - 1) bytes (omega arith))
        (
          refl,
          bytes_at-store_byte (length bytes) buf (buf + length bytes) 0
                (store_bytes buf bytes (mem_of k)) (omega arith)
              ∙ bytes_at-store_bytes buf bytes (mem_of k),
        )

  -- Where the file system keeps what is written, as it does with room on the disk, a file that was
  -- written with `SYSCALL_WRITEFILE` is read again with all its bytes, in their order, into any buffer
  -- that has room for one byte more: the write gives 0, and the read the number of bytes.
  pub syscall_read_file-syscall_writefile :
      (bytes : List ℕ) (buf bufsize : ℕ) (k : Kernel F.State)
      → Good k.fs
      → length bytes < bufsize
      → bufsize < 2 ^ 32
      → (let w = syscall_writefile F path bytes k in
          let r = syscall_read_file F path buf bufsize w.1 in
          (w.0 ≡ 0) × (r.0 ≡ length bytes) × (bytes_at (length bytes) buf (mem_of r.1) ≡ bytes))
  syscall_read_file-syscall_writefile bytes buf bufsize k good room small =
      let (fine, holds, same) = syscall_writefile_lem bytes k good in
      let (all, read) =
        syscall_read_file-all bytes buf bufsize (syscall_writefile F path bytes k).1 holds room
          small in
      (fine, all, read)
