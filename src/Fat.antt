-- ===== src/Fat.antt =====
-- The calls of FatFs (fatfs/ff.h) that the kernel makes. The library is a parameter: the file system
-- and the open objects are its state. A result other than `FR_OK` is `none` or `false`.
pub mod Memory
pub mod Shelf
use os.Base.{
  ℕ, zero, suc, ◌+◌, ◌-◌, ◌≤◌, ◌≡◌, Bool, true, Option, none, some, List, [], ◌∷◌, length, take,
}

-- `FILINFO`, as far as the kernel reads it.
pub record FilInfo : Type 0 where
  pub fname : List ℕ
  pub fattrib : ℕ

pub record FatFs : Type 1 where
  pub State : Type 0
  pub File : Type 0
  pub Dir : Type 0
  pub f_open : (path : List ℕ) → (mode : ℕ) → State → Option File × State
  -- Whether the read succeeds, and the bytes that it puts into the buffer.
  pub f_read : File → (count : ℕ) → State → Bool × List ℕ × State
  -- Whether the write succeeds, and how many bytes it wrote.
  pub f_write : File → List ℕ → State → Bool × ℕ × State
  pub f_lseek : File → (offset : ℕ) → State → State
  pub f_close : File → State → State
  pub f_opendir : (path : List ℕ) → State → Option Dir × State
  pub f_readdir : Dir → State → Option FilInfo × State
  pub f_closedir : Dir → State → State

abbrev pub one_if {ℓ} : {A : Type ℓ} → Option A → ℕ
one_if none = 0
one_if (some x) = 1

-- Opening counts one more open object where it succeeds, closing one less, and nothing else changes
-- their number. A read gives at most the bytes asked for.
pub record IsLawful (F : FatFs) (opened : F.State → ℕ) : Type 0 where
  pub opened-open :
      (path : List ℕ) (mode : ℕ) (s : F.State)
      → opened (F.f_open path mode s).1 ≡ opened s + one_if (F.f_open path mode s).0
  pub opened-read : (f : F.File) (n : ℕ) (s : F.State) → opened (F.f_read f n s).2 ≡ opened s
  pub opened-write :
      (f : F.File) (bytes : List ℕ) (s : F.State) → opened (F.f_write f bytes s).2 ≡ opened s
  pub opened-lseek : (f : F.File) (n : ℕ) (s : F.State) → opened (F.f_lseek f n s) ≡ opened s
  pub opened-close : (f : F.File) (s : F.State) → opened (F.f_close f s) ≡ opened s - 1
  pub opened-opendir :
      (path : List ℕ) (s : F.State)
      → opened (F.f_opendir path s).1 ≡ opened s + one_if (F.f_opendir path s).0
  pub opened-readdir : (d : F.Dir) (s : F.State) → opened (F.f_readdir d s).1 ≡ opened s
  pub opened-closedir : (d : F.Dir) (s : F.State) → opened (F.f_closedir d s) ≡ opened s - 1
  pub length-read : (f : F.File) (n : ℕ) (s : F.State) → length (F.f_read f n s).1 ≤ n

-- The answer number `i` of a directory with the entries of a list: an empty name marks the end.
abbrev pub entry_at : List FilInfo → ℕ → Option FilInfo
entry_at [] i = some (record { fname = []; fattrib = 0 })
entry_at (e ∷ es) zero = some e
entry_at (e ∷ es) (suc i) = entry_at es i

-- The answer of `f_readdir` number `i`, from a state of the file system on.
abbrev pub nth_entry : (F : FatFs) → (i : ℕ) → F.Dir → F.State → Option FilInfo × F.State
nth_entry F zero dir fs = F.f_readdir dir fs
nth_entry F (suc i) dir fs = nth_entry F i dir (F.f_readdir dir fs).1

-- A path names a directory with the entries `es`, in every state of a family: reading through it and
-- closing it leads to a state of the family again.
pub record Lists (F : FatFs) (path : List ℕ) (Good : F.State → Type 0) (es : List FilInfo)
    : Type 0 where
  pub dir : F.State → F.Dir
  pub opens : (s : F.State) → Good s → (F.f_opendir path s).0 ≡ some (dir s)
  pub entries :
      (s : F.State)
      → Good s
      → (i : ℕ) → (nth_entry F i (dir s) (F.f_opendir path s).1).0 ≡ entry_at es i
  pub again :
      (s : F.State)
      → Good s
      → (i : ℕ) → Good (F.f_closedir (dir s) (nth_entry F i (dir s) (F.f_opendir path s).1).1)

-- What is written to a new file of a path, in a state of a family, is read from it afterwards: the
-- documented behaviour of `f_open` with `FA_CREATE_ALWAYS`, of `f_write` with room on the disk, and of
-- `f_read` from the start of the file.
pub record Keeps (F : FatFs) (path : List ℕ) (Good : F.State → Type 0) : Type 0 where
  pub writer : F.State → F.File
  pub reader : F.State → F.File
  -- The contents of the file, where there is one.
  pub contents : F.State → Option (List ℕ)
  pub creates : (s : F.State) → Good s → (F.f_open path 0x0A s).0 ≡ some (writer s)
  pub writes :
      (s : F.State) (bytes : List ℕ)
      → Good s
      → (let w = F.f_write (writer s) bytes (F.f_open path 0x0A s).1 in
          (w.0 ≡ true) × (w.1 ≡ length bytes) × (contents (F.f_close (writer s) w.2) ≡ some bytes))
  pub opens :
      (s : F.State) (bytes : List ℕ)
      → contents s ≡ some bytes
      → (F.f_open path 1 s).0 ≡ some (reader s)
  pub reads :
      (s : F.State) (bytes : List ℕ) (n : ℕ)
      → contents s ≡ some bytes
      → (let r = F.f_read (reader s) n (F.f_open path 1 s).1 in (r.0 ≡ true) × (r.1 ≡ take n bytes))
