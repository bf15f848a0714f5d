-- ===== src/Syscall/Reads.antt =====
-- syscall.c: what the reading calls give, `syscall_read_file` and `SYSCALL_READDIR`.
use os.Base.{
  ℕ, zero, suc, ◌+◌, ◌-◌, ◌^◌, ◌<◌, ◌≤◌, ◌≡◌, refl, Bool, true, false, arith, Option, none, some,
  List, length, get_or, if◌then◌else◌, ◌∙◌, Bool-cases, Option-cases, inl, inr, ◌⊎◌,
}
use os.Base.Word.{sub32}
use os.Fb.{is_negative}
use os.Fat.{FatFs, FilInfo, IsLawful, nth_entry}
use os.Elf.{store_bytes}
use os.Elf.Segment.{store_bytes_lem}
use os.Syscall.{
  with_mem, Kernel, mem_of, read_opened_file, syscall_read_file, is_entry, readdir_loop, find_entry,
  entry_found, read_opened_dir, syscall_readdir, store_entry,
}
use os.Psf.{minus}

module _ (F : FatFs) where
  -- The first answers are entries.
  abbrev pub HasEntries : (n : ℕ) → F.Dir → F.State → Type 0
  HasEntries n dir fs = (i : ℕ) → i < n → is_entry F (nth_entry F i dir fs).0 ≡ true

  readdir_loop_lem :
      (left : ℕ) (dir : F.Dir) (fs : F.State)
      → HasEntries (left + 1) dir fs
      → readdir_loop F left dir fs ≡ nth_entry F left dir fs
  unfolding readdir_loop
  readdir_loop_lem zero dir fs h = rw (h 0 (omega arith)) refl
  readdir_loop_lem (suc left) dir fs h =
      rw (h 0 (omega arith))
        (readdir_loop_lem left dir (F.f_readdir dir fs).1 (λ i lt. h (suc i) (omega arith)))

  readdir_loop-none :
      (left i : ℕ) (dir : F.Dir) (fs : F.State)
      → i ≤ left
      → is_entry F (nth_entry F i dir fs).0 ≡ false
      → (readdir_loop F left dir fs).0 ≡ none
  unfolding readdir_loop
  readdir_loop-none zero zero dir fs le e = rw e refl
  readdir_loop-none zero (suc i) dir fs le e = absurd (omega arith)
  readdir_loop-none (suc left) zero dir fs le e = rw e refl
  readdir_loop-none (suc left) (suc i) dir fs le e =
      elim (Bool-cases (is_entry F (F.f_readdir dir fs).0)) [
        | inl more ↦ rw more (readdir_loop-none left i dir (F.f_readdir dir fs).1 (omega arith) e)
        | inr last ↦ rw last refl
      ]

  module _ (path : List ℕ) (user_entry index : ℕ) (k : Kernel F.State) where
    -- The directory that the call reads, with the state in which it was opened.
    abbrev pub entry_in : F.Dir → ℕ → Option FilInfo
    entry_in dir i = (nth_entry F i dir (F.f_opendir path k.fs).1).0

    pub syscall_readdir-entry :
        (dir : F.Dir) (e : FilInfo)
        → (F.f_opendir path k.fs).0 ≡ some dir
        → index < 2 ^ 31
        → HasEntries (index + 1) dir (F.f_opendir path k.fs).1
        → entry_in dir index ≡ some e
        → syscall_readdir F path user_entry index k ≡ (
          0,
          with_mem (store_entry F user_entry e (mem_of k)) (record k {
            fs = F.f_closedir dir (nth_entry F index dir (F.f_opendir path k.fs).1).1;
          }),
        )
    unfolding syscall_readdir read_opened_dir find_entry entry_found
    syscall_readdir-entry dir e is_open small more at =
        let signed : is_negative index ≡ false = ground arith in
        rw (is_open, signed, readdir_loop_lem index dir _ more, at) refl

    -- Where a directory has more entries than the index, the call gives 0, and the entry with this
    -- index stands in `user_entry`.
    pub syscall_readdir-found :
        (dir : F.Dir) (e : FilInfo)
        → (F.f_opendir path k.fs).0 ≡ some dir
        → index < 2 ^ 31
        → HasEntries (index + 1) dir (F.f_opendir path k.fs).1
        → entry_in dir index ≡ some e
        → ((syscall_readdir F path user_entry index k).0 ≡ 0)
          × (mem_of (syscall_readdir F path user_entry index k).1
              ≡ store_entry F user_entry e (mem_of k))
    syscall_readdir-found dir e is_open small more at =
        rw (syscall_readdir-entry dir e is_open small more at) (refl, refl)

    -- Where it has not, or there is no such directory, the call gives 1 and changes no memory.
    pub syscall_readdir-missing :
        (i : ℕ)
        → ((dir : F.Dir)
            → (F.f_opendir path k.fs).0 ≡ some dir
            → (i ≤ index) × (is_entry F (entry_in dir i) ≡ false))
        → ((syscall_readdir F path user_entry index k).0 ≡ 1)
          × (mem_of (syscall_readdir F path user_entry index k).1 ≡ mem_of k)
    unfolding syscall_readdir read_opened_dir find_entry entry_found
    syscall_readdir-missing i missing = elim (Option-cases (F.f_opendir path k.fs).0) [
      | inl e ↦ rw e (refl, refl)
      | inr (dir, e) ↦ elim (Bool-cases (is_negative index)) [
        | inl below ↦ rw (e, below) (refl, refl)
        | inr signed ↦
            let m = missing dir e in
            rw (e, signed, readdir_loop-none index i dir _ m.0 m.1) (refl, refl)
      ]
    ]

module _ (F : FatFs) (opened : F.State → ℕ) (law : IsLawful F opened) (path : List ℕ)
    (buf bufsize : ℕ) (k : Kernel F.State) where
  abbrev pub opened_file : Option F.File × F.State
  opened_file = F.f_open path 1 k.fs

  -- What the read of a file gives.
  abbrev pub read_of : F.File → Bool × List ℕ × F.State
  read_of file = F.f_read file (bufsize - 1) opened_file.1

  -- The result of the call with the file that was opened.
  pub record ReadFile (file : F.File) (r : ℕ × Kernel F.State) : Type 0 where
    pub result : r.0 ≡ (if (read_of file).0 then length (read_of file).1 else minus 1)
    pub short : length (read_of file).1 < bufsize
    pub bytes :
        (i : ℕ) → i < length (read_of file).1 → mem_of r.1 (buf + i) ≡ get_or (read_of file).1 i 0
    pub end : (read_of file).0 ≡ true → mem_of r.1 (buf + length (read_of file).1) ≡ 0
    pub outside : (a : ℕ) → (a < buf) ⊎ (buf + bufsize ≤ a) → mem_of r.1 a ≡ mem_of k a

  read_opened_file-ReadFile :
      (file : F.File)
      → 1 ≤ bufsize
      → bufsize < 2 ^ 32
      → ReadFile file (read_opened_file F buf bufsize (some file) (record k { fs = opened_file.1 }))
  unfolding read_opened_file
  read_opened_file-ReadFile file pos fits =
      let size : sub32 bufsize 1 ≡ bufsize - 1 = omega (arith) in
      let read = read_of file in
      let cs : List ℕ = read.1 in
      let n : length cs ≤ bufsize - 1 = law.length-read file (bufsize - 1) opened_file.1 in
      let inside : (i : ℕ)
          → i < length cs
          → store_bytes buf cs (mem_of k) (buf + i) ≡ get_or cs i 0 =
        λ i lt.
          let at : buf + i - buf ≡ i = omega arith in
          store_bytes_lem buf cs (mem_of k) (buf + i) ∙ rw at (ground arith) in
      let kept : (a : ℕ)
          → (a < buf) ⊎ (buf + bufsize ≤ a)
          → store_bytes buf cs (mem_of k) a ≡ mem_of k a =
        λ a out. store_bytes_lem buf cs (mem_of k) a ∙ ground arith in
      rw size (elim (Bool-cases read.0) [
        | inl good ↦ rw good (record {
          result = rw good refl;
          short = omega arith;
          bytes = λ i lt. let e = inside i lt in ground arith;
          end = λ h. ground arith;
          outside = λ a out. let e = kept a out in ground arith;
        })
        | inr bad ↦ rw bad (record {
          result = rw bad refl;
          short = omega arith;
          bytes = inside;
          end = λ h. cc;
          outside = kept;
        })
      ])

  -- For a buffer of at least one byte, `syscall_read_file` returns -1 where the file cannot be opened or
  -- read, else the number of bytes read, which are less than the buffer has; they stand in the buffer
  -- from its first byte on, followed by a 0, and nothing outside the buffer changes.
  pub syscall_read_file_lem :
      1 ≤ bufsize
      → bufsize < 2 ^ 32
      → buf + bufsize ≤ 2 ^ 32
      → ((opened_file.0 ≡ none)
          × (syscall_read_file F path buf bufsize k ≡ (minus 1, record k { fs = opened_file.1 })))
        ⊎ ((file : F.File) × (opened_file.0 ≡ some file)
            × ReadFile file (syscall_read_file F path buf bufsize k))
  unfolding syscall_read_file read_opened_file
  syscall_read_file_lem pos fits in_memory = elim (Option-cases opened_file.0) [
    | inl e ↦ inl (e, rw e refl)
    | inr (file, e) ↦ inr (file, e, rw e (read_opened_file-ReadFile file pos fits))
  ]
