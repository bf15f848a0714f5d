-- ===== src/Syscall/Files.antt =====
-- syscall.c: every file and every directory that a system call opens is closed.
use os.Base.{
  ℕ, zero, suc, ◌-◌, ◌≡◌, refl, not, ◌||◌, arith, Option, none, some, List, length, ◌!=◌,
  Bool-cases, inl, inr,
}
use os.Base.Word.{sub32}
use os.Fat.{FatFs, FilInfo, IsLawful, one_if}
use os.Fb.{is_negative}
use os.Syscall.{
  Kernel, read_opened_file, syscall_read_file, is_entry, readdir_loop, find_entry, entry_found,
  read_opened_dir, syscall_readdir, check_opened_dir, syscall_checkdir, write_opened_file,
  syscall_writefile,
}

module _ (F : FatFs) (opened : F.State → ℕ) (law : IsLawful F opened) where
  -- As many open objects as a number.
  abbrev pub Opened : ℕ → ℕ × Kernel F.State → Type 0
  Opened n r = opened r.1.fs ≡ n

  read_opened_file-Opened :
      (buf bufsize : ℕ) (o : Option F.File) (k : Kernel F.State)
      → Opened (opened k.fs - one_if o) (read_opened_file F buf bufsize o k)
  unfolding read_opened_file
  read_opened_file-Opened buf bufsize none k = omega arith
  read_opened_file-Opened buf bufsize (some file) k =
      let read = F.f_read file (sub32 bufsize 1) k.fs in
      let closed : opened (F.f_close file read.2) ≡ opened k.fs - 1 =
        omega (arith, law.opened-close file read.2, law.opened-read file (sub32 bufsize 1) k.fs) in
      elim (Bool-cases (not read.0)) [ inl bad ↦ rw bad closed | inr good ↦ rw good closed ]

  pub syscall_read_file-Opened :
      (path : List ℕ) (buf bufsize : ℕ) (k : Kernel F.State)
      → Opened (opened k.fs) (syscall_read_file F path buf bufsize k)
  unfolding syscall_read_file
  syscall_read_file-Opened path buf bufsize k =
      let answer = F.f_open path 1 k.fs in
      omega (
        arith,
        read_opened_file-Opened buf bufsize answer.0 (record k { fs = answer.1 }),
        law.opened-open path 1 k.fs,
      )

  readdir_loop-opened :
      (left : ℕ) (dir : F.Dir) (fs : F.State) → opened (readdir_loop F left dir fs).1 ≡ opened fs
  unfolding readdir_loop
  readdir_loop-opened zero dir fs = elim (Bool-cases (is_entry F (F.f_readdir dir fs).0)) [
    | inl e ↦ rw e (law.opened-readdir dir fs)
    | inr e ↦ rw e (law.opened-readdir dir fs)
  ]
  readdir_loop-opened (suc left) dir fs =
      let r = F.f_readdir dir fs in
      let same = law.opened-readdir dir fs in
      elim (Bool-cases (is_entry F r.0)) [
        | inl e ↦ rw (e, readdir_loop-opened left dir r.1) same
        | inr e ↦ rw e same
      ]

  find_entry-opened :
      (index : ℕ) (dir : F.Dir) (fs : F.State) → opened (find_entry F index dir fs).1 ≡ opened fs
  unfolding find_entry
  find_entry-opened index dir fs = elim (Bool-cases (is_negative index)) [
    | inl e ↦ rw e (law.opened-readdir dir fs)
    | inr e ↦ rw e (readdir_loop-opened index dir fs)
  ]

  entry_found-Opened :
      (user_entry : ℕ) (o : Option FilInfo) (k : Kernel F.State)
      → Opened (opened k.fs) (entry_found F user_entry o k)
  unfolding entry_found
  entry_found-Opened user_entry none k = refl
  entry_found-Opened user_entry (some e) k = refl

  read_opened_dir-Opened :
      (user_entry index : ℕ) (o : Option F.Dir) (k : Kernel F.State)
      → Opened (opened k.fs - one_if o) (read_opened_dir F user_entry index o k)
  unfolding read_opened_dir
  read_opened_dir-Opened user_entry index none k = omega arith
  read_opened_dir-Opened user_entry index (some dir) k =
      let found = find_entry F index dir k.fs in
      omega (
        arith,
        entry_found-Opened user_entry found.0 (record k { fs = F.f_closedir dir found.1 }),
        law.opened-closedir dir found.1,
        find_entry-opened index dir k.fs,
      )

  pub syscall_readdir-Opened :
      (path : List ℕ) (user_entry index : ℕ) (k : Kernel F.State)
      → Opened (opened k.fs) (syscall_readdir F path user_entry index k)
  unfolding syscall_readdir
  syscall_readdir-Opened path user_entry index k =
      let answer = F.f_opendir path k.fs in
      omega (
        arith,
        read_opened_dir-Opened user_entry index answer.0 (record k { fs = answer.1 }),
        law.opened-opendir path k.fs,
      )

  check_opened_dir-Opened :
      (o : Option F.Dir) (k : Kernel F.State)
      → Opened (opened k.fs - one_if o) (check_opened_dir F o k)
  unfolding check_opened_dir
  check_opened_dir-Opened none k = omega arith
  check_opened_dir-Opened (some dir) k = law.opened-closedir dir k.fs

  pub syscall_checkdir-Opened :
      (path : List ℕ) (k : Kernel F.State) → Opened (opened k.fs) (syscall_checkdir F path k)
  unfolding syscall_checkdir
  syscall_checkdir-Opened path k =
      let answer = F.f_opendir path k.fs in
      omega (
        arith,
        check_opened_dir-Opened answer.0 (record k { fs = answer.1 }),
        law.opened-opendir path k.fs,
      )

  write_opened_file-Opened :
      (bytes : List ℕ) (o : Option F.File) (k : Kernel F.State)
      → Opened (opened k.fs - one_if o) (write_opened_file F bytes o k)
  unfolding write_opened_file
  write_opened_file-Opened bytes none k = omega arith
  write_opened_file-Opened bytes (some file) k =
      let written = F.f_write file bytes k.fs in
      let closed : opened (F.f_close file written.2) ≡ opened k.fs - 1 =
        omega (arith, law.opened-close file written.2, law.opened-write file bytes k.fs) in
      elim (Bool-cases (not written.0 || (written.1 != length bytes))) [
        | inl bad ↦ rw bad closed
        | inr good ↦ rw good closed
      ]

  pub syscall_writefile-Opened :
      (path bytes : List ℕ) (k : Kernel F.State)
      → Opened (opened k.fs) (syscall_writefile F path bytes k)
  unfolding syscall_writefile
  syscall_writefile-Opened path bytes k =
      let answer = F.f_open path 0x0A k.fs in
      omega (
        arith,
        write_opened_file-Opened bytes answer.0 (record k { fs = answer.1 }),
        law.opened-open path 0x0A k.fs,
      )
