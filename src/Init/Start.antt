-- ===== src/Init/Start.antt =====
-- user_programs/init.c: what the program does on the kernel.
use mathlib.Core.Option.{some-injective, none-ne-some}
use os.Base.{
  ℕ, ◌+◌, ◌^◌, ◌<◌, ◌≤◌, ◌≡◌, refl, ap, sym, subst, ◌∙◌, true, false, arith, some, List, [], ◌∷◌,
  ◌++◌, length, get_or, ◌==◌, Bool-cases, ==→eq, inl, inr,
}
use os.Strings.{Bytes, store_byte}
use os.Strings.Texts.{NoZero, IsString, bytes-IsString}
use os.Fat.{FatFs, IsLawful}
use os.Fb.{is_negative}
use os.Shell.{codes, exec}
use os.Syscall.{Kernel, mem_of, string_at, syscall_read_file}
use os.Syscall.Reads.{ReadFile, syscall_read_file_lem}
use os.Syscall.Texts.{string_at-IsString}
use os.Init.{shell_load_rc, start}
use os.Init.Settings.{
  Setting, print_settings, calls_of, AllPaths, print_settings-NoZero, print_settings-nil,
  load_loop-print_settings,
}

module _ (F : FatFs) (opened : F.State → ℕ) (law : IsLawful F opened) (fuel buf : ℕ)
    (k : Kernel F.State) where
  abbrev Read : F.File → ℕ × Kernel F.State → Type 0
  Read file r = ReadFile F opened law (codes "/shellrc") buf 1023 k file r

  -- The text that a successful read leaves in `buf`.
  text_at :
      (file : F.File) (text : List ℕ) (r : ℕ × Kernel F.State)
      → Read file r
      → (F.f_read file 1022 (F.f_open (codes "/shellrc") 1 k.fs).1).0 ≡ true
      → (F.f_read file 1022 (F.f_open (codes "/shellrc") 1 k.fs).1).1 ≡ text
      → NoZero text
      → 1023 ≤ fuel
      → (r.0 ≡ length text)
        × (length text < 1023)
        × (string_at fuel buf (store_byte (mem_of r.1) (buf + r.0) 0) ≡ some text)
  text_at file text r read good contents no_zero enough =
      let n : r.0 ≡ length text = read.result ∙ rw (good, contents) refl in
      let short : length text < 1023 = subst (λ t. length t < 1023) contents read.short in
      let bytes : (i : ℕ) → i < length text → mem_of r.1 (buf + i) ≡ get_or text i 0 =
        subst (λ t. (i : ℕ) → i < length t → mem_of r.1 (buf + i) ≡ get_or t i 0) contents
          read.bytes in
      let m : Bytes = store_byte (mem_of r.1) (buf + r.0) 0 in
      let standing : IsString m buf text =
        bytes-IsString m buf text no_zero (λ i lt. let b = bytes i lt in ground arith)
          (ground arith) in
      (n, short, string_at-IsString fuel buf m text standing (omega arith))

  load_rc_lem :
      (ss : List Setting) (file : F.File)
      → Read file (syscall_read_file F (codes "/shellrc") buf 1023 k)
      → (F.f_read file 1022 (F.f_open (codes "/shellrc") 1 k.fs).1).0 ≡ true
      → (F.f_read file 1022 (F.f_open (codes "/shellrc") 1 k.fs).1).1 ≡ print_settings ss
      → AllPaths ss
      → 1023 ≤ fuel
      → shell_load_rc F fuel buf k ≡ some (calls_of ss)
  unfolding shell_load_rc
  load_rc_lem ss file read good contents paths enough =
      let r = syscall_read_file F (codes "/shellrc") buf 1023 k in
      let text =
        text_at file (print_settings ss) r read good contents (print_settings-NoZero ss paths)
          enough in
      let signed : is_negative r.0 ≡ false = ground (arith, text.0, text.1) in
      elim (Bool-cases (r.0 == 0)) [
        | inl empty ↦
            let none_there : length (print_settings ss) ≡ 0 = sym text.0 ∙ ==→eq _ _ empty in
            rw empty (ap some (sym (print_settings-nil ss none_there)))
        | inr some_text ↦ rw (some_text, signed, text.2) (load_loop-print_settings ss paths)
      ]

  -- Where /shellrc has a line for each setting, and 1022 bytes at most, the program makes the calls of
  -- these settings in their order, then starts the shell.
  pub start_lem :
      (ss : List Setting) (file : F.File)
      → (F.f_open (codes "/shellrc") 1 k.fs).0 ≡ some file
      → (F.f_read file 1022 (F.f_open (codes "/shellrc") 1 k.fs).1).0 ≡ true
      → (F.f_read file 1022 (F.f_open (codes "/shellrc") 1 k.fs).1).1 ≡ print_settings ss
      → AllPaths ss
      → buf + 1023 ≤ 2 ^ 32
      → 1023 ≤ fuel
      → start F fuel buf k ≡ some (calls_of ss ++ (exec (codes "/bin/shell.elf") (codes "/") ∷ []))
  unfolding start
  start_lem ss file is_open good contents paths in_memory enough =
      let loaded : shell_load_rc F fuel buf k ≡ some (calls_of ss) =
        elim (syscall_read_file_lem F opened law (codes "/shellrc") buf 1023 k (omega arith)
          (omega arith) in_memory) [
            | inl (closed, e) ↦ absurd (none-ne-some _ (sym closed ∙ is_open))
            | inr (f, e, read) ↦
                let same : f ≡ file = some-injective _ _ (sym e ∙ is_open) in
                let read' : Read file (syscall_read_file F (codes "/shellrc") buf 1023 k) =
                  subst (λ g. Read g (syscall_read_file F (codes "/shellrc") buf 1023 k)) same
                    read in
                load_rc_lem ss file read' good contents paths enough
          ] in
      rw loaded refl
