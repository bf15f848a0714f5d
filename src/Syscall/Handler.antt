-- ===== src/Syscall/Handler.antt =====
-- syscall.c: what `syscall_handler` leaves open.
use os.Base.{
  ℕ, ◌≡◌, refl, subst, Option, none, some, List, ◌==◌, ◌!=◌, Holds, held, if-Holds, Option-cases,
  inl, inr, if◌then◌else◌,
}
use os.Base.Run.{Run, done, halt, Ends, Ends-mono, Ends-any}
use os.Base.Maybe.{◌>>=◌}
use os.Fat.{FatFs, IsLawful}
use os.Strings.{strcpy}
use os.Elf.{Loader, load_elf}
use os.Elf.Files.{load_elf-opened}
use os.Heap.{Outcome, ok, fault, out_of_fuel}
use os.Keyboard.{Keyboard, keyboard_getchar}
use os.Shell.{codes}
use os.Psf.{FontState, minus}
use os.Console.{console_changetheme}
use os.Theme.{load_theme}
use os.Theme.Files.{load_theme-opened}
use os.Psf.Files.{FontOpened, load_psf1_font-FontOpened}
use os.Syscall.{
  Regs, Kernel, Ended, returns, user_mode, stopped, mem_of, with_mem, loader_of, font_state,
  exec_loaded, syscall_exec, exit_loaded, readchar, termfont, themed, return, returned, string_at,
  syscall_handler,
}
use os.Syscall.Files.{
  Opened, syscall_read_file-Opened, syscall_readdir-Opened, syscall_checkdir-Opened,
  syscall_writefile-Opened,
}

module _ (F : FatFs) (opened : F.State → ℕ) (law : IsLawful F opened) where
  -- The handler returns, or goes to user mode, with a number of open objects, if it does either.
  abbrev pub Leaves : ℕ → Ended F.State → Type 0
  Leaves n (returns regs k) = opened k.fs ≡ n
  Leaves n (user_mode entry k) = opened k.fs ≡ n
  Leaves n stopped = Unit

  abbrev Comes : ℕ → Option (Ended F.State) → Type 0
  Comes n none = Unit
  Comes n (some e) = Leaves n e

  abbrev Settled : ℕ → Option (Ended F.State) → Type 0
  Settled n r = Holds (Comes n) r

  bind-Settled :
      {A : Type 0} {n : ℕ} (m : Option A) {f : A → Option (Ended F.State)}
      → ((a : A) → Settled n (f a))
      → Settled n (m >>= f)
  bind-Settled none h = held tt
  bind-Settled (some a) h = h a

  kept : (regs : Regs) (k : Kernel F.State) → Settled (opened k.fs) (some (returns regs k))
  kept regs k = held refl

  returned-Settled :
      {n : ℕ} (regs : Regs) (r : ℕ × Kernel F.State)
      → Opened F opened law n r
      → Settled n (returned F regs r)
  returned-Settled regs r h = held h

  loaded :
      (path : List ℕ) (s : Loader F.State)
      → Ends (λ r. opened r.1.fs ≡ opened s.fs) (load_elf F path s)
  loaded path s =
      Ends-mono (λ r. load_elf F path s ≡ done r) (λ r. opened r.1.fs ≡ opened s.fs)
        (load_elf F path s) (Ends-any _) (λ r run. load_elf-opened F opened law path s r.0 r.1 run)

  exec_loaded-Settled :
      (n : ℕ) (regs : Regs) (k : Kernel F.State) (r : Run (ℕ × Loader F.State))
      → Ends (λ q. opened q.1.fs ≡ n) r
      → Settled n (exec_loaded F regs k r)
  unfolding exec_loaded
  exec_loaded-Settled n regs k halt h = held tt
  exec_loaded-Settled n regs k (done (entry, l)) h = if-Holds (entry != 0) (held h) (held h)

  exit_loaded-Settled :
      (n : ℕ) (k : Kernel F.State) (r : Run (ℕ × Loader F.State))
      → Ends (λ q. opened q.1.fs ≡ n) r
      → Settled n (exit_loaded F k r)
  unfolding exit_loaded
  exit_loaded-Settled n k halt h = held tt
  exit_loaded-Settled n k (done (entry, l)) h = held h

  readchar-Settled :
      (regs : Regs) (k : Kernel F.State) (r : Option (ℕ × Keyboard))
      → Settled (opened k.fs) (readchar F regs k r)
  unfolding readchar
  readchar-Settled regs k none = held tt
  readchar-Settled regs k (some (c, keyboard)) = held refl

  termfont-Settled :
      (n : ℕ) (stack : ℕ → ℕ) (regs : Regs) (k : Kernel F.State)
      (r : Outcome (ℕ × FontState F.State))
      → FontOpened F opened law stack n r
      → Settled n (termfont F regs k r)
  unfolding termfont
  termfont-Settled n stack regs k (ok (err, f)) h = held h
  termfont-Settled n stack regs k fault h = held tt
  termfont-Settled n stack regs k out_of_fuel h = held tt

  module _ (fuel cwd : ℕ) (stack : ℕ → ℕ) where
    themed-Settled :
        (regs : Regs) (k : Kernel F.State) (path : List ℕ)
        → Settled (opened k.fs) (
            console_changetheme F fuel path k.ui k.fs >>= λ r.
            return (if r.0 then 0 else minus 1) regs (themed F r k))
    unfolding console_changetheme
    themed-Settled regs k path = elim (Option-cases (load_theme F fuel path k.fs)) [
      | inl e ↦ rw e (held tt)
      | inr (r, e) ↦ rw e (held (load_theme-opened F opened law fuel path k.fs r e))
    ]

    syscall_exec-Settled :
        (regs : Regs) (k : Kernel F.State)
        → Settled (opened k.fs) (syscall_exec F fuel cwd stack regs k)
    unfolding syscall_exec
    syscall_exec-Settled regs k = bind-Settled (strcpy fuel cwd regs.ecx (mem_of k)) (λ m.
        bind-Settled (string_at fuel regs.ebx m) (λ filename.
          exec_loaded-Settled (opened k.fs) regs (with_mem m k) _
            (loaded filename (loader_of (with_mem m k)))))

    syscall_handler-Settled :
        (regs : Regs) (k : Kernel F.State)
        → Settled (opened k.fs) (syscall_handler F fuel cwd stack regs k)
    unfolding syscall_handler
    syscall_handler-Settled regs k =
        let a = regs.eax in
        if-Holds (a == 1) (bind-Settled _ (λ str. kept _ _)) (
          if-Holds (a == 21) (kept _ _) (
            if-Holds (a == 20) (kept _ _) (
              if-Holds (a == 18) (if-Holds _ (kept _ _) (kept _ _)) (
                if-Holds (a == 19) (kept _ _) (
                  if-Holds (a == 3) (readchar-Settled regs k (keyboard_getchar k.keyboard)) (
                    if-Holds (a == 2) (kept _ _) (
                      if-Holds (a == 4) (kept _ _) (
                        if-Holds (a == 5) (syscall_exec-Settled regs k) (
                          if-Holds (a == 6)
                            (exit_loaded-Settled (opened k.fs) k _
                              (loaded (codes "bin/shell.elf") (loader_of k)))
                            (if-Holds (a == 7)
                              (bind-Settled _ (λ path.
                                returned-Settled regs _
                                  (syscall_checkdir-Opened F opened law path k)))
                              (if-Holds (a == 8) (bind-Settled _ (λ m. kept _ _)) (
                                if-Holds (a == 9)
                                  (bind-Settled _ (λ path.
                                    returned-Settled regs _ (
                                      syscall_readdir-Opened F opened law path regs.ecx regs.edx
                                        k)))
                                  (if-Holds (a == 10)
                                    (bind-Settled _ (λ path.
                                      returned-Settled regs _
                                        (syscall_writefile-Opened F opened law path _ k)))
                                    (if-Holds (a == 11) (kept _ _) (
                                      if-Holds (a == 12)
                                        (bind-Settled _ (λ path.
                                          termfont-Settled (opened k.fs) stack regs k _ (
                                            load_psf1_font-FontOpened F opened law stack path
                                              (font_state k))))
                                        (if-Holds (a == 13) (kept _ _) (
                                          if-Holds (a == 14) (kept _ _) (
                                            if-Holds (a == 15)
                                              (bind-Settled _ (λ path. themed-Settled regs k path))
                                              (if-Holds (a == 16) (kept _ _) (
                                                if-Holds (a == 17)
                                                  (bind-Settled _ (λ path. returned-Settled regs _ (
                                                    syscall_read_file-Opened F opened law path
                                                      regs.ecx regs.edx k)))
                                                  (kept _ _)))))))))))))))))))))

    -- Whatever system call is made, where its handler returns or goes to a program, as many files and
    -- directories are open as before.
    pub syscall_handler-opened :
        (regs : Regs) (k : Kernel F.State) (e : Ended F.State)
        → syscall_handler F fuel cwd stack regs k ≡ some e
        → Leaves (opened k.fs) e
    syscall_handler-opened regs k e run =
        subst (Comes (opened k.fs)) run (syscall_handler-Settled regs k).holds
