-- ===== src/Ucall/Meaning.antt =====
-- user_programs/syscall.h and syscall.c: what a program gets for a call, said with the kernel's parts.
use os.Base.{
  ℕ, ◌%◌, ◌≡◌, refl, ap, ◌&&◌, Bool, ltb, arith, Option, none, some, List, ◌!=◌, if◌then◌else◌,
  Option-cases, inl, inr,
}
use os.Base.Maybe.{◌>>=◌}
use os.Base.Run.{Run, done, halt}
use os.Strings.{strcpy}
use os.Fat.{FatFs}
use os.Fb.{is_negative}
use os.Heap.{Outcome, ok, fault, out_of_fuel}
use os.Keyboard.{Keyboard, keyboard_getchar}
use os.Elf.{Loader, load_elf, store_bytes}
use os.Shell.{codes}
use os.Psf.{FontState, minus, load_psf1_font}
use os.Console.{
  console_write, console_clear, console_clear_line_from, console_move_cursor, console_putpixel,
  console_decprint, console_set_colors, console_get_fg, console_get_bg, console_changetheme,
  console_gettheme,
}
use os.Syscall.{
  Regs, Kernel, Ended, mem_of, with_mem, with_ui, loader_of, with_loader, font_state, with_font,
  string_at, bytes_at, draw_rows, themed, theme_bytes, syscall_read_file, syscall_readdir,
  syscall_checkdir, syscall_writefile, syscall_exec, exec_loaded, exit_loaded, readchar as key_read,
  termfont as font_loaded, syscall_handler,
}
use os.Ucall.{
  Stub, clear_line_from, movecursor, drawpixel, drawimage, write, writeint, readchar, termcolor,
  exit, exec, checkdir, recovercwd, readdir, writefile, termclear, termfont, termgetfg, termgetbg,
  ldtheme, gettheme, read_file, loaded, value, Answer, answers, leaves, never, answered, call,
}

module _ (F : FatFs) (fuel cwd : ℕ) (stack : ℕ → ℕ) where
  abbrev Result : Type 0
  Result = Option (Answer F.State)

  abbrev gives : (ret : ℕ) → Kernel F.State → Result
  gives ret k = some (answers ret k)

  abbrev gives_both : ℕ × Kernel F.State → Result
  gives_both r = gives (r.0) (r.1)

  -- With the string at an address.
  abbrev with_text : (a : ℕ) → Kernel F.State → (List ℕ → Result) → Result
  with_text a k f = string_at fuel a (mem_of k) >>= f

  -- A program that cannot be loaded gives 0.
  abbrev started : Kernel F.State → Run (ℕ × Loader F.State) → Result
  started k halt = some never
  started k (done (entry, l)) =
      if entry != 0 then some (leaves entry (with_loader l k)) else gives 0 (with_loader l k)

  -- The shell is gone to in any case.
  abbrev shell_started : Kernel F.State → Run (ℕ × Loader F.State) → Result
  shell_started k halt = some never
  shell_started k (done (entry, l)) = some (leaves entry (with_loader l k))

  abbrev font_read : Kernel F.State → Outcome (ℕ × FontState F.State) → Result
  font_read k (ok (err, f)) = gives err (with_font f k)
  font_read k fault = some never
  font_read k out_of_fuel = none

  abbrev key : Kernel F.State → Option (ℕ × Keyboard) → Result
  key k none = some never
  key k (some (c, keyboard)) = gives (c % 256) (record k { keyboard = keyboard })

  abbrev on_screen : (x y : ℕ) → Bool
  on_screen x y = ltb x 640 && ltb y 480

  -- What each function does, without registers.
  unfoldable pub meaning : Stub → Kernel F.State → Result
  meaning (clear_line_from col) k = gives 0 (with_ui (console_clear_line_from col k.ui) k)
  meaning (movecursor row col) k = gives 0 (with_ui (console_move_cursor row col k.ui) k)
  meaning (drawpixel x y color) k =
      gives 0 (if on_screen x y then with_ui (console_putpixel x y color k.ui) k else k)
  meaning (drawimage x y width height pixels) k =
      gives 0
        (with_ui (draw_rows (if is_negative height then 0 else height) 0 x y width pixels k.ui) k)
  meaning (write str) k = with_text str k (λ text. gives 1 (with_ui (console_write text k.ui) k))
  meaning (writeint num) k = gives 2 (with_ui (console_decprint num k.ui) k)
  meaning readchar k = key k (keyboard_getchar k.keyboard)
  meaning (termcolor fg bg) k = gives 0 (with_ui (console_set_colors fg bg k.ui) k)
  meaning exit k = shell_started k (load_elf F (codes "bin/shell.elf") (loader_of k))
  meaning (exec filename last_cwd) k = strcpy fuel cwd last_cwd (mem_of k) >>= λ m.
      with_text filename (with_mem m k)
        (λ name. started (with_mem m k) (load_elf F name (loader_of (with_mem m k))))
  meaning (checkdir path) k = with_text path k (λ name. gives_both (syscall_checkdir F name k))
  meaning (recovercwd dest) k = strcpy fuel dest cwd (mem_of k) >>= λ m. gives 0 (with_mem m k)
  meaning (readdir path entry index) k =
      with_text path k (λ name. gives_both (syscall_readdir F name entry index k))
  meaning (writefile path bytes len) k =
      with_text path k
        (λ name. gives_both (syscall_writefile F name (bytes_at len bytes (mem_of k)) k))
  meaning termclear k = gives 0 (with_ui (console_clear k.ui) k)
  meaning (termfont filename) k =
      with_text filename k (λ name. font_read k (load_psf1_font F stack name (font_state k)))
  meaning termgetfg k = gives (console_get_fg k.ui) k
  meaning termgetbg k = gives (console_get_bg k.ui) k
  meaning (ldtheme theme_path) k = with_text theme_path k (λ name.
      console_changetheme F fuel name k.ui k.fs >>= λ r.
      gives (if r.0 then 0 else minus 1) (themed F r k))
  meaning (gettheme theme) k =
      gives 16 (with_mem (store_bytes theme (theme_bytes (console_gettheme k.ui)) (mem_of k)) k)
  meaning (read_file path buf size) k =
      with_text path k (λ name. gives_both (syscall_read_file F name buf size k))

  answered-bind :
      {A : Type 0} (c : Stub) (o : Option A) (f : A → Option (Ended F.State))
      → answered c (o >>= f) ≡ (o >>= λ a. answered c (f a))
  answered-bind c none f = refl
  answered-bind c (some a) f = refl

  key-answered :
      (regs : Regs) (k : Kernel F.State) (r : Option (ℕ × Keyboard))
      → answered readchar (key_read F (loaded readchar regs) k r) ≡ key k r
  unfolding key_read loaded value
  key-answered regs k none = refl
  key-answered regs k (some (c, keyboard)) =
      ap (λ n. gives n (record k { keyboard = keyboard })) (ground arith)

  shell-answered :
      (k : Kernel F.State) (r : Run (ℕ × Loader F.State))
      → answered exit (exit_loaded F k r) ≡ shell_started k r
  unfolding exit_loaded
  shell-answered k halt = refl
  shell-answered k (done (entry, l)) = refl

  exec-answered :
      (filename last_cwd : ℕ) (regs : Regs) (k : Kernel F.State) (r : Run (ℕ × Loader F.State))
      → answered (exec filename last_cwd) (exec_loaded F (loaded (exec filename last_cwd) regs) k r)
        ≡ started k r
  unfolding exec_loaded loaded value
  exec-answered filename last_cwd regs k halt = refl
  exec-answered filename last_cwd regs k (done (entry, l)) = ground arith

  font-answered :
      (filename : ℕ) (regs : Regs) (k : Kernel F.State) (r : Outcome (ℕ × FontState F.State))
      → answered (termfont filename) (font_loaded F (loaded (termfont filename) regs) k r)
        ≡ font_read k r
  unfolding font_loaded loaded value
  font-answered filename regs k (ok (err, f)) = refl
  font-answered filename regs k fault = refl
  font-answered filename regs k out_of_fuel = refl

  -- Whatever the registers were, a function of `syscall.h` gives what its call means, the state of the
  -- kernel included: numbers and arguments are those that `syscall_handler` takes.
  pub call-meaning :
      (c : Stub) (regs : Regs) (k : Kernel F.State) → call F fuel cwd stack c regs k ≡ meaning c k
  unfolding call loaded value syscall_handler syscall_exec meaning
  call-meaning (clear_line_from col) regs k = refl
  call-meaning (movecursor row col) regs k = refl
  call-meaning (drawpixel x y color) regs k = ground arith
  call-meaning (drawimage x y width height pixels) regs k = refl
  call-meaning (write str) regs k = search answered-bind
  call-meaning (writeint num) regs k = refl
  call-meaning readchar regs k = key-answered regs k (keyboard_getchar k.keyboard)
  call-meaning (termcolor fg bg) regs k = refl
  call-meaning exit regs k = shell-answered k (load_elf F (codes "bin/shell.elf") (loader_of k))
  call-meaning (exec filename last_cwd) regs k =
      elim (Option-cases (strcpy fuel cwd last_cwd (mem_of k))) [
        | inl e ↦ rw e refl
        | inr (m, e) ↦ elim (Option-cases (string_at fuel filename m)) [
          | inl e' ↦ rw (e, e') refl
          | inr (name, e') ↦ rw (e, e') (exec-answered filename last_cwd regs (with_mem m k) _)
        ]
      ]
  call-meaning (checkdir path) regs k = search answered-bind
  call-meaning (recovercwd dest) regs k = search answered-bind
  call-meaning (readdir path entry index) regs k = search answered-bind
  call-meaning (writefile path bytes len) regs k = search answered-bind
  call-meaning termclear regs k = refl
  call-meaning (termfont filename) regs k =
      elim (Option-cases (string_at fuel filename (mem_of k))) [
        | inl e ↦ rw e refl
        | inr (name, e) ↦ rw e (font-answered filename regs k _)
      ]
  call-meaning termgetfg regs k = refl
  call-meaning termgetbg regs k = refl
  call-meaning (ldtheme theme_path) regs k = search answered-bind
  call-meaning (gettheme theme) regs k = refl
  call-meaning (read_file path buf size) regs k = search answered-bind
