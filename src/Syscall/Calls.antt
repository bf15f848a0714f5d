-- ===== src/Syscall/Calls.antt =====
-- syscall.c: what the cases of the handler do.
use os.Base.{
  ℕ, zero, suc, ◌+◌, ◌-◌, ◌*◌, ◌/◌, ◌%◌, ◌^◌, Bool, false, not, ◌||◌, Option, none, some, List, [],
  ◌∷◌, ◌++◌, bit_and, leb, ◌!=◌, if◌then◌else◌, length,
}
use os.Base.Word.{u32, sub32}
use os.Base.Run.{Run, done, halt}
use os.Strings.{Bytes, store_byte}
use os.Keyboard.{Keyboard}
use os.Fat.{FatFs, FilInfo}
use os.Elf.{Loader, store_bytes}
use os.Heap.{Outcome, ok, fault, out_of_fuel}
use os.Fb.{is_negative}
use os.Psf.{FontState, minus}
use os.Console.{console_clear, UiContext, UiContext, console_putpixel}
use os.Theme.{Theme}
use os.Syscall.State.{
  Regs, Kernel, Ended, user_mode, stopped, mem_of, with_mem, with_loader, with_font, with_ui,
  return, word_at,
}

-- The inner loop of `SYSCALL_DRAWIMAGE`, with `cols` columns left.
unfoldable pub draw_row : (cols col row x y width pixels : ℕ) → UiContext → UiContext
draw_row zero col row x y width pixels ui = ui
draw_row (suc cols) col row x y width pixels ui =
    let color = word_at (u32 (pixels + 4 * u32 (row * width + col))) ui.mem in
    draw_row cols (col + 1) row x y width pixels
      (console_putpixel (u32 (x + col)) (u32 (y + row)) color ui)

unfoldable pub draw_rows : (rows row x y width pixels : ℕ) → UiContext → UiContext
draw_rows zero row x y width pixels ui = ui
draw_rows (suc rows) row x y width pixels ui =
    let cols = (if is_negative width then 0 else width) in
    draw_rows rows (row + 1) x y width pixels (draw_row cols 0 row x y width pixels ui)

abbrev pub words32 : List ℕ → List ℕ
words32 [] = []
words32 (w ∷ ws) =
    (w % 0x100) ∷ (w / 0x100 % 0x100) ∷ (w / 0x10000 % 0x100) ∷ (w / 0x1000000) ∷ words32 ws

-- `theme_t` as bytes.
abbrev pub theme_bytes : Theme → List ℕ
theme_bytes t = words32 (
    t.black ∷ t.red ∷ t.green ∷ t.yellow ∷ t.blue ∷ t.magenta ∷ t.cyan ∷ t.white ∷ t.gray
    ∷ t.light_black ∷ t.light_red ∷ t.light_green ∷ t.light_yellow ∷ t.light_blue ∷ t.light_magenta
    ∷ t.light_cyan ∷ t.light_white ∷ t.light_gray ∷ [])

module _ (F : FatFs) where
  -- What follows `f_open` in `syscall_read_file`.
  unfoldable pub read_opened_file :
      (buf bufsize : ℕ) → Option F.File → Kernel F.State → ℕ × Kernel F.State
  read_opened_file buf bufsize none k = (minus 1, k)
  read_opened_file buf bufsize (some file) k =
      let read = F.f_read file (sub32 bufsize 1) k.fs in
      let mem = store_bytes buf read.1 (mem_of k) in
      let k' = record k { fs = F.f_close file read.2 } in
      if not read.0
      then (minus 1, with_mem mem k')
      else (length read.1, with_mem (store_byte mem (buf + length read.1) 0) k')

  unfoldable pub syscall_read_file :
      (path : List ℕ) → (buf bufsize : ℕ) → Kernel F.State → ℕ × Kernel F.State
  syscall_read_file path buf bufsize k =
      let opened = F.f_open path 1 k.fs in
      read_opened_file buf bufsize opened.0 (record k { fs = opened.1 })

  -- Whether the loop of `SYSCALL_READDIR` goes on after an answer of `f_readdir`.
  abbrev pub is_entry : Option FilInfo → Bool
  is_entry none = false
  is_entry (some e) = length e.fname != 0

  -- That loop, with `left` entries before the one asked for.
  unfoldable pub readdir_loop : (left : ℕ) → F.Dir → F.State → Option FilInfo × F.State
  readdir_loop zero dir fs = let r = F.f_readdir dir fs in if is_entry r.0 then r else (none, r.1)
  readdir_loop (suc left) dir fs =
      let r = F.f_readdir dir fs in
      let rest = readdir_loop left dir r.1 in if is_entry r.0 then rest else (none, r.1)

  -- An index below 0 is passed at the first entry.
  unfoldable pub find_entry : (index : ℕ) → F.Dir → F.State → Option FilInfo × F.State
  find_entry index dir fs =
      if is_negative index then (none, (F.f_readdir dir fs).1) else readdir_loop index dir fs

  -- `struct dirent` at an address: 256 bytes of the name, and `is_dir` behind them.
  abbrev pub store_entry : (user_entry : ℕ) → FilInfo → Bytes → Bytes
  store_entry user_entry e m =
      store_byte (store_bytes user_entry (e.fname ++ (0 ∷ [])) m) (user_entry + 256)
        (if bit_and e.fattrib 0x10 != 0 then 1 else 0)

  unfoldable pub entry_found :
      (user_entry : ℕ) → Option FilInfo → Kernel F.State → ℕ × Kernel F.State
  entry_found user_entry none k = (1, k)
  entry_found user_entry (some e) k = (0, with_mem (store_entry user_entry e (mem_of k)) k)

  unfoldable pub read_opened_dir :
      (user_entry index : ℕ) → Option F.Dir → Kernel F.State → ℕ × Kernel F.State
  read_opened_dir user_entry index none k = (1, k)
  read_opened_dir user_entry index (some dir) k =
      let found = find_entry index dir k.fs in
      entry_found user_entry found.0 (record k { fs = F.f_closedir dir found.1 })

  unfoldable pub syscall_readdir :
      (path : List ℕ) → (user_entry index : ℕ) → Kernel F.State → ℕ × Kernel F.State
  syscall_readdir path user_entry index k =
      let opened = F.f_opendir path k.fs in
      read_opened_dir user_entry index opened.0 (record k { fs = opened.1 })

  unfoldable pub check_opened_dir : Option F.Dir → Kernel F.State → ℕ × Kernel F.State
  check_opened_dir none k = (0, k)
  check_opened_dir (some dir) k = (1, record k { fs = F.f_closedir dir k.fs })

  unfoldable pub syscall_checkdir : (path : List ℕ) → Kernel F.State → ℕ × Kernel F.State
  syscall_checkdir path k =
      let opened = F.f_opendir path k.fs in check_opened_dir opened.0 (record k { fs = opened.1 })

  unfoldable pub write_opened_file :
      (bytes : List ℕ) → Option F.File → Kernel F.State → ℕ × Kernel F.State
  write_opened_file bytes none k = (1, k)
  write_opened_file bytes (some file) k =
      let written = F.f_write file bytes k.fs in
      let k' = record k { fs = F.f_close file written.2 } in
      if not written.0 || (written.1 != length bytes) then (1, k') else (0, k')

  unfoldable pub syscall_writefile : (path bytes : List ℕ) → Kernel F.State → ℕ × Kernel F.State
  syscall_writefile path bytes k =
      let opened = F.f_open path 0x0A k.fs in
      write_opened_file bytes opened.0 (record k { fs = opened.1 })

  -- What follows `load_elf` in `SYSCALL_EXEC`.
  unfoldable pub exec_loaded :
      Regs → Kernel F.State → Run (ℕ × Loader F.State) → Option (Ended F.State)
  exec_loaded regs k halt = some stopped
  exec_loaded regs k (done (entry, l)) =
      if entry != 0
      then some (user_mode entry (with_loader l k))
      else return 0 regs (with_loader l k)

  -- Any entry point is gone to, 0 too.
  unfoldable pub exit_loaded : Kernel F.State → Run (ℕ × Loader F.State) → Option (Ended F.State)
  exit_loaded k halt = some stopped
  exit_loaded k (done (entry, l)) = some (user_mode entry (with_loader l k))

  unfoldable pub readchar : Regs → Kernel F.State → Option (ℕ × Keyboard) → Option (Ended F.State)
  readchar regs k none = some stopped
  readchar regs k (some (c, keyboard)) =
      return (if leb 128 c then u32 (c + 2 ^ 32 - 256) else c) regs
        (record k { keyboard = keyboard })

  unfoldable pub termfont :
      Regs → Kernel F.State → Outcome (ℕ × FontState F.State) → Option (Ended F.State)
  termfont regs k (ok (err, f)) = return err regs (with_font f k)
  termfont regs k fault = some stopped
  termfont regs k out_of_fuel = none

  abbrev pub returned : Regs → ℕ × Kernel F.State → Option (Ended F.State)
  returned regs r = return (r.0) regs (r.1)

  -- The state after `console_changetheme` and `console_clear`.
  abbrev pub themed : Bool × UiContext × F.State → Kernel F.State → Kernel F.State
  themed r k = record (with_ui (console_clear r.1) k) { fs = r.2 }
