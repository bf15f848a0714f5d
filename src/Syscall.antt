-- ===== src/Syscall.antt =====
-- syscall.c: the handler of the interrupt 0x80. The state is the file system, the page tables with the
-- frames, the `ui` context with the memory, and the keyboard. Strings stand in the memory; the loops
-- over them have fuel.
pub mod State
pub mod Calls
pub mod Files
pub mod Reads
pub mod Texts
pub mod Writes
pub mod Sample
pub mod Handler
mod Tests
use os.Base.{
  ℕ, zero, suc, ◌+◌, ◌-◌, ◌*◌, ◌/◌, ◌%◌, ◌^◌, Bool, true, false, not, ◌&&◌, ◌||◌, Option, none,
  some, List, [], ◌∷◌, ◌++◌, bit_and, ltb, leb, ◌==◌, ◌!=◌, if◌then◌else◌, length, get_or,
}
use os.Base.Word.{u32, sub32}
use os.Base.Run.{Run, done, halt}
use os.Base.Maybe.{◌>>=◌}
use os.Strings.{Bytes, store_byte, strcpy, memcpy}
use os.Keyboard.{Keyboard, keyboard_getchar}
use os.Fat.{FatFs, FilInfo}
use os.Vmm.{Vmm}
use os.Elf.{Loader, store_bytes, load_elf}
use os.Heap.{Heap, Outcome, ok, fault, out_of_fuel}
use os.Fb.{is_negative}
use os.Shell.{codes}
use os.Psf.{FontState, minus, load_psf1_font}
use os.Console.{
  UiContext, console_write, console_putchar, console_clear, console_clear_line_from,
  console_move_cursor, console_putpixel, console_decprint, console_set_colors, console_get_fg,
  console_get_bg, console_changetheme, console_gettheme,
}
use os.Theme.{Theme}
pub use os.Syscall.State.{Regs, Kernel, Ended, returns, user_mode, stopped}
unfoldable pub use os.Syscall.State.{
  mem_of, with_mem, with_ui, loader_of, with_loader, font_state, with_font, return, keep, string_at,
  bytes_at, word_at,
}
unfoldable pub use os.Syscall.Calls.{
  draw_row, draw_rows, words32, theme_bytes, read_opened_file, syscall_read_file, is_entry,
  readdir_loop, find_entry, store_entry, entry_found, read_opened_dir, syscall_readdir,
  check_opened_dir, syscall_checkdir, write_opened_file, syscall_writefile, exec_loaded,
  exit_loaded, readchar, termfont, themed, returned,
}

-- `cwd` is the address of
-- the array of that name.
module _ (F : FatFs) (fuel cwd : ℕ) (stack : ℕ → ℕ) where
  unfoldable pub syscall_exec : Regs → Kernel F.State → Option (Ended F.State)
  syscall_exec regs k = strcpy fuel cwd regs.ecx (mem_of k) >>= λ m.
      string_at fuel regs.ebx m >>= λ filename.
      exec_loaded F regs (with_mem m k) (load_elf F filename (loader_of (with_mem m k)))

  -- A case that takes the string at `ebx`.
  abbrev pub with_string :
      Regs → Kernel F.State → (List ℕ → Option (Ended F.State)) → Option (Ended F.State)
  with_string regs k f = string_at fuel regs.ebx (mem_of k) >>= f

  -- The `switch`.
  unfoldable pub syscall_handler : Regs → Kernel F.State → Option (Ended F.State)
  syscall_handler regs k =
      let m = mem_of k in
      let a = regs.eax in
      if a == 1
      then with_string regs k (λ str. keep regs (with_ui (console_write str k.ui) k))
      else if a == 21
      then keep regs (with_ui (console_clear_line_from regs.ebx k.ui) k)
      else if a == 20
      then keep regs (with_ui (console_move_cursor regs.ebx regs.ecx k.ui) k)
      else if a == 18
      then (if is_negative regs.ebx || leb 640 regs.ebx || is_negative regs.ecx || leb 480 regs.ecx
          then keep regs k
          else keep regs (with_ui (console_putpixel regs.ebx regs.ecx regs.edx k.ui) k))
      else if a == 19
      then (let rows = (if is_negative regs.esi then 0 else regs.esi) in
          keep regs (with_ui (draw_rows rows 0 regs.ebx regs.ecx regs.edx regs.edi k.ui) k))
      else if a == 3
      then readchar F regs k (keyboard_getchar k.keyboard)
      else if a == 2
      then keep regs (with_ui (console_decprint regs.ebx k.ui) k)
      else if a == 4
      then keep regs (with_ui (console_set_colors regs.ebx regs.ecx k.ui) k)
      else if a == 5
      then syscall_exec regs k
      else if a == 6
      then exit_loaded F k (load_elf F (codes "bin/shell.elf") (loader_of k))
      else if a == 7
      then with_string regs k (λ path. returned F regs (syscall_checkdir F path k))
      else if a == 8
      then (strcpy fuel regs.ebx cwd m >>= λ m'. keep regs (with_mem m' k))
      else if a == 9
      then with_string regs k (λ path. returned F regs (syscall_readdir F path regs.ecx regs.edx k))
      else if a == 10
      then with_string regs k
          (λ path. returned F regs (syscall_writefile F path (bytes_at regs.edx regs.ecx m) k))
      else if a == 11
      then keep regs (with_ui (console_clear k.ui) k)
      else if a == 12
      then with_string regs k
          (λ path. termfont F regs k (load_psf1_font F stack path (font_state k)))
      else if a == 13
      then return (console_get_fg k.ui) regs k
      else if a == 14
      then return (console_get_bg k.ui) regs k
      else if a == 15
      then with_string regs k (λ path. console_changetheme F fuel path k.ui k.fs >>= λ r.
          return (if r.0 then 0 else minus 1) regs (themed F r k))
      else if a == 16
      then keep regs (with_mem (store_bytes regs.ebx (theme_bytes (console_gettheme k.ui)) m) k)
      else if a == 17
      then with_string regs k
          (λ path. returned F regs (syscall_read_file F path regs.ecx regs.edx k))
      else keep regs (
          with_ui
            (console_putchar 10
              (console_decprint a (console_write (codes "Unknown syscall: ") k.ui)))
            k)
