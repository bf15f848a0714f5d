-- ===== src/Vga.antt =====
-- vga_driver.c: the text mode terminal, with the screen at 0xB8000 in a memory of bytes, and the
-- writes to the ports of the cursor, the last first.
pub mod Screen
mod Tests
use os.Base.{
  ℕ, zero, suc, ◌+◌, ◌-◌, ◌*◌, ◌%◌, ◌/◌, ◌^◌, Bool, true, false, List, [], ◌∷◌, bit_and, bit_or,
  leb, ltb, ◌==◌, if◌then◌else◌,
}
use os.Base.Word.{u32, u8}
use os.Strings.{Bytes, memcpy, memsetw}
use os.Fb.{store16}
use os.Idt.{PortWrite, out}

abbrev pub vga_width : ℕ
vga_width = 90

abbrev pub vga_height : ℕ
vga_height = 60

abbrev pub vga_memory : ℕ
vga_memory = 0xB8000

pub record Terminal : Type 0 where
  pub terminal_row : ℕ
  pub terminal_column : ℕ
  pub terminal_color : ℕ
  pub mem : Bytes
  pub ports : List PortWrite

pub vga_entry_color : (fg bg : ℕ) → ℕ
vga_entry_color fg bg = bit_or (bg * 2 ^ 4) (bit_and fg 0x0F)

pub vga_entry : (uc color : ℕ) → ℕ
vga_entry uc color = bit_or (color * 2 ^ 8) uc

-- The columns of a row from `x` on, and the rows from `y` on, made blank.
pub blank_row : (rounds x y : ℕ) → Terminal → Terminal
blank_row zero x y t = t
blank_row (suc rounds) x y t = blank_row rounds (x + 1) y (record t {
  mem = store16 t.mem (vga_memory + 2 * (y * vga_width + x)) (vga_entry b' ' t.terminal_color);
})

pub blank_rows : (rounds y : ℕ) → Terminal → Terminal
blank_rows zero y t = t
blank_rows (suc rounds) y t = blank_rows rounds (y + 1) (blank_row vga_width 0 y t)

pub terminal_setcolor : (color : ℕ) → Terminal → Terminal
terminal_setcolor color t = record t { terminal_color = color }

pub terminal_putentryat : (c color x y : ℕ) → Terminal → Terminal
terminal_putentryat c color x y t =
    if c == 10
    then record t { terminal_column = 0; terminal_row = u32 (t.terminal_row + 1) }
    else record t { mem = store16 t.mem (vga_memory + 2 * (y * vga_width + x)) (vga_entry c color) }

pub terminal_movecsr : (x y : ℕ) → Terminal → Terminal
terminal_movecsr x y t =
    let temp = y * vga_width + x in
    record t {
      ports =
          out 0x3D5 (u8 temp)
          ∷ out 0x3D4 15
          ∷ out 0x3D5 (u8 (temp / 2 ^ 8))
          ∷ out 0x3D4 14
          ∷ t.ports;
    }

pub terminal_scroll : Terminal → Terminal
terminal_scroll t =
    let blank = bit_or 0x20 (0x0F * 2 ^ 8) in
    if leb vga_height t.terminal_row
    then (let temp = t.terminal_row - vga_height + 1 in
        let kept = vga_height - temp in
        let moved =
          memcpy 0xB8000 (0xB8000 + 2 * (temp * vga_width)) (kept * vga_width * 2) t.mem in
        record t {
          mem = memsetw (0xB8000 + 2 * (kept * vga_width)) blank vga_width moved;
          terminal_row = vga_height - 1;
        })
    else t

-- The `switch` of `terminal_putchar`.
pub put_backspace : Terminal → Terminal
put_backspace t =
    let back =
      (if ltb 0 t.terminal_column
        then record t { terminal_column = t.terminal_column - 1 }
        else if ltb 0 t.terminal_row
        then record t { terminal_row = t.terminal_row - 1; terminal_column = vga_width - 1 }
        else t) in
    terminal_putentryat b' ' back.terminal_color back.terminal_column back.terminal_row back

pub put_char : (c : ℕ) → Terminal → Terminal
put_char c t =
    if c == 10
    then record t { terminal_column = 0; terminal_row = u32 (t.terminal_row + 1) }
    else if c == 8
    then put_backspace t
    else let t' = terminal_putentryat c t.terminal_color t.terminal_column t.terminal_row t in
      record t' { terminal_column = u32 (t'.terminal_column + 1) }

pub terminal_putchar : (c : ℕ) → Terminal → Terminal
terminal_putchar c t =
    let put = put_char c t in
    let wrapped =
      (if put.terminal_column == vga_width
        then record put { terminal_column = 0; terminal_row = u32 (put.terminal_row + 1) }
        else put) in
    let scrolled = terminal_scroll wrapped in
    terminal_movecsr scrolled.terminal_column scrolled.terminal_row scrolled

-- The bytes, from `data` on, are given as a list.
pub terminal_write : List ℕ → Terminal → Terminal
terminal_write [] t = t
terminal_write (c ∷ data_rest) t = terminal_write data_rest (terminal_putchar c t)

pub terminal_clear : Terminal → Terminal
terminal_clear t =
    let start = record t {
      terminal_row = 0;
      terminal_column = 0;
      terminal_color = vga_entry_color 15 0;
    } in
    terminal_movecsr 0 0 (blank_rows vga_height 0 start)

-- `terminal_init` writes the message of the driver at the end.
pub terminal_init : (message : List ℕ) → Terminal → Terminal
terminal_init message t =
    let start = record t {
      terminal_row = 0;
      terminal_column = 0;
      terminal_color = vga_entry_color 7 0;
    } in
    terminal_write message (blank_rows vga_height 0 start)

pub nibble_to_hex : (nibble : ℕ) → ℕ
nibble_to_hex nibble = let n = bit_and nibble 0xF in if ltb n 10 then b'0' + n else b'A' + (n - 10)

-- The digits of `terminal_hexprint` from bit `4 * rounds - 4` down.
pub hex_digits : (rounds value : ℕ) → List ℕ
hex_digits zero value = []
hex_digits (suc rounds) value =
    nibble_to_hex (bit_and (value / 2 ^ (4 * rounds)) 0xF) ∷ hex_digits rounds value

pub terminal_hexprint : (value : ℕ) → Terminal → Terminal
terminal_hexprint value t =
    terminal_write (hex_digits 8 value) (terminal_write (b'0' ∷ b'x' ∷ []) t)
