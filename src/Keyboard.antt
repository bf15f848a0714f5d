-- ===== src/Keyboard.antt =====
-- keyboard_driver.c: the interrupt handler that turns scancodes (set 1) into characters, and the
-- ring buffer that it shares with `keyboard_getchar`. A `char` is its byte. The hardware's scancode
-- is an argument of `keyboard_callback`.
pub mod Buffer
pub mod Keys
pub mod Typed
pub mod Tests
use os.Base.{
  ℕ, suc, ◌+◌, ◌-◌, ◌%◌, Bool, true, false, not, ◌&&◌, ◌||◌, Option, none, some, List, [], ◌∷◌,
  ◌++◌, bit_and, leb, ◌==◌, ◌!=◌, if◌then◌else◌, get_or, set,
}
use mathlib.Core.Bool.{xor}

abbrev pub keyboard_buffer_size : ℕ
keyboard_buffer_size = 256

abbrev pub key_up : ℕ
key_up = 0x81

abbrev pub key_down : ℕ
key_down = 0x82

abbrev pub key_left : ℕ
key_left = 0x83

abbrev pub key_right : ℕ
key_right = 0x84

-- The tables without their zeros at the end, which `get_or` supplies.
abbrev pub scancode_to_ascii : List ℕ
scancode_to_ascii =
    0 ∷ 27 ∷ b'1' ∷ b'2' ∷ b'3' ∷ b'4' ∷ b'5' ∷ b'6' ∷ b'7' ∷ b'8' ∷ b'9' ∷ b'0' ∷ b'-' ∷ b'=' ∷ 8
    ∷ 9 ∷ b'q' ∷ b'w' ∷ b'e' ∷ b'r' ∷ b't' ∷ b'y' ∷ b'u' ∷ b'i' ∷ b'o' ∷ b'p' ∷ b'[' ∷ b']' ∷ 10 ∷ 0
    ∷ b'a' ∷ b's' ∷ b'd' ∷ b'f' ∷ b'g' ∷ b'h' ∷ b'j' ∷ b'k' ∷ b'l' ∷ b';' ∷ 39 ∷ b'`' ∷ 0 ∷ 92
    ∷ b'z' ∷ b'x' ∷ b'c' ∷ b'v' ∷ b'b' ∷ b'n' ∷ b'm' ∷ b',' ∷ b'.' ∷ b'/' ∷ 0 ∷ b'*' ∷ 0 ∷ b' ' ∷ 0
    ∷ []

abbrev pub scancode_shifted : List ℕ
scancode_shifted =
    0 ∷ 27 ∷ b'!' ∷ b'@' ∷ b'#' ∷ b'$' ∷ b'%' ∷ b'^' ∷ b'&' ∷ b'*' ∷ b'(' ∷ b')' ∷ b'_' ∷ b'+' ∷ 8
    ∷ 9 ∷ b'Q' ∷ b'W' ∷ b'E' ∷ b'R' ∷ b'T' ∷ b'Y' ∷ b'U' ∷ b'I' ∷ b'O' ∷ b'P' ∷ b'{' ∷ b'}' ∷ 10 ∷ 0
    ∷ b'A' ∷ b'S' ∷ b'D' ∷ b'F' ∷ b'G' ∷ b'H' ∷ b'J' ∷ b'K' ∷ b'L' ∷ b':' ∷ 34 ∷ b'~' ∷ 0 ∷ b'|'
    ∷ b'Z' ∷ b'X' ∷ b'C' ∷ b'V' ∷ b'B' ∷ b'N' ∷ b'M' ∷ b'<' ∷ b'>' ∷ b'?' ∷ 0 ∷ b'*' ∷ 0 ∷ b' ' ∷ 0
    ∷ []

-- The static variables.
pub record Keyboard : Type 0 where
  pub shift_pressed : Bool
  pub caps_lock : Bool
  pub ctrl_pressed : Bool
  pub extended : Bool
  pub key_buffer : List ℕ
  pub buffer_head : ℕ
  pub buffer_tail : ℕ

abbrev pub buffer_is_empty : Keyboard → Bool
buffer_is_empty k = k.buffer_head == k.buffer_tail

abbrev pub buffer_is_full : Keyboard → Bool
buffer_is_full k = (k.buffer_head + 1) % keyboard_buffer_size == k.buffer_tail

pub buffer_put : ℕ → Keyboard → Keyboard
buffer_put c k = if buffer_is_full k then k else record k {
  key_buffer = set k.key_buffer k.buffer_head c;
  buffer_head = (k.buffer_head + 1) % keyboard_buffer_size;
}

pub buffer_get : Keyboard → ℕ × Keyboard
buffer_get k = if buffer_is_empty k then (0, k) else (
  get_or k.key_buffer k.buffer_tail 0,
  record k { buffer_tail = (k.buffer_tail + 1) % keyboard_buffer_size },
)

abbrev pub is_lower : ℕ → Bool
is_lower c = leb b'a' c && leb c b'z'

abbrev pub is_upper : ℕ → Bool
is_upper c = leb b'A' c && leb c b'Z'

pub map_scancode_to_char : (shift caps : Bool) → (sc : ℕ) → ℕ
map_scancode_to_char shift caps sc =
    let c = (if shift then get_or scancode_shifted sc 0 else get_or scancode_to_ascii sc 0) in
    if is_lower c && xor shift caps then c - 32 else c

-- The part of `keyboard_callback` behind the mapping, for a character that is not 0: `Ctrl` with a
-- letter gives a control code.
pub with_ctrl : (ctrl : Bool) → ℕ → ℕ
with_ctrl ctrl c =
    if ctrl
    then (let l = (if is_upper c then c - b'A' + b'a' else c) in
        if is_lower l then l - b'a' + 1 else l)
    else c

-- The arrow keys, with `extended` reset before.
pub arrow : (sc : ℕ) → Keyboard → Keyboard
arrow sc k =
    if sc == 0x48
    then buffer_put key_up k
    else if sc == 0x50
    then buffer_put key_down k
    else if sc == 0x4B
    then buffer_put key_left k
    else if sc == 0x4D
    then buffer_put key_right k
    else k

pub keyboard_callback : (code : ℕ) → Keyboard → Keyboard
keyboard_callback code k =
    if code == 0xE0
    then record k { extended = true }
    else let release = bit_and code 0x80 != 0 in
      let sc = bit_and code 0x7F in
      if k.extended && sc == 0x1D
      then record k { ctrl_pressed = not release; extended = false }
      else if not k.extended && sc == 0x1D
      then record k { ctrl_pressed = not release }
      else if sc == 0x2A || sc == 0x36
      then record k { shift_pressed = not release; extended = false }
      else if sc == 0x3A && not release
      then record k { caps_lock = not k.caps_lock; extended = false }
      else if release
      then record k { extended = false }
      else if k.extended
      then arrow sc (record k { extended = false })
      else let c = map_scancode_to_char k.shift_pressed k.caps_lock sc in
        if c == 0 then k else buffer_put (with_ctrl k.ctrl_pressed c) k

-- `keyboard_getchar` waits while the buffer is empty: `none` is a processor that stays halted until
-- the next interrupt.
pub keyboard_getchar : Keyboard → Option (ℕ × Keyboard)
keyboard_getchar k = if buffer_is_empty k then none else some (buffer_get k)
