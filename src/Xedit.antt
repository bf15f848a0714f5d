-- ===== src/Xedit.antt =====
-- user_programs/xedit.c: the text of the editor and its cursor. The buffer is a memory of bytes, with
-- the first byte at address 0.
pub mod Editing
pub mod Keys
pub mod Files
pub mod Saved
pub mod Lines
pub mod Search
pub mod Moves
pub mod Draw
pub mod Loop
pub mod Cursor
pub mod Still
pub mod Rows
pub mod Partial
pub mod Typing
pub mod Sessions
mod Tests
use os.Base.{
  ℕ, zero, suc, ◌+◌, ◌-◌, ◌*◌, Bool, true, false, ◌&&◌, ◌||◌, Option, none, some, leb, ltb, ◌==◌,
  if◌then◌else◌,
}
use mathlib.Core.Option.{map}
use os.Strings.{Bytes, store_byte, memcpy}

abbrev pub max_buffer : ℕ
max_buffer = 131072

abbrev pub screen_height : ℕ
screen_height = 28

pub record Editor : Type 0 where
  pub buffer : Bytes
  pub buffer_len : ℕ
  pub modified : Bool
  pub cursor_pos : ℕ
  pub scroll_line : ℕ

-- The second loop of `memmove_internal`, from the end down.
pub copy_down : (n dst src : ℕ) → Bytes → Bytes
copy_down zero dst src m = m
copy_down (suc n) dst src m = copy_down n dst src (store_byte m (dst + n) (m (src + n)))

-- The first loop is the one of `memcpy`.
pub memmove_internal : (dst src n : ℕ) → Bytes → Bytes
memmove_internal dst src n m =
    if ltb dst src then memcpy dst src n m else if ltb src dst then copy_down n dst src m else m

-- The loop of `compute_cursor_line_col`: the line and the column after `rounds` more bytes.
pub line_col_loop : (rounds i line col : ℕ) → Bytes → ℕ × ℕ
line_col_loop zero i line col m = (line, col)
line_col_loop (suc rounds) i line col m =
    let newline = m i == 10 in
    line_col_loop rounds (i + 1) (if newline then line + 1 else line)
      (if newline then 0 else col + 1) m

pub compute_cursor_line_col : (pos : ℕ) → Editor → ℕ × ℕ
compute_cursor_line_col pos e =
    line_col_loop (if leb pos e.buffer_len then pos else e.buffer_len) 0 0 0 e.buffer

-- The loop of `find_line_start` from `i` on, with `rounds` bytes left.
pub line_start_loop : (rounds i line target : ℕ) → Bytes → ℕ
line_start_loop zero i line target m = i
line_start_loop (suc rounds) i line target m =
    let newline = m i == 10 in
    let line' = if newline then line + 1 else line in
    let rest = line_start_loop rounds (i + 1) line' target m in
    if newline && line' == target then i + 1 else rest

pub find_line_start : (target_line : ℕ) → Editor → ℕ
find_line_start target_line e =
    if target_line == 0 then 0 else line_start_loop e.buffer_len 0 0 target_line e.buffer

pub line_end_loop : (rounds i : ℕ) → Bytes → ℕ
line_end_loop zero i m = i
line_end_loop (suc rounds) i m =
    let rest = line_end_loop rounds (i + 1) m in if m i == 10 then i else rest

pub find_line_end_from_start : (start_idx : ℕ) → Editor → ℕ
find_line_end_from_start start_idx e = line_end_loop (e.buffer_len - start_idx) start_idx e.buffer

pub insert_at_cursor : (c : ℕ) → Editor → Editor
insert_at_cursor c e = if leb max_buffer (e.buffer_len + 1) then e else record e {
  buffer =
      store_byte
        (memmove_internal (e.cursor_pos + 1) e.cursor_pos (e.buffer_len - e.cursor_pos) e.buffer)
        e.cursor_pos c;
  cursor_pos = e.cursor_pos + 1;
  buffer_len = e.buffer_len + 1;
  modified = true;
}

pub backspace_at_cursor : Editor → Editor
backspace_at_cursor e = if e.cursor_pos == 0 then e else record e {
  buffer = memmove_internal (e.cursor_pos - 1) e.cursor_pos (e.buffer_len - e.cursor_pos) e.buffer;
  cursor_pos = e.cursor_pos - 1;
  buffer_len = e.buffer_len - 1;
  modified = true;
}

pub delete_at_cursor : Editor → Editor
delete_at_cursor e = if leb e.buffer_len e.cursor_pos then e else record e {
  buffer =
      memmove_internal e.cursor_pos (e.cursor_pos + 1) (e.buffer_len - e.cursor_pos - 1) e.buffer;
  buffer_len = e.buffer_len - 1;
  modified = true;
}

pub move_cursor_left : Editor → Editor
move_cursor_left e = if ltb 0 e.cursor_pos then record e { cursor_pos = e.cursor_pos - 1 } else e

pub move_cursor_right : Editor → Editor
move_cursor_right e =
    if ltb e.cursor_pos e.buffer_len then record e { cursor_pos = e.cursor_pos + 1 } else e

pub move_cursor_up : Editor → Editor
move_cursor_up e =
    let at = compute_cursor_line_col e.cursor_pos e in
    if at.0 == 0
    then record e { cursor_pos = 0 }
    else (let prev_start = find_line_start (at.0 - 1) e in
        let len = find_line_end_from_start prev_start e - prev_start in
        record e { cursor_pos = prev_start + (if leb (at.1) len then at.1 else len) })

pub move_cursor_down : Editor → Editor
move_cursor_down e =
    let at = compute_cursor_line_col e.cursor_pos e in
    let next_start = find_line_start (at.0 + 1) e in
    if leb e.buffer_len next_start
    then record e { cursor_pos = e.buffer_len }
    else (let len = find_line_end_from_start next_start e - next_start in
        record e { cursor_pos = next_start + (if leb (at.1) len then at.1 else len) })

pub ensure_cursor_visible : Editor → Editor
ensure_cursor_visible e =
    let line = (compute_cursor_line_col e.cursor_pos e).0 in
    let max_lines = screen_height - 1 in
    if ltb line e.scroll_line
    then record e { scroll_line = line }
    else if leb (e.scroll_line + max_lines) line
    then record e { scroll_line = line - (max_lines - 1) }
    else e

-- The `switch` of `editor_loop`. `none` is `continue`.
pub switch_key : (c : ℕ) → Editor → Option Editor
switch_key c e =
    if c == 0x83
    then some (move_cursor_left e)
    else if c == 0x84
    then some (move_cursor_right e)
    else if c == 0x81
    then some (move_cursor_up e)
    else if c == 0x82
    then some (move_cursor_down e)
    else if c == 8 || c == 127
    then some (backspace_at_cursor e)
    else if c == 10
    then some (insert_at_cursor 10 e)
    else if leb 0x20 c
    then some (insert_at_cursor c e)
    else none

-- The `switch` with `ensure_cursor_visible` behind it, without the drawing.
pub edit_key : (c : ℕ) → Editor → Option Editor
edit_key c e = map ensure_cursor_visible (switch_key c e)
