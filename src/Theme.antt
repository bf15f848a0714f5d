-- ===== src/Theme.antt =====
-- ui/theme.c: the colors of a theme, read from the lines of a file over FatFs. What `load_theme` prints is
-- in `console_changetheme`.
pub mod Lines
pub mod Files
pub mod Hex
mod Tests
use os.Base.{
  ℕ, zero, suc, ◌+◌, ◌-◌, ◌*◌, ◌%◌, Bool, true, false, ◌&&◌, ◌||◌, Option, none, some, List, [],
  ◌∷◌, ◌++◌, leb, ltb, ◌==◌, ◌!=◌, if◌then◌else◌, length, drop,
}
use os.Base.Word.{u32}
use os.Base.Maybe.{◌>>=◌}
use os.Fat.{FatFs}

-- `theme_t`
pub record Theme : Type 0 where
  pub black : ℕ
  pub red : ℕ
  pub green : ℕ
  pub yellow : ℕ
  pub blue : ℕ
  pub magenta : ℕ
  pub cyan : ℕ
  pub white : ℕ
  pub gray : ℕ
  pub light_black : ℕ
  pub light_red : ℕ
  pub light_green : ℕ
  pub light_yellow : ℕ
  pub light_blue : ℕ
  pub light_magenta : ℕ
  pub light_cyan : ℕ
  pub light_white : ℕ
  pub light_gray : ℕ

-- The colors that `load_theme` starts from.
unfoldable pub default_theme : Theme
default_theme = record {
  black = 0x181825;
  red = 0xF38BA8;
  green = 0xA6E3A1;
  yellow = 0xF9E2AF;
  blue = 0x89B4FA;
  magenta = 0xD2A6FF;
  cyan = 0x89DCEB;
  white = 0xCDD6F4;
  gray = 0x808080;
  light_black = 0x6E6A76;
  light_red = 0xF5A8B1;
  light_green = 0xA6F3A1;
  light_yellow = 0xF9F1A1;
  light_blue = 0x8BB9F7;
  light_magenta = 0xD2A9FF;
  light_cyan = 0x8AC9F2;
  light_white = 0xFFFFFF;
  light_gray = 0xC0C0C0;
}

-- What a string function sees of an array of bytes: the part before the first 0.
pub until_zero : List ℕ → List ℕ
until_zero [] = []
until_zero (c ∷ cs) = let rest = until_zero cs in if c == 0 then [] else c ∷ rest

-- `strncmp` with a literal and its length gives 0.
unfoldable pub starts_with : (literal text : List ℕ) → Bool
starts_with [] text = true
starts_with (c ∷ literal) [] = false
starts_with (c ∷ literal) (d ∷ text) = (c == d) && starts_with literal text

-- What a character adds to the color in `hex_to_uint32`.
pub digit_value : ℕ → ℕ
digit_value c =
    if leb b'0' c && leb c b'9'
    then c - b'0'
    else if leb b'a' c && leb c b'f'
    then c - b'a' + 10
    else if leb b'A' c && leb c b'F'
    then c - b'A' + 10
    else 0

pub hex_loop : (color : ℕ) → List ℕ → ℕ
hex_loop color [] = color
hex_loop color (c ∷ hex) = hex_loop (u32 (u32 (color * 16) + digit_value c)) hex

pub hex_to_uint32 : List ℕ → ℕ
hex_to_uint32 [] = 0
hex_to_uint32 (c ∷ hex) = if (c == b'#') && (length hex == 6) then hex_loop 0 hex else 0

-- The chain of tests on a line, without its 0.
pub parse_line : (text : List ℕ) → Theme → Theme
parse_line text theme =
    if starts_with (b'b' ∷ b'l' ∷ b'a' ∷ b'c' ∷ b'k' ∷ b'=' ∷ []) text
    then record theme { black = hex_to_uint32 (drop 6 text) }
    else if starts_with (b'r' ∷ b'e' ∷ b'd' ∷ b'=' ∷ []) text
    then record theme { red = hex_to_uint32 (drop 4 text) }
    else if starts_with (b'g' ∷ b'r' ∷ b'e' ∷ b'e' ∷ b'n' ∷ b'=' ∷ []) text
    then record theme { green = hex_to_uint32 (drop 6 text) }
    else if starts_with (b'y' ∷ b'e' ∷ b'l' ∷ b'l' ∷ b'o' ∷ b'w' ∷ b'=' ∷ []) text
    then record theme { yellow = hex_to_uint32 (drop 7 text) }
    else if starts_with (b'b' ∷ b'l' ∷ b'u' ∷ b'e' ∷ b'=' ∷ []) text
    then record theme { blue = hex_to_uint32 (drop 5 text) }
    else if starts_with (b'm' ∷ b'a' ∷ b'g' ∷ b'e' ∷ b'n' ∷ b't' ∷ b'a' ∷ b'=' ∷ []) text
    then record theme { magenta = hex_to_uint32 (drop 8 text) }
    else if starts_with (b'c' ∷ b'y' ∷ b'a' ∷ b'n' ∷ b'=' ∷ []) text
    then record theme { cyan = hex_to_uint32 (drop 5 text) }
    else if starts_with (b'w' ∷ b'h' ∷ b'i' ∷ b't' ∷ b'e' ∷ b'=' ∷ []) text
    then record theme { white = hex_to_uint32 (drop 6 text) }
    else if starts_with (b'g' ∷ b'r' ∷ b'a' ∷ b'y' ∷ b'=' ∷ []) text
    then record theme { gray = hex_to_uint32 (drop 5 text) }
    else if starts_with
        (b'l' ∷ b'i' ∷ b'g' ∷ b'h' ∷ b't' ∷ b'_' ∷ b'b' ∷ b'l' ∷ b'a' ∷ b'c' ∷ b'k' ∷ b'=' ∷ [])
        text
    then record theme { light_black = hex_to_uint32 (drop 12 text) }
    else if starts_with (b'l' ∷ b'i' ∷ b'g' ∷ b'h' ∷ b't' ∷ b'_' ∷ b'r' ∷ b'e' ∷ b'd' ∷ b'=' ∷ [])
        text
    then record theme { light_red = hex_to_uint32 (drop 10 text) }
    else if starts_with
        (b'l' ∷ b'i' ∷ b'g' ∷ b'h' ∷ b't' ∷ b'_' ∷ b'g' ∷ b'r' ∷ b'e' ∷ b'e' ∷ b'n' ∷ b'=' ∷ [])
        text
    then record theme { light_green = hex_to_uint32 (drop 12 text) }
    else if starts_with
        (b'l' ∷ b'i' ∷ b'g' ∷ b'h' ∷ b't' ∷ b'_' ∷ b'y' ∷ b'e' ∷ b'l' ∷ b'l' ∷ b'o' ∷ b'w' ∷ b'='
          ∷ [])
        text
    then record theme { light_yellow = hex_to_uint32 (drop 13 text) }
    else if starts_with
        (b'l' ∷ b'i' ∷ b'g' ∷ b'h' ∷ b't' ∷ b'_' ∷ b'b' ∷ b'l' ∷ b'u' ∷ b'e' ∷ b'=' ∷ []) text
    then record theme { light_blue = hex_to_uint32 (drop 11 text) }
    else if starts_with
        (b'l' ∷ b'i' ∷ b'g' ∷ b'h' ∷ b't' ∷ b'_' ∷ b'm' ∷ b'a' ∷ b'g' ∷ b'e' ∷ b'n' ∷ b't' ∷ b'a'
          ∷ b'=' ∷ [])
        text
    then record theme { light_magenta = hex_to_uint32 (drop 14 text) }
    else if starts_with
        (b'l' ∷ b'i' ∷ b'g' ∷ b'h' ∷ b't' ∷ b'_' ∷ b'c' ∷ b'y' ∷ b'a' ∷ b'n' ∷ b'=' ∷ []) text
    then record theme { light_cyan = hex_to_uint32 (drop 11 text) }
    else if starts_with
        (b'l' ∷ b'i' ∷ b'g' ∷ b'h' ∷ b't' ∷ b'_' ∷ b'w' ∷ b'h' ∷ b'i' ∷ b't' ∷ b'e' ∷ b'=' ∷ [])
        text
    then record theme { light_white = hex_to_uint32 (drop 12 text) }
    else if starts_with
        (b'l' ∷ b'i' ∷ b'g' ∷ b'h' ∷ b't' ∷ b'_' ∷ b'g' ∷ b'r' ∷ b'a' ∷ b'y' ∷ b'=' ∷ []) text
    then record theme { light_gray = hex_to_uint32 (drop 11 text) }
    else theme

-- The theme, and `line` up to `line_index`.
pub record Reader : Type 0 where
  pub theme : Theme
  pub line : List ℕ

-- The body of the loop over the bytes of a block. `line` takes 255 bytes, the rest of a line is
-- dropped.
pub read_byte : ℕ → Reader → Reader
read_byte c r =
    if (c == 10) || (c == 13)
    then (if ltb 0 (length r.line)
        then record { theme = parse_line (until_zero r.line) r.theme; line = [] }
        else r)
    else if ltb (length r.line) 255
    then record r { line = r.line ++ (c ∷ []) }
    else r

pub read_block : List ℕ → Reader → Reader
read_block [] r = r
read_block (c ∷ cs) r = read_block cs (read_byte c r)

module _ (F : FatFs) where
  -- The loop over the blocks of at most 256 bytes. It ends at one without bytes, and the file is closed.
  unfoldable pub read_blocks : (fuel : ℕ) → F.File → Reader → F.State → Option (Theme × F.State)
  read_blocks zero file r fs = none
  read_blocks (suc fuel) file r fs =
      let read = F.f_read file 256 fs in
      let rest = read_blocks fuel file (read_block read.1 r) read.2 in
      if read.0 && ltb 0 (length read.1) then rest else some (r.theme, F.f_close file read.2)

  -- What follows `f_open`: `true` for the result 0 and `false` for -1, with the theme.
  unfoldable pub read_opened :
      (fuel : ℕ) → Option F.File → F.State → Option (Bool × Theme × F.State)
  read_opened fuel none fs = some (false, default_theme, fs)
  read_opened fuel (some file) fs =
      read_blocks fuel file (record { theme = default_theme; line = [] }) fs >>= λ r.
      some (true, r.0, r.1)

  unfoldable pub load_theme :
      (fuel : ℕ) → (path : List ℕ) → F.State → Option (Bool × Theme × F.State)
  load_theme fuel path fs = let o = F.f_open path 1 fs in read_opened fuel o.0 o.1
