-- ===== src/Ustring.antt =====
-- user_programs/string.h: the routines that string.c does not have. The result 0 is `NULL`.
use os.Base.{ℕ, zero, suc, ◌+◌, ◌-◌, Option, none, some, ltb, ◌==◌, if◌then◌else◌}
use os.Base.Maybe.{◌>>=◌}
use os.Strings.{Bytes, store_byte, strlen, strcpy, strchr}

-- The first loop of `strcat` is the one of `strlen`, the second the one of `strcpy`.
abbrev pub strcat : (fuel dest src : ℕ) → Bytes → Option Bytes
strcat fuel dest src m = do len ← strlen fuel dest m; strcpy fuel (dest + len) src m

-- The bytes that the loop of `strncpy` copies, with the index where it stops.
pub strncpy_loop : (n i dest src : ℕ) → Bytes → ℕ × Bytes
strncpy_loop zero i dest src m = (i, m)
strncpy_loop (suc n) i dest src m =
    let rest = strncpy_loop n (i + 1) dest src (store_byte m (dest + i) (m (src + i))) in
    if m (src + i) == 0 then (i, m) else rest

abbrev pub strncpy : (dest src n : ℕ) → Bytes → Bytes
strncpy dest src n m =
    let copied = strncpy_loop n 0 dest src m in
    if ltb (copied.0) n
    then store_byte (copied.1) (dest + copied.0) 0
    else store_byte (copied.1) (dest + n - 1) 0

-- The first loop of `strtok`: past the delimiters, with `size` rounds for the search in `delim`.
pub skip_delim : (fuel size next delim : ℕ) → Bytes → Option ℕ
skip_delim zero size next delim m = none
skip_delim (suc fuel) size next delim m =
    let rest = skip_delim fuel size (next + 1) delim m in
    if m next == 0
    then some next
    else (do found ← strchr size delim (m next) m; if found == 0 then some next else rest)

-- The second loop: to the end of the token.
pub token_end : (fuel size next delim : ℕ) → Bytes → Option ℕ
token_end zero size next delim m = none
token_end (suc fuel) size next delim m =
    let rest = token_end fuel size (next + 1) delim m in
    if m next == 0
    then some next
    else (do found ← strchr size delim (m next) m; if found == 0 then rest else some next)

-- The token, the static `next`, and the memory.
abbrev pub strtok : (fuel size str delim next : ℕ) → Bytes → Option (ℕ × ℕ × Bytes)
strtok fuel size str delim next m =
    let from = if str == 0 then next else str in
    if from == 0 then some (0, 0, m) else (do
      start ← skip_delim fuel size from delim m
      if m start == 0 then some (0, start, m) else (do
        end ← token_end fuel size start delim m
        some (if m end == 0 then (start, 0, m) else (start, end + 1, store_byte m end 0))))
