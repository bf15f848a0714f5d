-- ===== src/Strings.antt =====
-- string.c: the memory is a byte (below 256) at each address. A loop that stops at the end of a
-- string has fuel, and gives `none` when that runs out; one that counts down needs none.
pub mod Blocks
pub mod Texts
pub mod Compare
mod Tests
use os.Base.{
  ℕ, zero, suc, ◌+◌, ◌-◌, ◌%◌, ◌/◌, Bool, true, false, ◌&&◌, Option, none, some, ◌==◌, ◌!=◌,
  if◌then◌else◌,
}
use os.Base.Int.{ℤ, pos, byte_diff}

abbrev pub Bytes : Type 0
Bytes = ℕ → ℕ

abbrev pub store_byte : Bytes → ℕ → ℕ → Bytes
store_byte m a v p = if p == a then v else m p

-- The loops from an index on have the two pointers advanced instead. The result is the memory; the
-- pointer that the source returns is `dest` itself.
pub memcpy : (dest src n : ℕ) → Bytes → Bytes
memcpy dest src zero m = m
memcpy dest src (suc n) m = memcpy (dest + 1) (src + 1) n (store_byte m dest (m src))

pub memset : (s c n : ℕ) → Bytes → Bytes
memset s c zero m = m
memset s c (suc n) m = memset (s + 1) c n (store_byte m s (c % 256))

pub memcmp : (s1 s2 n : ℕ) → Bytes → ℤ
memcmp s1 s2 zero m = pos 0
memcmp s1 s2 (suc n) m =
    let rest = memcmp (s1 + 1) (s2 + 1) n m in
    if m s1 != m s2 then byte_diff (m s1) (m s2) else rest

pub strcmp : (fuel s1 s2 : ℕ) → Bytes → Option ℤ
strcmp zero s1 s2 m = none
strcmp (suc fuel) s1 s2 m =
    let rest = strcmp fuel (s1 + 1) (s2 + 1) m in
    if m s1 != 0 && (m s1 == m s2) then rest else some (byte_diff (m s1) (m s2))

pub strcpy : (fuel dest src : ℕ) → Bytes → Option Bytes
strcpy zero dest src m = none
strcpy (suc fuel) dest src m =
    let m' = store_byte m dest (m src) in
    let rest = strcpy fuel (dest + 1) (src + 1) m' in if m src != 0 then rest else some m'

-- The loop of `strlen`, with the length so far.
pub strlen_loop : (fuel s len : ℕ) → Bytes → Option ℕ
strlen_loop zero s len m = none
strlen_loop (suc fuel) s len m =
    let rest = strlen_loop fuel (s + 1) (len + 1) m in if m s != 0 then rest else some len

pub strlen : (fuel s : ℕ) → Bytes → Option ℕ
strlen fuel s m = strlen_loop fuel s 0 m

-- `dest` is an array of 16-bit words, little-endian.
pub memsetw : (dest val count : ℕ) → Bytes → Bytes
memsetw dest val zero m = m
memsetw dest val (suc count) m =
    memsetw (dest + 2) val count (store_byte (store_byte m dest (val % 256)) (dest + 1) (val / 256))

-- The result 0 is `NULL`.
pub strchr : (fuel s c : ℕ) → Bytes → Option ℕ
strchr zero s c m = none
strchr (suc fuel) s c m =
    let rest = strchr fuel (s + 1) c m in
    if m s != 0 then (if m s == c % 256 then some s else rest) else some 0

-- The count `n` is the fuel, since each round takes 1 from it.
pub strncmp : (n s1 s2 : ℕ) → Bytes → ℤ
strncmp zero s1 s2 m = pos 0
strncmp (suc n) s1 s2 m =
    let rest = strncmp n (s1 + 1) (s2 + 1) m in
    if m s1 != 0 && (m s1 == m s2) then rest else byte_diff (m s1) (m s2)
