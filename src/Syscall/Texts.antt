-- ===== src/Syscall/Texts.antt =====
-- syscall.c: the strings that the system calls take.
use os.Base.{ℕ, zero, suc, ◌+◌, ◌<◌, ◌≡◌, refl, arith, some, List, [], ◌∷◌, length, ne→==}
use os.Strings.{Bytes}
use os.Strings.Texts.{IsString}
use os.Syscall.{string_at}

pub string_at-IsString :
    (fuel a : ℕ) (m : Bytes) (xs : List ℕ)
    → IsString m a xs
    → length xs < fuel
    → string_at fuel a m ≡ some xs
unfolding string_at
string_at-IsString zero a m xs h lt = absurd (omega arith)
string_at-IsString (suc fuel) a m [] h lt = rw h refl
string_at-IsString (suc fuel) a m (x ∷ xs) (e, ne, rest) lt =
    rw (e, ne→== x 0 ne, string_at-IsString fuel (a + 1) m xs rest (omega arith)) refl
