-- ===== src/Strings/Tests.antt =====
-- Examples of the string routines: a memory with "abc" at 10 and "abd" at 20.
use os.Base.{ℕ, ◌≡◌, ◌↔◌, refl, arith, some, List, [], ◌∷◌, ◌==◌, if◌then◌else◌}
use os.Base.Int.{pos}
use os.Strings.{Bytes, strcmp}
use os.Strings.Texts.{IsString}
use os.Strings.Compare.{strcmp-zero_iff}

abbrev text : Bytes
text p =
    if p == 10
    then 97
    else if p == 11
    then 98
    else if p == 12
    then 99
    else if p == 20
    then 97
    else if p == 21
    then 98
    else if p == 22
    then 100
    else 0

abbrev abc : List ℕ
abc = 97 ∷ 98 ∷ 99 ∷ []

abbrev abd : List ℕ
abd = 97 ∷ 98 ∷ 100 ∷ []

abc-IsString : IsString text 10 abc
abc-IsString = (refl, omega arith, (refl, omega arith, (refl, omega arith, refl)))

abd-IsString : IsString text 20 abd
abd-IsString = (refl, omega arith, (refl, omega arith, (refl, omega arith, refl)))

strcmp-zero_iff_example : (strcmp 4 10 20 text ≡ some (pos 0)) ↔ (abc ≡ abd)
strcmp-zero_iff_example =
    strcmp-zero_iff 4 10 20 text abc abd abc-IsString abd-IsString (omega arith)
