-- ===== src/Ls/Names.antt =====
-- user_programs/ls.c: the name of an entry as a string of the memory.
use os.Base.{
  ℕ, zero, suc, ◌+◌, ◌-◌, ◌<◌, ◌≡◌, refl, ◌∙◌, arith, List, [], ◌∷◌, ◌++◌, length, length-append,
  get_or,
}
use os.Strings.{Bytes}
use os.Strings.Texts.{IsString, NoZero, bytes-IsString}
use os.Fat.{FatFs, FilInfo}
use os.Elf.{store_bytes}
use os.Elf.Segment.{store_bytes_lem}
use os.Syscall.{store_entry}

get_or-append :
    (xs : List ℕ) (i y : ℕ) → i < length xs → get_or (xs ++ (y ∷ [])) i 0 ≡ get_or xs i 0
get_or-append [] i y lt = absurd (omega arith)
get_or-append (x ∷ xs) zero y lt = refl
get_or-append (x ∷ xs) (suc i) y lt = get_or-append xs i y (omega arith)

get_or-end : (xs : List ℕ) (y : ℕ) → get_or (xs ++ (y ∷ [])) (length xs) 0 ≡ y
get_or-end [] y = refl
get_or-end (x ∷ xs) y = get_or-end xs y

module _ (F : FatFs) where
  -- The string at the entry is the name.
  pub store_entry-IsString :
      (a : ℕ) (e : FilInfo) (m : Bytes)
      → NoZero e.fname
      → length e.fname < 256
      → IsString (store_entry F a e m) a e.fname
  store_entry-IsString a e m h fits =
      let text : List ℕ = e.fname ++ (0 ∷ []) in
      let len : length text ≡ length e.fname + 1 = length-append e.fname (0 ∷ []) in
      let byte : (i : ℕ) → i < length e.fname + 1 → store_entry F a e m (a + i) ≡ get_or text i 0 =
        λ i lt.
          let at : a + i - a ≡ i = omega arith in
          let stored : store_bytes a text m (a + i) ≡ get_or text i 0 =
            store_bytes_lem a text m (a + i) ∙ rw at (ground arith) in
          ground arith in
      bytes-IsString (store_entry F a e m) a e.fname h
        (λ i lt. byte i (omega arith) ∙ get_or-append e.fname i 0 lt)
        (byte (length e.fname) (omega arith) ∙ get_or-end e.fname 0)
