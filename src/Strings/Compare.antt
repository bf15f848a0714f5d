-- ===== src/Strings/Compare.antt =====
-- string.c: strcmp and strncmp against the order of lists of bytes.
use os.Base.{
  ℕ, zero, suc, ◌+◌, ◌<◌, ◌≡◌, ◌↔◌, refl, ap, ap₂, sym, ◌∙◌, some, List, [], ◌∷◌, arith, length,
  take, ◌==◌, if◌then◌else◌, eq-cases, eq→==, ne→==, ne→!=, inl, inr,
}
use os.Base.Int.{ℤ, pos, byte_diff}
use os.Strings.{Bytes, strcmp, strncmp}
use os.Strings.Texts.{IsString}

-- The difference of the first bytes that differ, where a string has a 0 behind its end.
pub compare_bytes : List ℕ → List ℕ → ℤ
compare_bytes [] [] = byte_diff 0 0
compare_bytes [] (y ∷ ys) = byte_diff 0 y
compare_bytes (x ∷ xs) [] = byte_diff x 0
compare_bytes (x ∷ xs) (y ∷ ys) =
    let rest = compare_bytes xs ys in if x == y then rest else byte_diff x y

-- On two strings `strcmp` gives the difference of the first bytes that differ.
pub strcmp_lem :
    (fuel s1 s2 : ℕ) (m : Bytes) (xs ys : List ℕ)
    → IsString m s1 xs
    → IsString m s2 ys
    → length xs < fuel
    → strcmp fuel s1 s2 m ≡ some (compare_bytes xs ys)
unfolding strcmp compare_bytes
strcmp_lem zero s1 s2 m xs ys h1 h2 lt = absurd (omega arith)
strcmp_lem (suc fuel) s1 s2 m [] [] h1 h2 lt = rw (h1, h2) refl
strcmp_lem (suc fuel) s1 s2 m [] (y ∷ ys) h1 (e2, ne2, rest2) lt = rw (h1, e2) refl
strcmp_lem (suc fuel) s1 s2 m (x ∷ xs) [] (e1, ne1, rest1) h2 lt =
    rw (e1, h2, ne→== _ _ ne1, ne→!= _ _ ne1) refl
strcmp_lem (suc fuel) s1 s2 m (x ∷ xs) (y ∷ ys) (e1, ne1, rest1) (e2, ne2, rest2) lt =
    let rest = strcmp_lem fuel (s1 + 1) (s2 + 1) m xs ys rest1 rest2 (omega arith) in
    elim (eq-cases x y) [
      | inl same ↦ rw (e1, e2, ne→!= _ _ ne1, eq→== _ _ same) rest
      | inr other ↦ rw (e1, e2, ne→!= _ _ ne1, ne→== _ _ other) refl
    ]

-- On two strings `strncmp` compares the first `n` bytes of each.
pub strncmp_lem :
    (n s1 s2 : ℕ) (m : Bytes) (xs ys : List ℕ)
    → IsString m s1 xs
    → IsString m s2 ys
    → strncmp n s1 s2 m ≡ compare_bytes (take n xs) (take n ys)
unfolding strncmp compare_bytes byte_diff
strncmp_lem zero s1 s2 m xs ys h1 h2 = refl
strncmp_lem (suc n) s1 s2 m [] [] h1 h2 = rw (h1, h2) refl
strncmp_lem (suc n) s1 s2 m [] (y ∷ ys) h1 (e2, ne2, rest2) = rw (h1, e2) refl
strncmp_lem (suc n) s1 s2 m (x ∷ xs) [] (e1, ne1, rest1) h2 =
    rw (e1, h2, ne→== _ _ ne1, ne→!= _ _ ne1) refl
strncmp_lem (suc n) s1 s2 m (x ∷ xs) (y ∷ ys) (e1, ne1, rest1) (e2, ne2, rest2) =
    let rest = strncmp_lem n (s1 + 1) (s2 + 1) m xs ys rest1 rest2 in
    elim (eq-cases x y) [
      | inl same ↦ rw (e1, e2, ne→!= _ _ ne1, eq→== _ _ same) rest
      | inr other ↦ rw (e1, e2, ne→!= _ _ ne1, ne→== _ _ other) refl
    ]

byte_diff-zero : (a b : ℕ) → byte_diff a b ≡ pos 0 → a ≡ b
unfolding byte_diff
byte_diff-zero a b h = ground arith

compare_bytes-zero :
    (m : Bytes) (s1 s2 : ℕ) (xs ys : List ℕ)
    → IsString m s1 xs
    → IsString m s2 ys
    → compare_bytes xs ys ≡ pos 0
    → xs ≡ ys
unfolding compare_bytes
compare_bytes-zero m s1 s2 [] [] h1 h2 z = refl
compare_bytes-zero m s1 s2 [] (y ∷ ys) h1 (e, ne, rest) z = absurd (ne (sym (byte_diff-zero 0 y z)))
compare_bytes-zero m s1 s2 (x ∷ xs) [] (e, ne, rest) h2 z = absurd (ne (byte_diff-zero x 0 z))
compare_bytes-zero m s1 s2 (x ∷ xs) (y ∷ ys) (e1, ne1, rest1) (e2, ne2, rest2) z =
    elim (eq-cases x y) [
      | inl same ↦
          let z' : compare_bytes xs ys ≡ pos 0 = ground arith in
          ap₂ ◌∷◌ same (compare_bytes-zero m (s1 + 1) (s2 + 1) xs ys rest1 rest2 z')
      | inr other ↦
          let z' : byte_diff x y ≡ pos 0 = ground arith in absurd (other (byte_diff-zero x y z'))
    ]

compare_bytes_self : (xs : List ℕ) → compare_bytes xs xs ≡ pos 0
unfolding compare_bytes byte_diff
compare_bytes_self [] = refl
compare_bytes_self (x ∷ xs) = ground (arith, compare_bytes_self xs)

-- `strcmp` of two strings is 0 exactly when they are the same bytes.
pub strcmp-zero_iff :
    (fuel s1 s2 : ℕ) (m : Bytes) (xs ys : List ℕ)
    → IsString m s1 xs
    → IsString m s2 ys
    → length xs < fuel
    → (strcmp fuel s1 s2 m ≡ some (pos 0)) ↔ (xs ≡ ys)
strcmp-zero_iff fuel s1 s2 m xs ys h1 h2 lt =
    let run = strcmp_lem fuel s1 s2 m xs ys h1 h2 lt in
    (
      λ z. compare_bytes-zero m s1 s2 xs ys h1 h2 (cc),
      λ same. run ∙ rw same (ap some (compare_bytes_self ys)),
    )
