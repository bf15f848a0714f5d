-- ===== src/Strings/Texts.antt =====
-- string.c: strlen, strcpy and strchr on strings that end with a zero byte.
use os.Base.{
  get_or, ℕ, zero, suc, ◌+◌, ◌%◌, ◌<◌, ◌≡◌, ◌≢◌, refl, ap, ◌∙◌, some, List, [], ◌∷◌, arith, length,
  ◌==◌, if◌then◌else◌, eq-cases, eq→==, ne→==, ne→!=, inl, inr, ◌⊎◌,
}
use os.Strings.{Bytes, store_byte, strlen, strlen_loop, strcpy, strchr}

-- The bytes `xs`, none of them 0, stand at `s`, and a 0 behind them.
abbrev pub IsString : Bytes → ℕ → List ℕ → Type 0
IsString m s [] = m s ≡ 0
IsString m s (x ∷ xs) = (m s ≡ x) × (x ≢ 0) × IsString m (s + 1) xs

abbrev pub NoZero : List ℕ → Type 0
NoZero [] = Unit
NoZero (x ∷ xs) = (x ≢ 0) × NoZero xs

-- A string from its bytes, one by one.
pub bytes-IsString :
    (m : Bytes) (a : ℕ) (xs : List ℕ)
    → NoZero xs
    → ((i : ℕ) → i < length xs → m (a + i) ≡ get_or xs i 0)
    → m (a + length xs) ≡ 0
    → IsString m a xs
bytes-IsString m a [] h bytes end = ap m (omega arith) ∙ end
bytes-IsString m a (x ∷ xs) (ne, h) bytes end = (
  ap m (omega arith) ∙ bytes 0 (omega arith),
  ne,
  bytes-IsString m (a + 1) xs h (λ i lt. ap m (omega arith) ∙ bytes (suc i) (omega arith))
      (ap m (omega arith) ∙ end),
)

strlen_loop_lem :
    (fuel s len : ℕ) (m : Bytes) (xs : List ℕ)
    → IsString m s xs
    → length xs < fuel
    → strlen_loop fuel s len m ≡ some (len + length xs)
unfolding strlen_loop
strlen_loop_lem zero s len m xs h lt = absurd (omega arith)
strlen_loop_lem (suc fuel) s len m [] h lt = rw h (ap some (omega arith))
strlen_loop_lem (suc fuel) s len m (x ∷ xs) (e, ne, rest) lt =
    rw (e, ne→!= _ _ ne)
      (strlen_loop_lem fuel (s + 1) (len + 1) m xs rest (omega arith) ∙ ap some (omega arith))

-- On a string `strlen` gives the number of bytes before the 0, with one round for each byte.
pub strlen_lem :
    (fuel s : ℕ) (m : Bytes) (xs : List ℕ)
    → IsString m s xs
    → length xs < fuel
    → strlen fuel s m ≡ some (length xs)
unfolding strlen
strlen_lem fuel s m xs h lt = strlen_loop_lem fuel s 0 m xs h lt ∙ ap some (omega arith)

-- Where the byte `c` stands first in a string that starts at `s`, or `NULL`.
pub find_byte : (s c : ℕ) → List ℕ → ℕ
find_byte s c [] = 0
find_byte s c (x ∷ xs) = if x == c then s else find_byte (s + 1) c xs

-- On a string `strchr` gives the address of the first byte that is `c` as a `char`, or `NULL`.
pub strchr_lem :
    (fuel s c : ℕ) (m : Bytes) (xs : List ℕ)
    → IsString m s xs
    → length xs < fuel
    → strchr fuel s c m ≡ some (find_byte s (c % 256) xs)
unfolding strchr find_byte
strchr_lem zero s c m xs h lt = absurd (omega arith)
strchr_lem (suc fuel) s c m [] h lt = rw h refl
strchr_lem (suc fuel) s c m (x ∷ xs) (e, ne, rest) lt = elim (eq-cases x (c % 256)) [
  | inl same ↦ rw (e, ne→!= _ _ ne, eq→== _ _ same) refl
  | inr other ↦
      rw (e, ne→!= _ _ ne, ne→== _ _ other) (strchr_lem fuel (s + 1) c m xs rest (omega arith))
]

-- A byte written outside a string leaves it a string.
IsString-store :
    (m : Bytes) (s a v : ℕ) (xs : List ℕ)
    → (a < s) ⊎ (s + length xs < a)
    → IsString m s xs
    → IsString (store_byte m a v) s xs
IsString-store m s a v [] out h = ground arith
IsString-store m s a v (x ∷ xs) out (e, ne, rest) =
    (ground arith, ne, IsString-store m (s + 1) a v xs (omega arith) rest)

-- `m'` has the string at `dest`, and is `m` elsewhere.
pub record Copied (m : Bytes) (dest : ℕ) (xs : List ℕ) (m' : Bytes) : Type 0 where
  pub copy : IsString m' dest xs
  pub others : (p : ℕ) → (p < dest) ⊎ (dest + length xs < p) → m' p ≡ m p

-- `strcpy` of a string to a place that does not overlap it makes the copy, its 0 included, and
-- writes nothing else.
pub strcpy_lem :
    (fuel dest src : ℕ) (m : Bytes) (xs : List ℕ)
    → IsString m src xs
    → (dest + length xs < src) ⊎ (src + length xs < dest)
    → length xs < fuel
    → (m' : Bytes) × (strcpy fuel dest src m ≡ some m') × Copied m dest xs m'
unfolding strcpy
strcpy_lem zero dest src m xs h apart lt = absurd (omega arith)
strcpy_lem (suc fuel) dest src m [] h apart lt = (
  store_byte m dest (m src),
  rw h refl,
  record { copy = ground arith; others = λ p out. ground arith },
)
strcpy_lem (suc fuel) dest src m (x ∷ xs) (e, ne, rest) apart lt =
    let m1 = store_byte m dest (m src) in
    let (m', run, copied) =
      strcpy_lem fuel (dest + 1) (src + 1) m1 xs
        (IsString-store m (src + 1) dest (m src) xs (omega arith) rest) (omega arith)
        (omega arith) in
    (
      m',
      ground arith,
      record {
        copy = (ground (arith, copied.others dest (inl (omega arith))), ne, copied.copy);
        others = λ p out. copied.others p (omega arith) ∙ ground arith;
      },
    )
