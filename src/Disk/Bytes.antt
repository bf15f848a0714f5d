-- ===== src/Disk/Bytes.antt =====
-- fatfs/ata.c: bytes as words and back, and a buffer as sectors of 512 bytes.
use os.Base.{
  ℕ, zero, suc, ◌+◌, ◌-◌, ◌*◌, ◌/◌, ◌%◌, ◌<◌, ◌≤◌, ◌≡◌, refl, ap, sym, ◌∙◌, arith, List, [], ◌∷◌,
  length, take, drop,
}
use os.Disk.{words_of, bytes_of}

abbrev pub AreBytes : List ℕ → Type 0
AreBytes [] = Unit
AreBytes (b ∷ bs) = (b < 256) × AreBytes bs

-- Sector `i` of a buffer.
abbrev pub block : ℕ → List ℕ → List ℕ
block zero buff = take 512 buff
block (suc i) buff = block i (drop 512 buff)

bytes_of-words_of :
    (n : ℕ) (bs : List ℕ) → length bs ≡ 2 * n → AreBytes bs → bytes_of (words_of bs) ≡ bs
unfolding words_of bytes_of
bytes_of-words_of n [] len b = refl
bytes_of-words_of n (x ∷ []) len b = absurd (omega arith)
bytes_of-words_of n (x ∷ (y ∷ bs)) len (hx, (hy, b)) =
    let low : (x + 256 * y) % 256 ≡ x = omega arith in
    let high : (x + 256 * y) / 256 ≡ y = omega arith in
    rw (low, high) (ap (λ l. x ∷ (y ∷ l)) (bytes_of-words_of (n - 1) bs (omega arith) b))

length-words_of : (n : ℕ) (bs : List ℕ) → length bs ≡ 2 * n → length (words_of bs) ≡ n
unfolding words_of
length-words_of n [] len = omega arith
length-words_of n (x ∷ []) len = absurd (omega arith)
length-words_of n (x ∷ (y ∷ bs)) len = omega (arith, length-words_of (n - 1) bs (omega arith))

length-take : (n : ℕ) (xs : List ℕ) → n ≤ length xs → length (take n xs) ≡ n
length-take zero xs le = refl
length-take (suc n) [] le = absurd (omega arith)
length-take (suc n) (x ∷ xs) le = ap suc (length-take n xs (omega arith))

AreBytes-take : (n : ℕ) (xs : List ℕ) → AreBytes xs → AreBytes (take n xs)
AreBytes-take zero xs b = tt
AreBytes-take (suc n) [] b = tt
AreBytes-take (suc n) (x ∷ xs) (hx, b) = (hx, AreBytes-take n xs b)

pub AreBytes-drop : (n : ℕ) (xs : List ℕ) → AreBytes xs → AreBytes (drop n xs)
AreBytes-drop zero xs b = b
AreBytes-drop (suc n) [] b = tt
AreBytes-drop (suc n) (x ∷ xs) (hx, b) = AreBytes-drop n xs b

split :
    (xs : List ℕ) (n : ℕ)
    → length xs ≡ suc n
    → (x : ℕ) × (ys : List ℕ) × (xs ≡ x ∷ ys) × (length ys ≡ n)
split [] n len = absurd (omega arith)
split (x ∷ ys) n len = (x, ys, refl, omega arith)

-- The first sector of a buffer, as 256 words that stand for its bytes.
pub record FirstSector (buff : List ℕ) (w : ℕ) (ws : List ℕ) : Type 0 where
  pub words : words_of (take 512 buff) ≡ w ∷ ws
  pub count : length ws ≡ 255
  pub bytes : bytes_of (w ∷ ws) ≡ take 512 buff

pub first_sector :
    (buff : List ℕ)
    → 512 ≤ length buff
    → AreBytes buff
    → (w : ℕ) × (ws : List ℕ) × FirstSector buff w ws
first_sector buff len b =
    let start = take 512 buff in
    let whole : length start ≡ 2 * 256 = length-take 512 buff len in
    let (w, ws, e, count) = split (words_of start) 255 (length-words_of 256 start whole) in
    (
      w,
      ws,
      record {
        words = e;
        count = count;
        bytes = ap bytes_of (sym e) ∙ bytes_of-words_of 256 start whole (AreBytes-take 512 buff b);
      },
    )
