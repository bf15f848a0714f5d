-- ===== src/Theme/Lines.antt =====
-- ui/theme.c: the lines of a theme file, however `f_read` cuts it into blocks.
use os.Base.{
  ℕ, zero, suc, ◌<◌, ◌≤◌, ◌≡◌, refl, sym, ap, ◌∙◌, ◌&&◌, ◌||◌, true, false, arith, some, List, [],
  ◌∷◌, ◌++◌, length, length-append, take, ltb, ◌==◌, if◌then◌else◌, Bool-cases, lt-cases, inl, inr,
}
use os.Fat.{FatFs}
use os.Theme.{
  Theme, starts_with, Reader, default_theme, until_zero, parse_line, read_byte, read_block,
  read_blocks, read_opened, load_theme,
}

-- The bytes of the blocks.
unfoldable pub concat : List (List ℕ) → List ℕ
concat [] = []
concat (b ∷ blocks) = b ++ concat blocks

-- The lines of a text that a newline or a return ends, the first one behind the bytes `begun`.
unfoldable pub ended_lines : (begun : List ℕ) → List ℕ → List (List ℕ)
ended_lines begun [] = []
ended_lines begun (c ∷ cs) =
    let next = ended_lines [] cs in
    let longer = ended_lines (begun ++ (c ∷ [])) cs in
    if (c == 10) || (c == 13) then begun ∷ next else longer

-- The theme with the settings of the lines, of each of which the first 255 bytes count.
unfoldable pub settings : List (List ℕ) → Theme → Theme
settings [] theme = theme
settings (l ∷ lines) theme = settings lines (parse_line (until_zero (take 255 l)) theme)

take-all : (n : ℕ) (xs : List ℕ) → length xs ≤ n → take n xs ≡ xs
take-all zero [] le = refl
take-all (suc n) [] le = refl
take-all zero (x ∷ xs) le = absurd (omega arith)
take-all (suc n) (x ∷ xs) le = ap (λ l. x ∷ l) (take-all n xs (omega arith))

take-append : (n : ℕ) (xs ys : List ℕ) → n ≤ length xs → take n (xs ++ ys) ≡ take n xs
take-append zero xs ys le = refl
take-append (suc n) [] ys le = absurd (omega arith)
take-append (suc n) (x ∷ xs) ys le = ap (λ l. x ∷ l) (take-append n xs ys (omega arith))

length-take : (n : ℕ) (xs : List ℕ) → n ≤ length xs → length (take n xs) ≡ n
length-take zero xs le = refl
length-take (suc n) [] le = absurd (omega arith)
length-take (suc n) (x ∷ xs) le = omega (arith, length-take n xs (omega arith))

-- An empty line is no setting.
empty_line : (theme : Theme) → parse_line (until_zero (take 255 [])) theme ≡ theme
unfolding parse_line until_zero starts_with
empty_line theme = refl

-- One more byte in `line`, as long as there is room.
longer_line :
    (begun : List ℕ) (c : ℕ) (theme : Theme)
    → ((c == 10) || (c == 13)) ≡ false
    → read_byte c (record { theme = theme; line = take 255 begun })
      ≡ record { theme = theme; line = take 255 (begun ++ (c ∷ [])) }
unfolding read_byte
longer_line begun c theme plain = elim (lt-cases (length begun) 255) [
  | inl room ↦
      let whole = take-all 255 begun (omega arith) in
      let whole' = take-all 255 (begun ++ (c ∷ [])) (omega (arith, length-append begun (c ∷ []))) in
      let fits : ltb (length begun) 255 ≡ true = ground arith in
      rw (plain, whole, whole', fits) refl
  | inr full ↦
      let cut = take-append 255 begun (c ∷ []) full in
      let no_room : ltb (length (take 255 begun)) 255 ≡ false =
        ground (arith, length-take 255 begun full) in
      rw (plain, no_room, cut) refl
]

ended_line :
    (begun : List ℕ) (c : ℕ) (theme : Theme)
    → ((c == 10) || (c == 13)) ≡ true
    → read_byte c (record { theme = theme; line = take 255 begun })
      ≡ record { theme = parse_line (until_zero (take 255 begun)) theme; line = [] }
unfolding read_byte
ended_line [] c theme newline =
    rw newline (ap (λ t. record { theme = t; line = [] }) (sym (empty_line theme)))
ended_line (x ∷ begun) c theme newline =
    let some_bytes : ltb 0 (length (take 255 (x ∷ begun))) ≡ true = ground arith in
    rw (newline, some_bytes) refl

-- The loop over the bytes of a text, against its lines.
read_block-theme :
    (text begun : List ℕ) (theme : Theme)
    → (read_block text (record { theme = theme; line = take 255 begun })).theme
      ≡ settings (ended_lines begun text) theme
unfolding read_block ended_lines settings
read_block-theme [] begun theme = refl
read_block-theme (c ∷ cs) begun theme = elim (Bool-cases ((c == 10) || (c == 13))) [
  | inl newline ↦ rw newline (
      ap (λ r. (read_block cs r).theme) (ended_line begun c theme newline)
      ∙ read_block-theme cs [] (parse_line (until_zero (take 255 begun)) theme))
  | inr plain ↦ rw plain (
      ap (λ r. (read_block cs r).theme) (longer_line begun c theme plain)
      ∙ read_block-theme cs (begun ++ (c ∷ [])) theme)
]

read_block-append :
    (xs ys : List ℕ) (r : Reader) → read_block (xs ++ ys) r ≡ read_block ys (read_block xs r)
unfolding read_block
read_block-append [] ys r = refl
read_block-append (x ∷ xs) ys r = read_block-append xs ys (read_byte x r)

module _ (F : FatFs) (file : F.File) where
  -- `f_read` hands out the blocks, each with a byte at least, from the state `s` on; then it fails or
  -- gives nothing, and leaves the state `t`.
  abbrev pub Hands : List (List ℕ) → F.State → F.State → Type 0
  Hands [] s t =
      let read = F.f_read file 256 s in ((read.0 && ltb 0 (length read.1)) ≡ false) × (read.2 ≡ t)
  Hands (b ∷ blocks) s t =
      let read = F.f_read file 256 s in
      (read.0 ≡ true) × (read.1 ≡ b) × (1 ≤ length b) × Hands blocks read.2 t

  read_blocks_lem :
      (blocks : List (List ℕ)) (fuel : ℕ) (r : Reader) (s t : F.State)
      → length blocks < fuel
      → Hands blocks s t
      → read_blocks F fuel file r s ≡ some ((read_block (concat blocks) r).theme, F.f_close file t)
  unfolding read_blocks concat read_block
  read_blocks_lem blocks zero r s t lt hands = absurd (omega arith)
  read_blocks_lem [] (suc fuel) r s t lt (last, e) = rw (last, e) refl
  read_blocks_lem (b ∷ blocks) (suc fuel) r s t lt (good, here, byte, hands) =
      let more : ltb 0 (length b) ≡ true = ground arith in
      rw (good, here, more, read_block-append b (concat blocks) r)
        (read_blocks_lem blocks fuel (read_block b r) _ t (omega arith) hands)

  -- Where the file opens and `f_read` hands out its text in blocks, none of them empty, `load_theme` with
  -- more fuel than blocks gives the default theme with the settings of the lines of the text, which a
  -- newline or a return ends and of which the first 255 bytes count, and closes the file.
  pub load_theme_lem :
      (path : List ℕ) (fs t : F.State) (blocks : List (List ℕ)) (fuel : ℕ)
      → (F.f_open path 1 fs).0 ≡ some file
      → Hands blocks (F.f_open path 1 fs).1 t
      → length blocks < fuel
      → load_theme F fuel path fs
        ≡ some (true, settings (ended_lines [] (concat blocks)) default_theme, F.f_close file t)
  unfolding load_theme read_opened
  load_theme_lem path fs t blocks fuel found hands lt =
      rw
        (
          found,
          read_blocks_lem blocks fuel (record { theme = default_theme; line = [] }) _ t lt hands,
        )
        (ap (λ theme. some (true, theme, F.f_close file t))
          (read_block-theme (concat blocks) [] default_theme))
