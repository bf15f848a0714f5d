-- ===== src/Xedit/Editing.antt =====
-- user_programs/xedit.c: the editor's buffer as the text before and behind the cursor.
use os.Base.{
  ℕ, zero, suc, ◌+◌, ◌-◌, ◌≤◌, ◌<◌, ◌≡◌, refl, ap, ap₂, sym, ◌∙◌, true, false, ◌&&◌, arith, List,
  [], ◌∷◌, ◌++◌, leb, ltb, if◌then◌else◌, eq-cases, eq→==, ne→==, inl, inr, ◌⊎◌,
}
use os.Strings.{Bytes, store_byte, memcpy}
use os.Strings.Blocks.{memcpy_lem}
use os.Xedit.{Editor, copy_down, memmove_internal, insert_at_cursor, backspace_at_cursor}

-- The `n` bytes from `i` on.
abbrev pub slice : Bytes → ℕ → ℕ → List ℕ
slice m i zero = []
slice m i (suc n) = m i ∷ slice m (i + 1) n

slice-ext :
    (m m' : Bytes) (i j n : ℕ)
    → ((k : ℕ) → k < n → m (i + k) ≡ m' (j + k))
    → slice m i n ≡ slice m' j n
slice-ext m m' i j zero h = refl
slice-ext m m' i j (suc n) h =
    ap₂ ◌∷◌ (ground (arith, h 0 (omega arith)))
      (slice-ext m m' (i + 1) (j + 1) n (λ k lt. ground (arith, h (suc k) (omega arith))))

slice-last : (m : Bytes) (i n : ℕ) → slice m i (suc n) ≡ slice m i n ++ (m (i + n) ∷ [])
slice-last m i zero = ap (λ x. m x ∷ []) (omega arith)
slice-last m i (suc n) =
    let here : i + 1 + n ≡ i + suc n = omega arith in
    let rest = slice-last m (i + 1) n in let rest' = rw here at rest in ap (λ t. m i ∷ t) rest'

copy_down_lem :
    (n dst src : ℕ) (m : Bytes) (p : ℕ)
    → src ≤ dst
    → copy_down n dst src m p ≡ (if leb dst p && ltb p (dst + n) then m (src + (p - dst)) else m p)
unfolding copy_down
copy_down_lem zero dst src m p le = ground arith
copy_down_lem (suc n) dst src m p le =
    ground (arith, copy_down_lem n dst src (store_byte m (dst + n) (m (src + n))) p)

-- The cursor stands in the text, and the text in the buffer.
pub record IsValid (e : Editor) : Type 0 where
  pub cursor : e.cursor_pos ≤ e.buffer_len
  pub room : e.buffer_len < 131072

abbrev pub before : Editor → List ℕ
before e = slice e.buffer 0 e.cursor_pos

abbrev pub behind : Editor → List ℕ
behind e = slice e.buffer e.cursor_pos (e.buffer_len - e.cursor_pos)

-- The buffer after the insertion of `c` at `pos`, with `n` bytes behind it.
inserted : (pos n c : ℕ) → Bytes → Bytes
inserted pos n c m = store_byte (copy_down n (pos + 1) pos m) pos c

inserted_before :
    (pos n c : ℕ) (m : Bytes) → slice (inserted pos n c m) 0 (pos + 1) ≡ slice m 0 pos ++ (c ∷ [])
unfolding inserted
inserted_before pos n c m =
    let m' = inserted pos n c m in
    let len : pos + 1 ≡ suc pos = omega arith in
    let same : slice m' 0 pos ≡ slice m 0 pos =
      slice-ext m' m 0 0 pos
        (λ k lt. ground (arith, copy_down_lem n (pos + 1) pos m (0 + k) (omega arith))) in
    let at : m' (0 + pos) ≡ c = ground arith in
    ap (slice m' 0) len ∙ slice-last m' 0 pos ∙ ap₂ (λ xs x. xs ++ (x ∷ [])) same at

inserted_behind : (pos n c : ℕ) (m : Bytes) → slice (inserted pos n c m) (pos + 1) n ≡ slice m pos n
unfolding inserted
inserted_behind pos n c m = slice-ext (inserted pos n c m) m (pos + 1) pos n (λ k lt.
    let there : pos + (pos + 1 + k - (pos + 1)) ≡ pos + k = omega arith in
    let moved = copy_down_lem n (pos + 1) pos m (pos + 1 + k) (omega arith) in
    let moved' = rw there at moved in ground arith)

-- In a buffer that is not full, `insert_at_cursor` puts the character before the cursor and leaves
-- the text before and behind it as it is.
pub insert_at_cursor_lem :
    (c : ℕ) (e : Editor)
    → IsValid e
    → e.buffer_len + 1 < 131072
    → IsValid (insert_at_cursor c e)
      × (before (insert_at_cursor c e) ≡ before e ++ (c ∷ []))
      × (behind (insert_at_cursor c e) ≡ behind e)
unfolding insert_at_cursor memmove_internal inserted
insert_at_cursor_lem c e v room =
    let fits : leb 131072 (e.buffer_len + 1) ≡ false = ground arith in
    let up : ltb (e.cursor_pos + 1) e.cursor_pos ≡ false = ground arith in
    let down : ltb e.cursor_pos (e.cursor_pos + 1) ≡ true = ground arith in
    let rest : e.buffer_len + 1 - (e.cursor_pos + 1) ≡ e.buffer_len - e.cursor_pos = omega arith in
    let n = e.buffer_len - e.cursor_pos in
    rw (fits, up, down, rest)
      (
        record { cursor = omega (arith, v.cursor); room = room },
        inserted_before e.cursor_pos n c e.buffer,
        inserted_behind e.cursor_pos n c e.buffer,
      )

-- `backspace_at_cursor` takes the character before the cursor away and leaves the rest of the text as
-- it is; at the start of the text it does nothing.
pub backspace_at_cursor_lem :
    (e : Editor)
    → IsValid e
    → ((e.cursor_pos ≡ 0) × (backspace_at_cursor e ≡ e))
      ⊎ (IsValid (backspace_at_cursor e)
          × (before e ≡ before (backspace_at_cursor e) ++ (e.buffer (e.cursor_pos - 1) ∷ []))
          × (behind (backspace_at_cursor e) ≡ behind e))
unfolding backspace_at_cursor memmove_internal
backspace_at_cursor_lem e v = elim (eq-cases e.cursor_pos 0) [
  | inl z ↦ inl (z, rw (eq→== _ _ z) refl)
  | inr nz ↦
      let pos = e.cursor_pos in
      let n = e.buffer_len - pos in
      let down : ltb (pos - 1) pos ≡ true = ground arith in
      let rest : e.buffer_len - 1 - (pos - 1) ≡ n = omega arith in
      let facts = memcpy_lem (pos - 1) pos n e.buffer (inl (omega arith)) in
      let m' = memcpy (pos - 1) pos n e.buffer in
      let len : pos ≡ suc (pos - 1) = omega arith in
      let same : slice m' 0 (pos - 1) ≡ slice e.buffer 0 (pos - 1) =
        slice-ext m' e.buffer 0 0 (pos - 1) (λ k lt. facts.1 (0 + k) (inl (omega arith))) in
      let moved : slice m' (pos - 1) n ≡ slice e.buffer pos n =
        slice-ext m' e.buffer (pos - 1) pos n (λ k lt. facts.0 k lt) in
      inr (
        rw (ne→== _ _ nz, down, rest)
          (
            record { cursor = omega (arith, v.cursor); room = omega (arith, v.room) },
            ap (slice e.buffer 0) len
                ∙ slice-last e.buffer 0 (pos - 1)
                ∙ ap₂ (λ xs x. xs ++ (x ∷ [])) (sym same) (ap e.buffer (omega arith)),
            moved,
          ))
]
