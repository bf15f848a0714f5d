-- ===== src/Shell/Readline.antt =====
-- user_programs/syscall.h: `readline` ends, and stays in its buffer.
use os.Base.{
  ℕ, ◌+◌, ◌-◌, ◌<◌, ◌≤◌, ◌≡◌, ◌≢◌, refl, ◌||◌, ◌⊎◌, arith, some, List, [], ◌∷◌, ◌++◌, length,
  length-append, ltb, ◌==◌, Bool-cases, eq-cases, eq→==, ne→==, inl, inr,
}
use os.Shell.{Line, but_last, type_key, readline_loop, readline}

-- No byte is a backspace, a newline or 127.
unfoldable pub IsPlain : List ℕ → Type 0
IsPlain [] = Unit
IsPlain (c ∷ cs) = (c ≢ 8) × (c ≢ 10) × (c ≢ 127) × IsPlain cs

IsPlain-append :
    (line : List ℕ) (c : ℕ) → IsPlain line → c ≢ 8 → c ≢ 10 → c ≢ 127 → IsPlain (line ++ (c ∷ []))
unfolding IsPlain
IsPlain-append [] c p h8 h10 h127 = (h8, h10, h127, tt)
IsPlain-append (x ∷ line) c (a, b, d, p) h8 h10 h127 =
    (a, b, d, IsPlain-append line c p h8 h10 h127)

IsPlain-but_last : (line : List ℕ) → IsPlain line → IsPlain (but_last line)
unfolding IsPlain
IsPlain-but_last [] p = tt
IsPlain-but_last (x ∷ []) p = tt
IsPlain-but_last (x ∷ (y ∷ ys)) (a, b, d, p) = (a, b, d, IsPlain-but_last (y ∷ ys) p)

type_key-IsPlain : (c : ℕ) (s : List ℕ × List ℕ) → c ≢ 10 → IsPlain s.0 → IsPlain (type_key c s).0
unfolding type_key
type_key-IsPlain c (line, echo) ne p = elim (Bool-cases ((c == 8) || (c == 127))) [
  | inr other ↦ rw other (IsPlain-append line c p (ground arith) ne (ground arith))
  | inl erase ↦ elim (Bool-cases (ltb 0 (length line))) [
    | inl more ↦ rw (erase, more) (IsPlain-but_last line p)
    | inr empty ↦ rw (erase, empty) p
  ]
]

length-but_last : (xs : List ℕ) → length (but_last xs) ≡ length xs - 1
length-but_last [] = omega arith
length-but_last (x ∷ []) = omega arith
length-but_last (x ∷ (y ∷ ys)) = omega (arith, length-but_last (y ∷ ys))

length-type_key : (c : ℕ) (s : List ℕ × List ℕ) → length (type_key c s).0 ≤ length s.0 + 1
unfolding type_key
length-type_key c (line, echo) = ground (arith, length-but_last line, length-append line (c ∷ []))

-- The line fits with its 0 and is plain; it is full, or a newline ended it.
pub record Read (max_len : ℕ) (l : Line) : Type 0 where
  pub fits : length l.line < max_len
  pub plain : IsPlain l.line
  pub ends : (length l.line + 1 ≡ max_len) ⊎ ((shown : List ℕ) × (l.echo ≡ shown ++ (10 ∷ [])))

readline_loop-Read :
    (keys : List ℕ) (max_len : ℕ) (s : List ℕ × List ℕ) (l : Line)
    → length s.0 < max_len
    → IsPlain s.0
    → readline_loop keys max_len s ≡ some l
    → Read max_len l
unfolding readline_loop
readline_loop-Read [] max_len s l lt p h = elim (Bool-cases (ltb (length s.0) (max_len - 1))) [
  | inl more ↦ let h' = rw more at h in cc
  | inr full ↦
      let h' = rw full at h in
      let same : record { line = s.0; echo = s.1; keys = [] } ≡ l = cc in
      rw (← same) record { fits = lt; plain = p; ends = inl (ground arith) }
]
readline_loop-Read (c ∷ keys) max_len s l lt p h =
    elim (Bool-cases (ltb (length s.0) (max_len - 1))) [
      | inr full ↦
          let h' = rw full at h in
          let same : record { line = s.0; echo = s.1; keys = c ∷ keys } ≡ l = cc in
          rw (← same) record { fits = lt; plain = p; ends = inl (ground arith) }
      | inl more ↦ elim (eq-cases c 10) [
        | inl newline ↦
            let h' = rw (more, eq→== _ _ newline) at h in
            let same : record { line = s.0; echo = s.1 ++ (10 ∷ []); keys = keys } ≡ l = cc in
            rw (← same) record { fits = lt; plain = p; ends = inr (s.1, refl) }
        | inr other ↦
            let h' = rw (more, ne→== _ _ other) at h in
            readline_loop-Read keys max_len (type_key c s) l (ground (arith, length-type_key c s))
              (type_key-IsPlain c s other p) h'
      ]
    ]

-- A line that `readline` returns fits into a buffer of `max_len` bytes with its 0, whatever keys were
-- typed.
pub readline-Read :
    (keys : List ℕ) (max_len : ℕ) (l : Line)
    → 0 < max_len
    → readline keys max_len ≡ some l
    → Read max_len l
unfolding readline IsPlain
readline-Read keys max_len l pos h = readline_loop-Read keys max_len ([], []) l pos tt h

readline_loop-ends :
    (before rest : List ℕ) (max_len : ℕ) (s : List ℕ × List ℕ)
    → (l : Line) × (readline_loop (before ++ (10 ∷ rest)) max_len s ≡ some l)
unfolding readline_loop
readline_loop-ends [] rest max_len s = elim (Bool-cases (ltb (length s.0) (max_len - 1))) [
  | inl more ↦ (record { line = s.0; echo = s.1 ++ (10 ∷ []); keys = rest }, rw more refl)
  | inr full ↦ (record { line = s.0; echo = s.1; keys = 10 ∷ rest }, rw full refl)
]
readline_loop-ends (c ∷ before) rest max_len s =
    let keys = before ++ (10 ∷ rest) in
    elim (Bool-cases (ltb (length s.0) (max_len - 1))) [
      | inr full ↦ (record { line = s.0; echo = s.1; keys = c ∷ keys }, rw full refl)
      | inl more ↦ elim (eq-cases c 10) [
        | inl newline ↦ (
          record { line = s.0; echo = s.1 ++ (10 ∷ []); keys = keys },
          rw (more, eq→== _ _ newline) refl,
        )
        | inr other ↦
            let (l, e) = readline_loop-ends before rest max_len (type_key c s) in
            (l, rw (more, ne→== _ _ other) e)
      ]
    ]

-- If a newline is among the keys that are typed, `readline` returns a line, and it fits into a buffer of
-- `max_len` bytes with its 0, where there is such a buffer. The line has no backspace, no newline and no
-- byte 127; and it is as long as the buffer allows, or the last byte of what was echoed is the newline.
pub readline-returns :
    (before rest : List ℕ) (max_len : ℕ)
    → 0 < max_len
    → (l : Line) × (readline (before ++ (10 ∷ rest)) max_len ≡ some l) × Read max_len l
unfolding readline
readline-returns before rest max_len pos =
    let (l, e) = readline_loop-ends before rest max_len ([], []) in
    (l, e, readline-Read (before ++ (10 ∷ rest)) max_len l pos e)
