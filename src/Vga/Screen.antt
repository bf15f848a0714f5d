-- ===== src/Vga/Screen.antt =====
-- vga_driver.c: the cursor stays on the screen, and only the screen is written.
use os.Base.{
  ℕ, ◌+◌, ◌-◌, ◌*◌, ◌≤◌, ◌<◌, ◌≡◌, refl, ◌∙◌, false, arith, List, [], ◌∷◌, leb, ltb, ◌&&◌, eq-cases,
  eq→==, ne→==, inl, inr, ◌⊎◌,
}
use os.Base.Word.{u32}
use os.Strings.{Bytes}
use os.Strings.Blocks.{memcpy-out, memsetw_lem}
use os.Vga.{
  Terminal, terminal_putentryat, terminal_movecsr, terminal_scroll, put_backspace, put_char,
  terminal_putchar, terminal_write,
}

-- The terminal `t'` has its cursor on the screen, and the memory is that of `m` outside the screen.
pub record OnScreen (m : Bytes) (t : Terminal) : Type 0 where
  pub row : t.terminal_row < 60
  pub column : t.terminal_column < 90
  pub outside : (p : ℕ) → (p < 0xB8000) ⊎ (0xB8000 + 10800 ≤ p) → t.mem p ≡ m p

scroll-outside :
    (t : Terminal) (p : ℕ)
    → t.terminal_row ≤ 60
    → (p < 0xB8000) ⊎ (0xB8000 + 10800 ≤ p)
    → (terminal_scroll t).mem p ≡ t.mem p
unfolding terminal_scroll
scroll-outside t p le out = elim (eq-cases t.terminal_row 60) [
  | inl e ↦
      let by_one : 60 - 60 + 1 ≡ 1 = omega arith in
      rw e (
        memsetw_lem (0xB8000 + 10620) 3872 90 _ p
        ∙ let off : (leb (0xB8000 + 10620) p && ltb p (0xB8000 + 10620 + 2 * 90)) ≡ false =
            ground arith in
          rw off (memcpy-out 0xB8000 (0xB8000 + 180) 10620 t.mem p (omega arith)))
  | inr ne ↦ let above : leb 60 t.terminal_row ≡ false = ground arith in rw above refl
]

scroll-row :
    (t : Terminal)
    → t.terminal_row ≤ 60
    → ((terminal_scroll t).terminal_row < 60)
      × ((terminal_scroll t).terminal_column ≡ t.terminal_column)
unfolding terminal_scroll
scroll-row t le = ground arith

backspace-OnScreen : (m : Bytes) (t : Terminal) → OnScreen m t → OnScreen m (put_backspace t)
unfolding put_backspace terminal_putentryat
backspace-OnScreen m t s = record {
  row = ground (arith, s.row);
  column = ground (arith, s.column);
  outside = λ p out. ground (arith, s.outside p out, s.row, s.column);
}

-- The cursor before the wrap at the end of a row.
record Before (m : Bytes) (t : Terminal) : Type 0 where
  at_row : t.terminal_row ≤ 60
  at_column : t.terminal_column ≤ 90
  not_both : (t.terminal_row < 60) ⊎ (t.terminal_column < 90)
  untouched : (p : ℕ) → (p < 0xB8000) ⊎ (0xB8000 + 10800 ≤ p) → t.mem p ≡ m p

put_char-Before : (c : ℕ) (m : Bytes) (t : Terminal) → OnScreen m t → Before m (put_char c t)
unfolding put_char terminal_putentryat
put_char-Before c m t s = elim (eq-cases c 10) [
  | inl e ↦ rw (eq→== _ _ e) (record {
    at_row = omega (arith, s.row);
    at_column = omega arith;
    not_both = inr (omega arith);
    untouched = s.outside;
  })
  | inr ne ↦ elim (eq-cases c 8) [
    | inl e ↦
        let b = backspace-OnScreen m t s in
        rw (ne→== _ _ ne, eq→== _ _ e)
          (record {
            at_row = omega (arith, b.row);
            at_column = omega (arith, b.column);
            not_both = inl b.row;
            untouched = b.outside;
          })
    | inr ne' ↦
        rw (ne→== _ _ ne, ne→== _ _ ne')
          (record {
            at_row = omega (arith, s.row);
            at_column = omega (arith, s.column);
            not_both = inl s.row;
            untouched = λ p out. ground (arith, s.outside p out, s.row, s.column);
          })
  ]
]

scrolled-OnScreen :
    (m : Bytes) (t : Terminal)
    → t.terminal_row ≤ 60
    → t.terminal_column < 90
    → ((p : ℕ) → (p < 0xB8000) ⊎ (0xB8000 + 10800 ≤ p) → t.mem p ≡ m p)
    → let u = terminal_scroll t in OnScreen m (terminal_movecsr u.terminal_column u.terminal_row u)
unfolding terminal_movecsr
scrolled-OnScreen m t hr hc outside =
    let (up, same) = scroll-row t hr in
    record {
      row = up;
      column = rw same hc;
      outside = λ p out. scroll-outside t p hr out ∙ outside p out;
    }

putchar-OnScreen :
    (c : ℕ) (m : Bytes) (t : Terminal) → OnScreen m t → OnScreen m (terminal_putchar c t)
unfolding terminal_putchar
putchar-OnScreen c m t s =
    let put = put_char c t in
    let b = put_char-Before c m t s in
    elim (eq-cases (put_char c t).terminal_column 90) [
      | inl e ↦ rw (eq→== _ _ e) (
          scrolled-OnScreen m
            (record put { terminal_column = 0; terminal_row = u32 (put.terminal_row + 1) })
            (omega (arith, b.not_both)) (omega arith) b.untouched)
      | inr ne ↦
          rw (ne→== _ _ ne)
            (scrolled-OnScreen m put b.at_row (omega (arith, b.at_column)) b.untouched)
    ]

-- From a cursor on the screen of 90 by 60 characters, writing any bytes leaves the cursor on the
-- screen, and writes to no memory but the screen's 10800 bytes.
pub terminal_write-OnScreen :
    (data_bytes : List ℕ) (m : Bytes) (t : Terminal)
    → OnScreen m t
    → OnScreen m (terminal_write data_bytes t)
unfolding terminal_write
terminal_write-OnScreen [] m t s = s
terminal_write-OnScreen (c ∷ data_rest) m t s =
    terminal_write-OnScreen data_rest m (terminal_putchar c t) (putchar-OnScreen c m t s)
