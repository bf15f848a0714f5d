-- ===== src/Xedit/Lines.antt =====
-- user_programs/xedit.c: lines and columns. The start of a line is the start of the text, or stands
-- behind a newline.
use os.Base.{
  ℕ, zero, suc, ◌+◌, ◌-◌, ◌≤◌, ◌≡◌, refl, arith, true, ◌==◌, if◌then◌else◌, ◌⊎◌, inl, inr,
  Bool-cases, lt-cases, eq-cases, subst, leb,
}
use os.Strings.{Bytes}
use os.Xedit.{Editor, line_col_loop, compute_cursor_line_col}

-- The newlines among the first bytes.
unfoldable pub newlines : Bytes → ℕ → ℕ
newlines m zero = 0
newlines m (suc n) = if m n == 10 then newlines m n + 1 else newlines m n

pub newlines_mono : (m : Bytes) (a b : ℕ) → a ≤ b → newlines m a ≤ newlines m b
unfolding newlines
newlines_mono m a zero le = ground arith
newlines_mono m a (suc b) le = elim (eq-cases a (suc b)) [
  | inl same ↦ rw same (omega arith)
  | inr ne ↦ ground (arith, newlines_mono m a b (omega arith))
]

-- `s` is where the line starts.
pub record IsStart (m : Bytes) (line s : ℕ) : Type 0 where
  pub lines : newlines m s ≡ line
  pub first : (s ≡ 0) ⊎ ((1 ≤ s) × (m (s - 1) ≡ 10))

pub zero-IsStart : (m : Bytes) → IsStart m 0 0
unfolding newlines
zero-IsStart m = record { lines = refl; first = inl refl }

-- In front of the start of a line there is one newline less.
newlines-before :
    (m : Bytes) (line s : ℕ) → IsStart m line s → 1 ≤ s → newlines m (s - 1) + 1 ≡ line
unfolding newlines
newlines-before m line zero st pos = absurd (omega arith)
newlines-before m line (suc s) st pos = elim (st.first) [
  | inl z ↦ absurd (omega arith)
  | inr (_, newline) ↦ ground (arith, st.lines)
]

IsStart-below : (m : Bytes) (line s t : ℕ) → IsStart m line s → IsStart m line t → t ≤ s
IsStart-below m line s t a b = elim (lt-cases s t) [
  | inr le ↦ le
  | inl lt ↦ absurd (
      omega (
        arith,
        newlines-before m line t b (omega arith),
        newlines_mono m s (t - 1) (omega arith),
        a.lines,
      ))
]

pub IsStart-unique : (m : Bytes) (line s t : ℕ) → IsStart m line s → IsStart m line t → s ≡ t
IsStart-unique m line s t a b =
    omega (arith, IsStart-below m line s t a b, IsStart-below m line t s b a)

-- Line and column of a position.
pub record IsAt (m : Bytes) (pos line col : ℕ) : Type 0 where
  pub start : ℕ
  pub starts : IsStart m line start
  pub column : start + col ≡ pos
  pub lines : newlines m pos ≡ line

pub newlines-next :
    (m : Bytes) (i : ℕ)
    → newlines m (i + 1) ≡ (if m i == 10 then newlines m i + 1 else newlines m i)
unfolding newlines
newlines-next m i = let next : i + 1 ≡ suc i = omega arith in rw next refl

line_col_loop-IsAt :
    (n i j line col : ℕ) (m : Bytes)
    → i + n ≡ j
    → IsAt m i line col
    → (let r = line_col_loop n i line col m in IsAt m j r.0 r.1)
unfolding line_col_loop
line_col_loop-IsAt zero i j line col m e at = subst (λ p. IsAt m p line col) (omega arith) at
line_col_loop-IsAt (suc n) i j line col m e at = elim (Bool-cases (m i == 10)) [
  | inl newline ↦
      let next : newlines m (i + 1) ≡ line + 1 = ground (arith, newlines-next m i, at.lines) in
      let back : i + 1 - 1 ≡ i = omega arith in
      rw (newline, line_col_loop)
        (line_col_loop-IsAt n (i + 1) j (line + 1) 0 m (omega arith) (record {
          start = i + 1;
          starts = record { lines = next; first = inr (omega arith, rw back (ground arith)) };
          column = omega arith;
          lines = next;
        }))
  | inr more ↦
      rw (more, line_col_loop)
        (line_col_loop-IsAt n (i + 1) j line (col + 1) m (omega arith) (record {
          start = at.start;
          starts = at.starts;
          column = omega (arith, at.column);
          lines = ground (arith, newlines-next m i, at.lines);
        }))
]

-- `compute_cursor_line_col` gives line and column of a position in the text.
pub compute_cursor_line_col-IsAt :
    (pos : ℕ) (e : Editor)
    → pos ≤ e.buffer_len
    → (let r = compute_cursor_line_col pos e in IsAt e.buffer pos r.0 r.1)
unfolding compute_cursor_line_col
compute_cursor_line_col-IsAt pos e le =
    let inside : leb pos e.buffer_len ≡ true = ground arith in
    rw inside (
      line_col_loop-IsAt pos 0 pos 0 0 e.buffer (omega arith) (record {
        start = 0;
        starts = zero-IsStart e.buffer;
        column = refl;
        lines = (zero-IsStart e.buffer).lines;
      }))

-- There is one line and one column of a position.
pub IsAt-unique :
    (m : Bytes) (pos line col line' col' : ℕ)
    → IsAt m pos line col
    → IsAt m pos line' col'
    → (line ≡ line') × (col ≡ col')
IsAt-unique m pos line col line' col' a b =
    let same : line ≡ line' = omega (arith, a.lines, b.lines) in
    let start : a.start ≡ b.start =
      IsStart-unique m line' a.start b.start (subst (λ l. IsStart m l a.start) same a.starts)
        b.starts in
    (same, omega (arith, a.column, b.column))
