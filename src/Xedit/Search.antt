-- ===== src/Xedit/Search.antt =====
-- user_programs/xedit.c: where a line starts and ends.
use os.Base.{
  ℕ, zero, suc, ◌+◌, ◌-◌, ◌≤◌, ◌<◌, ◌≡◌, refl, arith, ◌==◌, ◌⊎◌, inl, inr, Bool-cases, eq-cases,
  eq→==, ne→==, subst, sym,
}
use os.Strings.{Bytes}
use os.Xedit.{Editor, line_start_loop, find_line_start, line_end_loop, find_line_end_from_start}
use os.Xedit.Lines.{newlines, newlines_mono, newlines-next, zero-IsStart, IsStart, IsAt}

-- What the search for the start of a line finds: it, or the end, where no line has the number.
abbrev pub Finds : Bytes → (target stop found : ℕ) → Type 0
Finds m target stop found = (IsStart m target found) ⊎ ((found ≡ stop) × (newlines m stop < target))

line_start_loop-Finds :
    (n i line target stop : ℕ) (m : Bytes)
    → i + n ≡ stop
    → newlines m i ≡ line
    → line < target
    → Finds m target stop (line_start_loop n i line target m)
unfolding line_start_loop
line_start_loop-Finds zero i line target stop m e at lt =
    let same : i ≡ stop = omega arith in
    inr (same, subst (λ s. newlines m s < target) same (omega arith))
line_start_loop-Finds (suc n) i line target stop m e at lt =
    let next = newlines-next m i in
    elim (Bool-cases (m i == 10)) [
      | inr more ↦
          rw more
            (line_start_loop-Finds n (i + 1) line target stop m (omega arith) (ground arith) lt)
      | inl newline ↦ elim (eq-cases (line + 1) target) [
        | inl here ↦
            let back : i + 1 - 1 ≡ i = omega arith in
            rw (newline, eq→== _ _ here)
              (inl (record {
                lines = ground arith;
                first = inr (omega arith, rw back (ground arith));
              }))
        | inr further ↦
            rw (newline, ne→== _ _ further)
              (line_start_loop-Finds n (i + 1) (line + 1) target stop m (omega arith) (ground arith)
                (omega arith))
      ]
    ]

pub find_line_start-Finds :
    (line : ℕ) (e : Editor) → Finds e.buffer line e.buffer_len (find_line_start line e)
unfolding find_line_start
find_line_start-Finds line e = elim (eq-cases line 0) [
  | inl z ↦
      rw (eq→== _ _ z) (inl (subst (λ l. IsStart e.buffer l 0) (sym z) (zero-IsStart e.buffer)))
  | inr nz ↦ rw (ne→== _ _ nz) (
      line_start_loop-Finds e.buffer_len 0 0 line e.buffer_len e.buffer (omega arith)
        (zero-IsStart e.buffer).lines (omega arith))
]

line_end_loop-lines : (n i : ℕ) (m : Bytes) → newlines m (line_end_loop n i m) ≡ newlines m i
unfolding line_end_loop
line_end_loop-lines zero i m = refl
line_end_loop-lines (suc n) i m = ground (arith, line_end_loop-lines n (i + 1) m, newlines-next m i)

line_end_loop-from : (n i : ℕ) (m : Bytes) → i ≤ line_end_loop n i m
unfolding line_end_loop
line_end_loop-from zero i m = omega arith
line_end_loop-from (suc n) i m = ground (arith, line_end_loop-from n (i + 1) m)

-- From a start to a place up to the end there is no newline.
pub IsAt-in_line :
    (line start col : ℕ) (e : Editor)
    → IsStart e.buffer line start
    → start + col ≤ find_line_end_from_start start e
    → IsAt e.buffer (start + col) line col
unfolding find_line_end_from_start
IsAt-in_line line start col e st le = record {
  start = start;
  starts = st;
  column = refl;
  lines = omega (
    arith,
    st.lines,
    newlines_mono e.buffer start (start + col) (omega arith),
    newlines_mono e.buffer (start + col) (find_line_end_from_start start e) le,
    line_end_loop-lines (e.buffer_len - start) start e.buffer,
  );
}

pub find_line_end_from_start-from :
    (start : ℕ) (e : Editor) → start ≤ find_line_end_from_start start e
unfolding find_line_end_from_start
find_line_end_from_start-from start e = line_end_loop-from (e.buffer_len - start) start e.buffer

-- The end of a line is behind every place that no newline stands in front of.
line_end_loop-behind :
    (n i pos : ℕ) (m : Bytes)
    → i ≤ pos
    → pos ≤ i + n
    → newlines m pos ≡ newlines m i
    → pos ≤ line_end_loop n i m
unfolding line_end_loop
line_end_loop-behind zero i pos m from le same = omega arith
line_end_loop-behind (suc n) i pos m from le same = elim (eq-cases i pos) [
  | inl here ↦ ground (arith, line_end_loop-from n (i + 1) m)
  | inr ne ↦
      let next = newlines-next m i in
      let mono = newlines_mono m (i + 1) pos (omega arith) in
      elim (Bool-cases (m i == 10)) [
        | inl newline ↦ absurd (ground arith)
        | inr more ↦
            let kept : newlines m pos ≡ newlines m (i + 1) = ground arith in
            rw more (line_end_loop-behind n (i + 1) pos m (omega arith) (omega arith) kept)
      ]
]

pub find_line_end_from_start-behind :
    (start pos : ℕ) (e : Editor)
    → start ≤ pos
    → pos ≤ e.buffer_len
    → newlines e.buffer pos ≡ newlines e.buffer start
    → pos ≤ find_line_end_from_start start e
unfolding find_line_end_from_start
find_line_end_from_start-behind start pos e from le same =
    line_end_loop-behind (e.buffer_len - start) start pos e.buffer from (omega arith) same
