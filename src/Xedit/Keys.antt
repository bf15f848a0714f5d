-- ===== src/Xedit/Keys.antt =====
-- user_programs/xedit.c: what every key keeps true of the cursor.
use os.Base.{
  ℕ, zero, suc, ◌+◌, ◌-◌, ◌≤◌, ◌<◌, ◌≡◌, refl, arith, leb, ltb, ◌==◌, if◌then◌else◌, Option, none,
  true, false, Option-cases, inl, inr, lt-cases, lt→ltb, ◌⊎◌, some,
}
use os.Strings.{Bytes}
use os.Xedit.{
  Editor, line_start_loop, find_line_start, line_end_loop, find_line_end_from_start,
  insert_at_cursor, backspace_at_cursor, move_cursor_left, move_cursor_right, move_cursor_up,
  move_cursor_down, compute_cursor_line_col, ensure_cursor_visible, switch_key, edit_key,
}
use os.Xedit.Editing.{IsValid}

line_start_loop_bound :
    (rounds i line target : ℕ) (m : Bytes) → line_start_loop rounds i line target m ≤ i + rounds
unfolding line_start_loop
line_start_loop_bound zero i line target m = omega arith
line_start_loop_bound (suc rounds) i line target m =
    let line' = if m i == 10 then line + 1 else line in
    ground (arith, line_start_loop_bound rounds (i + 1) line' target m)

line_end_loop_bound : (rounds i : ℕ) (m : Bytes) → line_end_loop rounds i m ≤ i + rounds
unfolding line_end_loop
line_end_loop_bound zero i m = omega arith
line_end_loop_bound (suc rounds) i m = ground (arith, line_end_loop_bound rounds (i + 1) m)

pub find_line_start_bound : (line : ℕ) (e : Editor) → find_line_start line e ≤ e.buffer_len
unfolding find_line_start
find_line_start_bound line e = ground (arith, line_start_loop_bound e.buffer_len 0 0 line e.buffer)

pub find_line_end_from_start_bound :
    (start : ℕ) (e : Editor)
    → start ≤ e.buffer_len
    → find_line_end_from_start start e ≤ e.buffer_len
unfolding find_line_end_from_start
find_line_end_from_start_bound start e le =
    omega (arith, line_end_loop_bound (e.buffer_len - start) start e.buffer)

-- The cursor on a line that starts in the text, in a column that the line has.
in_line :
    (start col : ℕ) (e : Editor)
    → start ≤ e.buffer_len
    → (let len = find_line_end_from_start start e - start in
        start + (if leb col len then col else len) ≤ e.buffer_len)
in_line start col e le = ground (arith, find_line_end_from_start_bound start e le)

insert_at_cursor-IsValid : (c : ℕ) (e : Editor) → IsValid e → IsValid (insert_at_cursor c e)
unfolding insert_at_cursor
insert_at_cursor-IsValid c e v = record {
  cursor = ground (arith, v.cursor);
  room = ground (arith, v.room);
}

backspace_at_cursor-IsValid : (e : Editor) → IsValid e → IsValid (backspace_at_cursor e)
unfolding backspace_at_cursor
backspace_at_cursor-IsValid e v = record {
  cursor = ground (arith, v.cursor);
  room = ground (arith, v.room);
}

move_cursor_left-IsValid : (e : Editor) → IsValid e → IsValid (move_cursor_left e)
unfolding move_cursor_left
move_cursor_left-IsValid e v = record {
  cursor = ground (arith, v.cursor);
  room = ground (arith, v.room);
}

move_cursor_right-IsValid : (e : Editor) → IsValid e → IsValid (move_cursor_right e)
unfolding move_cursor_right
move_cursor_right-IsValid e v = record {
  cursor = ground (arith, v.cursor);
  room = ground (arith, v.room);
}

move_cursor_up-IsValid : (e : Editor) → IsValid e → IsValid (move_cursor_up e)
unfolding move_cursor_up
move_cursor_up-IsValid e v =
    let at = compute_cursor_line_col e.cursor_pos e in
    let start = find_line_start (at.0 - 1) e in
    let within = in_line start (at.1) e (find_line_start_bound (at.0 - 1) e) in
    record { cursor = ground (arith, within); room = ground (arith, v.room) }

move_cursor_down-IsValid : (e : Editor) → IsValid e → IsValid (move_cursor_down e)
unfolding move_cursor_down
move_cursor_down-IsValid e v =
    let at = compute_cursor_line_col e.cursor_pos e in
    let start = find_line_start (at.0 + 1) e in
    let within = in_line start (at.1) e (find_line_start_bound (at.0 + 1) e) in
    record { cursor = ground (arith, within); room = ground (arith, v.room) }

-- The line of the cursor is one of the 27 lines on the screen.
pub record IsVisible (e : Editor) : Type 0 where
  pub from : e.scroll_line ≤ (compute_cursor_line_col e.cursor_pos e).0
  pub below : (compute_cursor_line_col e.cursor_pos e).0 < e.scroll_line + 27

pub ensure_cursor_visible_lem :
    (e : Editor)
    → IsValid e
    → IsValid (ensure_cursor_visible e) × IsVisible (ensure_cursor_visible e)
unfolding ensure_cursor_visible compute_cursor_line_col
ensure_cursor_visible_lem e v =
    let line = (compute_cursor_line_col e.cursor_pos e).0 in
    elim (lt-cases line e.scroll_line) [
      | inl up ↦ rw (lt→ltb _ _ up) (
        record { cursor = v.cursor; room = v.room },
        record { from = omega arith; below = omega arith },
      )
      | inr from ↦
          let stay : ltb line e.scroll_line ≡ false = ground arith in
          elim (lt-cases line (e.scroll_line + 27)) [
            | inl below ↦
                let seen : leb (e.scroll_line + 27) line ≡ false = ground arith in
                rw (stay, seen) (v, record { from = from; below = below })
            | inr down ↦
                let out : leb (e.scroll_line + 27) line ≡ true = ground arith in
                rw (stay, out)
                  (
                    record { cursor = v.cursor; room = v.room },
                    record { from = omega arith; below = omega arith },
                  )
          ]
    ]

-- A key under the space may be dropped; any other key gives a valid editor.
abbrev Handled : ℕ → Option Editor → Type 0
Handled c none = c < 32
Handled c (some e) = IsValid e

switch_key-Handled : (c : ℕ) (e : Editor) → IsValid e → Handled c (switch_key c e)
unfolding switch_key
switch_key-Handled c e v =
    let h0 = move_cursor_left-IsValid e v in
    let h1 = move_cursor_right-IsValid e v in
    let h2 = move_cursor_up-IsValid e v in
    let h3 = move_cursor_down-IsValid e v in
    let h4 = backspace_at_cursor-IsValid e v in
    let h5 = insert_at_cursor-IsValid 10 e v in
    let h6 = insert_at_cursor-IsValid c e v in ground arith

-- After a key the cursor stands in the text and its line on the screen, or the key was dropped,
-- which only keys under the space are.
pub edit_key_lem :
    (c : ℕ) (e : Editor)
    → IsValid e
    → ((c < 32) × (edit_key c e ≡ none))
      ⊎ ((e' : Editor) × ((edit_key c e ≡ some e') × IsValid e' × IsVisible e'))
unfolding edit_key
edit_key_lem c e v =
    let handled = switch_key-Handled c e v in
    elim (Option-cases (switch_key c e)) [
      | inl dropped ↦ let control = rw dropped at handled in inl (control, rw dropped refl)
      | inr (e', kept) ↦
          let valid = rw kept at handled in
          let seen = ensure_cursor_visible_lem e' valid in
          inr (ensure_cursor_visible e', (rw kept refl, seen.0, seen.1))
    ]
