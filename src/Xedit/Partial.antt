-- ===== src/Xedit/Partial.antt =====
-- user_programs/xedit.c: which rows a movement of the cursor changes.
use os.Base.{
  ℕ, zero, suc, ◌+◌, ◌-◌, ◌≤◌, ◌<◌, ◌≡◌, ◌≢◌, refl, ◌∙◌, ap, arith, ◌∷◌, false, ◌&&◌, leb, ◌==◌,
  ne→==, inl, inr, ◌⊎◌,
}
use os.Strings.{Bytes}
use os.Theme.{Theme}
use os.Xedit.{Editor, compute_cursor_line_col, find_line_start, find_line_end_from_start}
use os.Xedit.Editing.{IsValid}
use os.Xedit.Files.{write}
use os.Xedit.Draw.{one_byte, draw_text, redraw_line}
use os.Xedit.Lines.{IsStart}
use os.Xedit.Search.{find_line_start-Finds, find_line_end_from_start-from}
use os.Xedit.Moves.{cursor_at}
use os.Xedit.Rows.{last_line, between_iff}

-- A cursor that is not among the bytes does not matter.
draw_text-away :
    (n i pos pos' : ℕ) (t : Theme) (m : Bytes)
    → (pos < i) ⊎ (i + n ≤ pos)
    → (pos' < i) ⊎ (i + n ≤ pos')
    → draw_text n i pos t m ≡ draw_text n i pos' t m
unfolding draw_text
draw_text-away zero i pos pos' t m away away' = refl
draw_text-away (suc n) i pos pos' t m away away' =
    let here : (i == pos) ≡ false = ground arith in
    let here' : (i == pos') ≡ false = ground arith in
    rw (here, here')
      (ap (λ os. write (one_byte (m i)) ∷ os)
        (draw_text-away n (i + 1) pos pos' t m (omega arith) (omega arith)))

-- The cursor is away from a line that it does not stand in.
away :
    (line : ℕ) (e : Editor)
    → IsValid e
    → IsStart e.buffer line (find_line_start line e)
    → line ≢ (cursor_at e).0
    → (let start = find_line_start line e in
        let end = find_line_end_from_start start e in (e.cursor_pos < start) ⊎ (end < e.cursor_pos))
away line e v st ne =
    let start = find_line_start line e in
    let end = find_line_end_from_start start e in
    let outside : (leb start e.cursor_pos && leb e.cursor_pos end) ≡ false =
      between_iff line e v st ∙ ne→== _ _ ne in
    ground arith

not_among :
    (pos start end : ℕ)
    → start ≤ end
    → (pos < start) ⊎ (end < pos)
    → (pos < start) ⊎ (start + (end - start) ≤ pos)
not_among pos start end le (inl before) = inl before
not_among pos start end le (inr behind) = inr (omega arith)

line_there :
    (line : ℕ) (e : Editor) → line ≤ last_line e → IsStart e.buffer line (find_line_start line e)
line_there line e le = elim (find_line_start-Finds line e) [
  | inl st ↦ st
  | inr (stop, few) ↦ absurd (omega arith)
]

-- When the cursor moves to another place in the text, and the text and the first line on the screen stay
-- as they are, the row of each line of the text that it neither leaves nor comes to is drawn with the
-- same calls as before.
pub redraw_line-move :
    (line pos : ℕ) (e : Editor) (t : Theme)
    → IsValid e
    → pos ≤ e.buffer_len
    → line ≤ last_line e
    → line ≢ (cursor_at e).0
    → line ≢ (compute_cursor_line_col pos e).0
    → redraw_line line (record e { cursor_pos = pos }) t ≡ redraw_line line e t
unfolding redraw_line find_line_start find_line_end_from_start compute_cursor_line_col
redraw_line-move line pos e t v le there ne ne' =
    let moved : Editor = record e { cursor_pos = pos } in
    let start = find_line_start line e in
    let end = find_line_end_from_start start e in
    let st = line_there line e there in
    let out = away line e v st ne in
    let out' = away line moved (record { cursor = le; room = v.room }) st ne' in
    let from = find_line_end_from_start-from start e in
    let last : (e.cursor_pos == end) ≡ false = ground arith in
    let last' : (pos == end) ≡ false = ground arith in
    let text =
      draw_text-away (end - start) start pos e.cursor_pos t e.buffer
        (not_among pos start end from out') (not_among e.cursor_pos start end from out) in
    rw (last, last', text) refl
