-- ===== src/Xedit/Typing.antt =====
-- user_programs/xedit.c: what the keys of a session make of the text.
use os.Base.{
  ℕ, zero, suc, ◌+◌, ◌-◌, ◌≤◌, ◌<◌, ◌≡◌, ◌≢◌, refl, ◌∙◌, ap, ap₂, sym, subst, append-nil,
  append_assoc, arith, Option, none, some, List, [], ◌∷◌, ◌++◌, length, leb, ltb, false, Bool-cases,
  inl, inr, ◌⊎◌,
}
use mathlib.Core.Option.{map}
use os.Strings.{Bytes}
use os.Syscall.{bytes_at}
use os.Xedit.{
  Editor, compute_cursor_line_col, insert_at_cursor, ensure_cursor_visible, switch_key, edit_key,
}
use os.Xedit.Editing.{IsValid, slice, before, behind, insert_at_cursor_lem}
use os.Xedit.Keys.{ensure_cursor_visible_lem}
use os.Xedit.Files.{text_of}

-- A key that is dropped leaves the editor as it is.
abbrev pub kept : Option Editor → Editor → Editor
kept none e = e
kept (some e') e = e'

-- The keys in their order, without those that end the session or save.
unfoldable pub typed : List ℕ → Editor → Editor
typed [] e = e
typed (c ∷ cs) e = typed cs (kept (edit_key c e) e)

abbrev pub IsPrinted : ℕ → Type 0
IsPrinted c = (32 ≤ c) × (c ≢ 127) × ((c < 0x81) ⊎ (0x84 < c))

abbrev pub ArePrinted : List ℕ → Type 0
ArePrinted [] = Unit
ArePrinted (c ∷ cs) = IsPrinted c × ArePrinted cs

edit_key-printed :
    (c : ℕ) (e : Editor)
    → IsPrinted c
    → edit_key c e ≡ some (ensure_cursor_visible (insert_at_cursor c e))
unfolding edit_key switch_key
edit_key-printed c e (low, del, arrows) =
    let chosen : switch_key c e ≡ some (insert_at_cursor c e) = ground arith in
    ap (map ensure_cursor_visible) chosen

ensure_cursor_visible-text :
    (e : Editor)
    → (before (ensure_cursor_visible e) ≡ before e)
      × (behind (ensure_cursor_visible e) ≡ behind e)
      × ((ensure_cursor_visible e).buffer_len ≡ e.buffer_len)
unfolding ensure_cursor_visible
ensure_cursor_visible-text e =
    let line = (compute_cursor_line_col e.cursor_pos e).0 in
    elim (Bool-cases (ltb line e.scroll_line)) [
      | inl up ↦ rw up (refl, refl, refl)
      | inr from ↦ elim (Bool-cases (leb (e.scroll_line + 27) line)) [
        | inl down ↦ rw (from, down) (refl, refl, refl)
        | inr seen ↦ rw (from, seen) (refl, refl, refl)
      ]
    ]

insert_at_cursor-len :
    (c : ℕ) (e : Editor)
    → e.buffer_len + 1 < 131072
    → (insert_at_cursor c e).buffer_len ≡ e.buffer_len + 1
unfolding insert_at_cursor
insert_at_cursor-len c e room =
    let fits : leb 131072 (e.buffer_len + 1) ≡ false = ground arith in rw fits refl

-- Keys that print go into the text in front of the cursor, in their order, as long as there is room.
pub typed-printed :
    (cs : List ℕ) (e : Editor)
    → ArePrinted cs
    → IsValid e
    → e.buffer_len + length cs < 131072
    → IsValid (typed cs e)
      × (before (typed cs e) ≡ before e ++ cs)
      × (behind (typed cs e) ≡ behind e)
unfolding typed
typed-printed [] e printed v room = (v, sym (append-nil (before e)), refl)
typed-printed (c ∷ cs) e (first, printed) v room =
    let chosen = edit_key-printed c e first in
    let put = insert_at_cursor c e in
    let (valid, front, back) = insert_at_cursor_lem c e v (omega arith) in
    let (front', back', len) = ensure_cursor_visible-text put in
    let seen = ensure_cursor_visible_lem put valid in
    let more = insert_at_cursor-len c e (omega arith) in
    let (valid', typed_front, typed_back) =
      typed-printed cs (ensure_cursor_visible put) printed seen.0 (omega arith) in
    let next : typed cs (ensure_cursor_visible put) ≡ typed (c ∷ cs) e =
      ap (λ o. typed cs (kept o e)) (sym chosen) in
    subst (λ r. IsValid r × (before r ≡ before e ++ (c ∷ cs)) × (behind r ≡ behind e)) next
      (
        valid',
        typed_front ∙ ap (λ b. b ++ cs) (front' ∙ front) ∙ append_assoc (before e) (c ∷ []) cs,
        typed_back ∙ back' ∙ back,
      )

-- The text is what stands before and behind the cursor.
slice-text : (n i : ℕ) (m : Bytes) → bytes_at n i m ≡ slice m i n
unfolding bytes_at
slice-text zero i m = refl
slice-text (suc n) i m = ap (λ t. m i ∷ t) (slice-text n (i + 1) m)

slice-split : (a b i : ℕ) (m : Bytes) → slice m i (a + b) ≡ slice m i a ++ slice m (i + a) b
slice-split zero b i m = ap₂ (slice m) (omega arith) (omega arith)
slice-split (suc a) b i m =
    let len : suc a + b ≡ suc (a + b) = omega arith in
    let from : i + suc a ≡ i + 1 + a = omega arith in
    ap (slice m i) len
    ∙ ap (λ t. m i ∷ t) (slice-split a b (i + 1) m)
    ∙ ap (λ j. slice m i (suc a) ++ slice m j b) (sym from)

pub text_of-cursor : (e : Editor) → IsValid e → text_of e ≡ before e ++ behind e
text_of-cursor e v =
    let len : e.buffer_len ≡ e.cursor_pos + (e.buffer_len - e.cursor_pos) =
      omega (arith, v.cursor) in
    slice-text e.buffer_len 0 e.buffer
    ∙ ap (slice e.buffer 0) len
    ∙ slice-split e.cursor_pos (e.buffer_len - e.cursor_pos) 0 e.buffer
    ∙ ap (λ j. before e ++ slice e.buffer j (e.buffer_len - e.cursor_pos)) (omega arith)

pub text_of-typed :
    (cs : List ℕ) (e : Editor)
    → ArePrinted cs
    → IsValid e
    → e.buffer_len + length cs < 131072
    → text_of (typed cs e) ≡ (before e ++ cs) ++ behind e
text_of-typed cs e printed v room =
    let (valid, front, back) = typed-printed cs e printed v room in
    text_of-cursor (typed cs e) valid ∙ ap₂ (λ a b. a ++ b) front back
