-- ===== src/Keyboard/Typed.antt =====
-- keyboard_driver.c: which characters `keyboard_callback` puts in the buffer.
use os.Base.{
  ℕ, eq-cases, subst, ◌-◌, ◌<◌, ◌≡◌, ◌≢◌, refl, Bool, true, false, not, ◌&&◌, ◌||◌, arith, ◌==◌,
  ◌!=◌, if◌then◌else◌, get_or, bit_and, Bool-cases, inl, inr, ◌⊎◌,
}
use mathlib.Core.Bool.{xor}
use os.Base.Table.{all_below, all_below_sound}
use os.Keyboard.{
  Keyboard, scancode_to_ascii, buffer_put, is_lower, map_scancode_to_char, with_ctrl, arrow,
  keyboard_callback, key_up, key_down, key_left, key_right,
}
use os.Keyboard.Keys.{low_bits, high_bit}
use os.Keyboard.Buffer.{IsValid, queued, enqueue, buffer_put-IsValid, queued-buffer_put}

-- The key `sc` types a letter.
abbrev pub is_letter : ℕ → Bool
is_letter sc = is_lower (get_or scancode_to_ascii sc 0)

-- The character of a letter's key: a control code under `Ctrl`, a capital under `Shift` or
-- `Caps Lock`.
pub letter : (shift caps ctrl : Bool) → ℕ → ℕ
letter shift caps ctrl sc =
    let a = get_or scancode_to_ascii sc 0 in
    if ctrl then a - 96 else if shift || caps then a - 32 else a

agrees : (shift caps ctrl : Bool) → ℕ → Bool
agrees shift caps ctrl sc =
    not (is_letter sc)
    || (let c = map_scancode_to_char shift caps sc in
        c != 0 && (with_ctrl ctrl c == letter shift caps ctrl sc))

agrees_all : (shift caps ctrl : Bool) → all_below 128 (agrees shift caps ctrl) ≡ true
unfolding all_below agrees letter map_scancode_to_char with_ctrl xor
agrees_all true true true = refl
agrees_all true true false = refl
agrees_all true false true = refl
agrees_all true false false = refl
agrees_all false true true = refl
agrees_all false true false = refl
agrees_all false false true = refl
agrees_all false false false = refl

-- No modifier's key types a letter.
plain_all :
    all_below 128
      (λ sc. not (is_letter sc && (sc == 0x1D || sc == 0x2A || sc == 0x36 || sc == 0x3A)))
    ≡ true
unfolding all_below
plain_all = refl

letter_agrees :
    (shift caps ctrl : Bool) (sc : ℕ)
    → sc < 128
    → is_letter sc ≡ true
    → (map_scancode_to_char shift caps sc ≢ 0)
      × (with_ctrl ctrl (map_scancode_to_char shift caps sc) ≡ letter shift caps ctrl sc)
unfolding agrees
letter_agrees shift caps ctrl sc h l =
    let t = all_below_sound 128 (agrees shift caps ctrl) (agrees_all shift caps ctrl) sc h in
    ground (arith, l)

letter_plain :
    (sc : ℕ)
    → sc < 128
    → is_letter sc ≡ true
    → (sc ≢ 0x1D) × (sc ≢ 0x2A) × (sc ≢ 0x36) × (sc ≢ 0x3A)
letter_plain sc h l = let t = all_below_sound 128 _ plain_all sc h in ground (arith, l)

-- What a byte from the keyboard may do to the buffer.
pub record TypesAtMostOne (code : ℕ) (k k' : Keyboard) : Type 0 where
  pub valid : IsValid k'
  pub typed :
      (queued k' ≡ queued k)
      ⊎ ((c : ℕ) × (code < 128) × (c ≢ 0) × (queued k' ≡ enqueue c (queued k)))

puts :
    {k : Keyboard} (code c : ℕ)
    → IsValid k
    → code < 128
    → c ≢ 0
    → TypesAtMostOne code k (buffer_put c k)
puts code c v h ne = record {
  valid = buffer_put-IsValid c v;
  typed = inr (c, h, ne, queued-buffer_put c v);
}

-- The modifiers do not touch the buffer.
shares :
    {k k1 k2 : Keyboard} {code : ℕ}
    → k1.key_buffer ≡ k.key_buffer
    → k1.buffer_head ≡ k.buffer_head
    → k1.buffer_tail ≡ k.buffer_tail
    → TypesAtMostOne code k1 k2
    → TypesAtMostOne code k k2
shares {k} {k1} {k2} {code} b h t types = record {
  valid = types.valid;
  typed =
      let same : queued k1 ≡ queued k = rw (b, h, t) refl in
      subst (λ q. (queued k2 ≡ q) ⊎ ((c : ℕ) × (code < 128) × (c ≢ 0) × (queued k2 ≡ enqueue c q)))
        same types.typed;
}

stays :
    {k k' : Keyboard} (code : ℕ)
    → k'.key_buffer ≡ k.key_buffer
    → k'.buffer_head ≡ k.buffer_head
    → k'.buffer_tail ≡ k.buffer_tail
    → IsValid k
    → TypesAtMostOne code k k'
stays {k} {k'} code b h t v =
    let v' : IsValid k' = record {
      size = rw b v.size;
      head_in = rw h v.head_in;
      tail_in = rw t v.tail_in;
    } in
    shares {k = k} {k1 = k'} b h t (record { valid = v'; typed = inl refl })

cleared : (k : Keyboard) → IsValid k → IsValid (record k { extended = false })
cleared k v = record { size = v.size; head_in = v.head_in; tail_in = v.tail_in }

arrow_types :
    {k : Keyboard} (code sc : ℕ) → IsValid k → code < 128 → TypesAtMostOne code k (arrow sc k)
unfolding arrow
arrow_types code sc v h = ground (
  arith,
  puts code key_up v h (omega arith),
  puts code key_down v h (omega arith),
  puts code key_left v h (omega arith),
  puts code key_right v h (omega arith),
  stays code refl refl refl v,
)

with_ctrl-ne : (ctrl : Bool) (c : ℕ) → c ≢ 0 → with_ctrl ctrl c ≢ 0
unfolding with_ctrl
with_ctrl-ne ctrl c h = ground arith

-- The byte is a prefix, a modifier or a release.
quiet : ℕ → Bool
quiet code =
    let release = bit_and code 0x80 != 0 in
    let sc = bit_and code 0x7F in
    code == 0xE0 || sc == 0x1D || sc == 0x2A || sc == 0x36 || (sc == 0x3A && not release) || release

quiet-keyboard_callback :
    (code : ℕ) (k : Keyboard)
    → quiet code ≡ true
    → let k' = keyboard_callback code k in
      (k'.key_buffer ≡ k.key_buffer)
      × (k'.buffer_head ≡ k.buffer_head)
      × (k'.buffer_tail ≡ k.buffer_tail)
unfolding keyboard_callback quiet
quiet-keyboard_callback code k q = ground arith

loud-keyboard_callback :
    (code : ℕ) (k : Keyboard)
    → quiet code ≡ false
    → keyboard_callback code k ≡ (
        let sc = bit_and code 0x7F in
        if k.extended
        then arrow sc (record k { extended = false })
        else let c = map_scancode_to_char k.shift_pressed k.caps_lock sc in
          if c == 0 then k else buffer_put (with_ctrl k.ctrl_pressed c) k)
unfolding keyboard_callback quiet
loud-keyboard_callback code k q = ground arith

loud-lt : (code : ℕ) → code < 256 → quiet code ≡ false → code < 128
unfolding quiet
loud-lt code h q = ground (arith, high_bit code h)

-- After any byte from the keyboard the buffer is well formed, and it holds what it held, or on a
-- key press one more character, not 0, behind that (unless it was full).
pub keyboard_callback-TypesAtMostOne :
    (code : ℕ) (k : Keyboard)
    → code < 256
    → IsValid k
    → TypesAtMostOne code k (keyboard_callback code k)
keyboard_callback-TypesAtMostOne code k h v =
    let sc = bit_and code 0x7F in
    let c = map_scancode_to_char k.shift_pressed k.caps_lock sc in
    elim (Bool-cases (quiet code)) [
      | inl q ↦ let (b, hd, tl) = quiet-keyboard_callback code k q in stays code b hd tl v
      | inr q ↦
          let press = loud-lt code h q in
          let loud = loud-keyboard_callback code k q in
          elim (Bool-cases k.extended) [
            | inl e ↦
                subst (TypesAtMostOne code k) (ground arith)
                  (shares refl refl refl (arrow_types code sc (cleared k v) press))
            | inr e ↦ elim (eq-cases c 0) [
              | inl z ↦
                  subst (TypesAtMostOne code k) (ground arith)
                    (stays {k' = k} code refl refl refl v)
              | inr ne ↦ subst (TypesAtMostOne code k) (ground arith) (
                  puts code (with_ctrl k.ctrl_pressed c) v press (with_ctrl-ne k.ctrl_pressed c ne))
            ]
          ]
    ]

-- The press of a letter's key without the prefix 0xE0 types that letter: a control code under
-- `Ctrl`, else a capital under `Shift` or `Caps Lock`, else the small letter.
pub keyboard_callback-letter :
    (code : ℕ) (k : Keyboard)
    → code < 128
    → is_letter code ≡ true
    → k.extended ≡ false
    → IsValid k
    → queued (keyboard_callback code k)
      ≡ enqueue (letter k.shift_pressed k.caps_lock k.ctrl_pressed code) (queued k)
unfolding keyboard_callback
keyboard_callback-letter code k h l e v =
    let facts = letter_agrees k.shift_pressed k.caps_lock k.ctrl_pressed code h l in
    let plain = letter_plain code h l in
    let put = queued-buffer_put (letter k.shift_pressed k.caps_lock k.ctrl_pressed code) v in
    ground (arith, low_bits code (omega arith), high_bit code (omega arith))
