-- ===== src/Keyboard/Keys.antt =====
-- keyboard_driver.c: what `keyboard_callback` makes of each scancode.
use os.Base.{
  ℕ, ◌%◌, ◌<◌, ◌≡◌, refl, true, false, not, ◌||◌, arith, leb, ◌==◌, if◌then◌else◌, bit_and, ==_iff,
}
use os.Base.Table.{all_below, all_below_sound}
use os.Keyboard.{Keyboard, buffer_put, map_scancode_to_char, with_ctrl, arrow, keyboard_callback}

low_table : all_below 256 (λ c. bit_and c 0x7F == c % 128) ≡ true
unfolding all_below
low_table = refl

pub low_bits : (code : ℕ) → code < 256 → bit_and code 0x7F ≡ code % 128
low_bits code h = (==_iff _ _).0 (all_below_sound 256 _ low_table code h)

high_table : all_below 256 (λ c. bit_and c 0x80 == (if leb 128 c then 128 else 0)) ≡ true
unfolding all_below
high_table = refl

pub high_bit : (code : ℕ) → code < 256 → bit_and code 0x80 ≡ (if leb 128 code then 128 else 0)
high_bit code h = (==_iff _ _).0 (all_below_sound 256 _ high_table code h)

-- What `buffer_put` leaves alone.
pub record SameFlags (k k' : Keyboard) : Type 0 where
  pub shift : k'.shift_pressed ≡ k.shift_pressed
  pub caps : k'.caps_lock ≡ k.caps_lock
  pub ctrl : k'.ctrl_pressed ≡ k.ctrl_pressed
  pub ext : k'.extended ≡ k.extended

buffer_put-SameFlags : (c : ℕ) (k : Keyboard) → SameFlags k (buffer_put c k)
unfolding buffer_put
buffer_put-SameFlags c k = ground arith

arrow-SameFlags : (sc : ℕ) (k : Keyboard) → SameFlags k (arrow sc k)
unfolding arrow
arrow-SameFlags sc k = ground (
  arith,
  buffer_put-SameFlags 0x81 k,
  buffer_put-SameFlags 0x82 k,
  buffer_put-SameFlags 0x83 k,
  buffer_put-SameFlags 0x84 k,
)

module _ (code : ℕ) (k : Keyboard) (byte : code < 256) where
  keyboard_callback_extended : (keyboard_callback code k).extended ≡ (code == 0xE0)
  unfolding keyboard_callback
  keyboard_callback_extended =
      let sc = bit_and code 0x7F in
      ground (
        arith,
        low_bits code byte,
        high_bit code byte,
        arrow-SameFlags sc (record k { extended = false }),
        buffer_put-SameFlags
            (with_ctrl k.ctrl_pressed (map_scancode_to_char k.shift_pressed k.caps_lock sc)) k,
      )

  keyboard_callback_ctrl :
      (keyboard_callback code k).ctrl_pressed
      ≡ (if code == 0x1D then true else if code == 0x9D then false else k.ctrl_pressed)
  unfolding keyboard_callback
  keyboard_callback_ctrl =
      let sc = bit_and code 0x7F in
      ground (
        arith,
        low_bits code byte,
        high_bit code byte,
        arrow-SameFlags sc (record k { extended = false }),
        buffer_put-SameFlags
            (with_ctrl k.ctrl_pressed (map_scancode_to_char k.shift_pressed k.caps_lock sc)) k,
      )

  keyboard_callback_shift : (keyboard_callback code k).shift_pressed ≡ (
      if code == 0x2A || code == 0x36
      then true
      else if code == 0xAA || code == 0xB6
      then false
      else k.shift_pressed)
  unfolding keyboard_callback
  keyboard_callback_shift =
      let sc = bit_and code 0x7F in
      ground (
        arith,
        low_bits code byte,
        high_bit code byte,
        arrow-SameFlags sc (record k { extended = false }),
        buffer_put-SameFlags
            (with_ctrl k.ctrl_pressed (map_scancode_to_char k.shift_pressed k.caps_lock sc)) k,
      )

  keyboard_callback_caps :
      (keyboard_callback code k).caps_lock ≡ (if code == 0x3A then not k.caps_lock else k.caps_lock)
  unfolding keyboard_callback
  keyboard_callback_caps =
      let sc = bit_and code 0x7F in
      ground (
        arith,
        low_bits code byte,
        high_bit code byte,
        arrow-SameFlags sc (record k { extended = false }),
        buffer_put-SameFlags
            (with_ctrl k.ctrl_pressed (map_scancode_to_char k.shift_pressed k.caps_lock sc)) k,
      )

  -- The flags after a byte from the keyboard: `extended` tells that it was the prefix 0xE0, and
  -- each modifier follows its own key, whatever the prefix.
  pub keyboard_callback_flags :
      let k' = keyboard_callback code k in
      (k'.extended ≡ (code == 0xE0))
      × (k'.ctrl_pressed
          ≡ (if code == 0x1D then true else if code == 0x9D then false else k.ctrl_pressed))
      × (k'.shift_pressed ≡ (
          if code == 0x2A || code == 0x36
          then true
          else if code == 0xAA || code == 0xB6
          then false
          else k.shift_pressed))
      × (k'.caps_lock ≡ (if code == 0x3A then not k.caps_lock else k.caps_lock))
  keyboard_callback_flags = (
    keyboard_callback_extended, keyboard_callback_ctrl, keyboard_callback_shift,
    keyboard_callback_caps,
  )
