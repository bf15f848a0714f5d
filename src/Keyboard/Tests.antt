-- ===== src/Keyboard/Tests.antt =====
-- Examples of the keyboard's handler and queue.
use os.Base.{◌≡◌, refl, true, false, [], ◌∷◌, arith, replicate, set}
use os.Keyboard.{Keyboard, buffer_put, map_scancode_to_char, with_ctrl, keyboard_callback}
use os.Keyboard.Buffer.{IsValid, queued, enqueue, queued-buffer_put}
use os.Keyboard.Typed.{
  TypesAtMostOne, letter, keyboard_callback-TypesAtMostOne, keyboard_callback-letter,
}

-- `Shift` is held, one character waits, and the next index is the first one.
abbrev waiting : Keyboard
waiting = record {
  shift_pressed = true;
  caps_lock = false;
  ctrl_pressed = false;
  extended = false;
  key_buffer = set (replicate 256 0) 255 b'x';
  buffer_head = 0;
  buffer_tail = 255;
}

waiting-IsValid : IsValid waiting
waiting-IsValid = record { size = refl; head_in = omega arith; tail_in = omega arith }

queued-waiting : queued waiting ≡ b'x' ∷ []
queued-waiting = refl

queued-buffer_put_example : queued (buffer_put b'y' waiting) ≡ enqueue b'y' (queued waiting)
queued-buffer_put_example = queued-buffer_put {k = waiting} b'y' waiting-IsValid

-- Scancode 0x1E is the key of the letter `a`.
keyboard_callback-letter_example :
    queued (keyboard_callback 0x1E waiting)
    ≡ enqueue (letter true false false 0x1E) (queued waiting)
keyboard_callback-letter_example =
    keyboard_callback-letter 0x1E waiting (omega arith) refl refl waiting-IsValid

typed_a : queued (keyboard_callback 0x1E waiting) ≡ b'x' ∷ b'A' ∷ []
unfolding keyboard_callback map_scancode_to_char with_ctrl buffer_put
typed_a = refl

keyboard_callback-TypesAtMostOne_example :
    TypesAtMostOne 0x9E waiting (keyboard_callback 0x9E waiting)
keyboard_callback-TypesAtMostOne_example =
    keyboard_callback-TypesAtMostOne 0x9E waiting (omega arith) waiting-IsValid
