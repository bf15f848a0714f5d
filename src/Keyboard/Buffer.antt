-- ===== src/Keyboard/Buffer.antt =====
-- keyboard_driver.c: the ring buffer as a queue of at most 255 characters.
use os.Base.{
  ℕ, zero, suc, ◌+◌, ◌-◌, ◌%◌, ◌<◌, ◌≡◌, refl, ap, ap₂, List, [], ◌∷◌, ◌++◌, Option, none, some,
  arith, ltb, if◌then◌else◌, length, get_or, set, length-set, get_or-set_self, get_or-set_ne,
  eq-cases, ne→==, eq→==, lt→ltb, inl, inr,
}
use os.Keyboard.{Keyboard, buffer_put, buffer_get, keyboard_getchar}

pub record IsValid (k : Keyboard) : Type 0 where
  pub size : length k.key_buffer ≡ 256
  pub head_in : k.buffer_head < 256
  pub tail_in : k.buffer_tail < 256

-- The `n` characters from index `t` on, round the end of the buffer.
abbrev pub window : List ℕ → ℕ → ℕ → List ℕ
window buf t zero = []
window buf t (suc n) = get_or buf t 0 ∷ window buf ((t + 1) % 256) n

-- The number of characters in the buffer.
abbrev pub count : Keyboard → ℕ
count k = (k.buffer_head + 256 - k.buffer_tail) % 256

-- The characters that were put and not yet taken, the oldest first.
abbrev pub queued : Keyboard → List ℕ
queued k = window k.key_buffer k.buffer_tail (count k)

length-window : (buf : List ℕ) (t n : ℕ) → length (window buf t n) ≡ n
length-window buf t zero = refl
length-window buf t (suc n) = ap suc (length-window buf ((t + 1) % 256) n)

-- A write just behind a window makes it longer by what is written.
window-set :
    (buf : List ℕ) (t n i c : ℕ)
    → length buf ≡ 256
    → t < 256
    → n < 256
    → i ≡ (t + n) % 256
    → window (set buf i c) t (suc n) ≡ window buf t n ++ (c ∷ [])
window-set buf t zero i c size ht hn e =
    let e' : i ≡ t = omega arith in
    rw e' (ap (λ x. x ∷ []) (get_or-set_self buf t c 0 (omega arith)))
window-set buf t (suc n) i c size ht hn e =
    ap₂ ◌∷◌ (get_or-set_ne buf i t c 0 (omega arith))
      (window-set buf ((t + 1) % 256) n i c size (omega arith) (omega arith) (omega arith))

window_of_pos :
    (buf : List ℕ) (t n : ℕ)
    → 0 < n
    → window buf t n ≡ get_or buf t 0 ∷ window buf ((t + 1) % 256) (n - 1)
window_of_pos buf t zero h = absurd (omega arith)
window_of_pos buf t (suc n) h = ap (λ k. window buf t (suc k)) (omega arith)

-- A queue that takes no more than 255 characters.
unfoldable pub enqueue : ℕ → List ℕ → List ℕ
enqueue c q = if ltb (length q) 255 then q ++ (c ∷ []) else q

-- The next character of a queue, with the rest.
unfoldable pub dequeue : List ℕ → Option (ℕ × List ℕ)
dequeue [] = none
dequeue (c ∷ q) = some (c, q)

pub buffer_put-IsValid : {k : Keyboard} (c : ℕ) → IsValid k → IsValid (buffer_put c k)
unfolding buffer_put
buffer_put-IsValid {k} c v = ground (arith, length-set k.key_buffer k.buffer_head c)

-- `buffer_put` puts the character at the end of the queue, unless the queue is full.
pub queued-buffer_put :
    {k : Keyboard} (c : ℕ) → IsValid k → queued (buffer_put c k) ≡ enqueue c (queued k)
unfolding buffer_put enqueue
queued-buffer_put {k} c v =
    let n = count k in
    let long = length-window k.key_buffer k.buffer_tail n in
    elim (eq-cases ((k.buffer_head + 1) % 256) k.buffer_tail) [
      | inl full ↦ ground arith
      | inr room ↦
          let more : ((k.buffer_head + 1) % 256 + 256 - k.buffer_tail) % 256 ≡ suc n =
            omega arith in
          let fits : n < 255 = omega arith in
          rw (ne→== _ _ room, more, long, lt→ltb n 255 fits)
            (window-set k.key_buffer k.buffer_tail n k.buffer_head c v.size v.tail_in (omega arith)
              (omega arith))
    ]

pub keyboard_getchar-IsValid :
    {k : Keyboard} {c : ℕ} {k' : Keyboard}
    → IsValid k
    → keyboard_getchar k ≡ some (c, k')
    → IsValid k'
unfolding keyboard_getchar buffer_get
keyboard_getchar-IsValid {k} v h = ground arith

-- What `keyboard_getchar` leaves in the queue.
abbrev pub taken : Option (ℕ × Keyboard) → Option (ℕ × List ℕ)
taken none = none
taken (some (c, k)) = some (c, queued k)

-- `keyboard_getchar` takes the oldest character, and waits exactly while the queue is empty.
pub queued-keyboard_getchar :
    {k : Keyboard} → IsValid k → taken (keyboard_getchar k) ≡ dequeue (queued k)
unfolding keyboard_getchar buffer_get dequeue
queued-keyboard_getchar {k} v = elim (eq-cases k.buffer_head k.buffer_tail) [
  | inl empty ↦ let none_left : count k ≡ 0 = omega arith in rw (eq→== _ _ empty, none_left)
  | inr there ↦
      let fewer : (k.buffer_head + 256 - (k.buffer_tail + 1) % 256) % 256 ≡ count k - 1 =
        omega arith in
      rw (ne→== _ _ there, window_of_pos k.key_buffer k.buffer_tail (count k) (omega arith), fewer)
]
