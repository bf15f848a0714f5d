-- ===== src/Ucall/Keys.antt =====
-- user_programs/syscall.h, syscall.c and keyboard_driver.c: from the interrupt of the keyboard to
-- `syscall_readchar` of a program.
use os.Base.{
  ℕ, ◌+◌, ◌%◌, ◌≤◌, ◌<◌, ◌≡◌, refl, ◌∙◌, sym, ap, arith, some, List, [], ◌∷◌, ◌++◌, append-nil,
  append_assoc, length, length-append, ltb, true, Option-cases, inl, inr,
}
use os.Fat.{FatFs}
use os.Keyboard.{Keyboard, buffer_put, keyboard_getchar}
use os.Keyboard.Buffer.{
  IsValid, queued, enqueue, dequeue, taken, buffer_put-IsValid, queued-buffer_put,
  keyboard_getchar-IsValid, queued-keyboard_getchar,
}
use os.Syscall.{Regs, Kernel}
use os.Ucall.{readchar, answers, call}
use os.Ucall.Meaning.{meaning, call-meaning}

-- The characters of the interrupts, in their order.
pub put_all : List ℕ → Keyboard → Keyboard
put_all [] kb = kb
put_all (c ∷ cs) kb = put_all cs (buffer_put c kb)

abbrev pub AreChars : List ℕ → Type 0
AreChars [] = Unit
AreChars (c ∷ cs) = (c < 256) × AreChars cs

enqueue-room : (c : ℕ) (q : List ℕ) → length q < 255 → enqueue c q ≡ q ++ (c ∷ [])
unfolding enqueue
enqueue-room c q lt = let room : ltb (length q) 255 ≡ true = ground arith in rw room refl

put_all-IsValid : (cs : List ℕ) (kb : Keyboard) → IsValid kb → IsValid (put_all cs kb)
unfolding put_all
put_all-IsValid [] kb v = v
put_all-IsValid (c ∷ cs) kb v = put_all-IsValid cs (buffer_put c kb) (buffer_put-IsValid c v)

queued-put_all :
    (cs : List ℕ) (kb : Keyboard)
    → IsValid kb
    → length (queued kb) + length cs ≤ 255
    → queued (put_all cs kb) ≡ queued kb ++ cs
unfolding put_all
queued-put_all [] kb v room = sym (append-nil (queued kb))
queued-put_all (c ∷ cs) kb v room =
    let one : queued (buffer_put c kb) ≡ queued kb ++ (c ∷ []) =
      queued-buffer_put c v ∙ enqueue-room c (queued kb) (omega arith) in
    let len : length (queued (buffer_put c kb)) ≡ length (queued kb) + 1 =
      ap length one ∙ length-append (queued kb) (c ∷ []) in
    queued-put_all cs (buffer_put c kb) (buffer_put-IsValid c v) (omega (arith, len))
    ∙ ap (λ q. q ++ cs) one
    ∙ append_assoc (queued kb) (c ∷ []) cs

module _ (F : FatFs) (fuel cwd : ℕ) (stack : ℕ → ℕ) where
  -- Calls of `syscall_readchar`, one after the other, give the characters, whatever is in the registers.
  abbrev pub Reads : List ℕ → Kernel F.State → Type 0
  Reads [] k = Unit
  Reads (c ∷ cs) k =
      (k' : Kernel F.State) × ((regs : Regs)
        → call F fuel cwd stack readchar regs k ≡ some (answers c k'))
      × Reads cs k'

  queued-Reads :
      (cs : List ℕ) (k : Kernel F.State)
      → IsValid k.keyboard
      → queued k.keyboard ≡ cs
      → AreChars cs
      → Reads cs k
  unfolding dequeue meaning
  queued-Reads [] k v q chars = tt
  queued-Reads (c ∷ cs) k v q (byte, chars) =
      let next : taken (keyboard_getchar k.keyboard) ≡ some (c, cs) =
        queued-keyboard_getchar v ∙ ap dequeue q in
      elim (Option-cases (keyboard_getchar k.keyboard)) [
        | inl e ↦ absurd (let stuck = rw e at next in cc)
        | inr ((c', kb), e) ↦
            let there = rw e at next in
            let pair : ◌≡◌ {A = ℕ × List ℕ} (c', queued kb) (c, cs) = cc in
            let same : c' % 256 ≡ c = omega (arith, ap (λ p. p.0) pair) in
            let k' : Kernel F.State = record k { keyboard = kb } in
            (
              k',
              λ regs.
                  call-meaning F fuel cwd stack readchar regs k
                  ∙ rw e (ap (λ n. some (answers n k')) same),
              queued-Reads cs k' (keyboard_getchar-IsValid v e) (ap (λ p. p.1) pair) chars,
            )
      ]

  -- Characters that the interrupts put into the ring buffer, at most 255 with those that are in it, are
  -- given to a program by as many calls of `syscall_readchar`, each once, in the order in which they came.
  pub readchar-buffer_put :
      (cs : List ℕ) (k : Kernel F.State)
      → IsValid k.keyboard
      → length (queued k.keyboard) + length cs ≤ 255
      → AreChars (queued k.keyboard ++ cs)
      → Reads (queued k.keyboard ++ cs) (record k { keyboard = put_all cs k.keyboard })
  readchar-buffer_put cs k v room chars =
      queued-Reads (queued k.keyboard ++ cs) (record k { keyboard = put_all cs k.keyboard })
        (put_all-IsValid cs k.keyboard v) (queued-put_all cs k.keyboard v room) chars
