-- ===== src/Idt/Gates.antt =====
-- idt.c: the table after `idt_init`, as the processor reads it, and the interrupt controllers after
-- `irq_remap`.
use os.Base.{
  ℕ, zero, suc, ◌+◌, ◌-◌, ◌*◌, ◌%◌, ◌/◌, ◌^◌, ◌≤◌, ◌<◌, ◌≡◌, refl, ◌∙◌, true, false, ◌&&◌, arith,
  List, bit_and, leb, ltb, ◌==◌, if◌then◌else◌, get_or, length, length-set, Bool-cases,
  get_or-set_self, get_or-set_ne, eq-cases, eq→==, ne→==, inl, inr,
}
use os.Base.Masks.{bit_and-mod}
use os.Idt.{IdtEntry, idt_set_gate, set_gates, isrs_install, irq_install, idt_init}

-- What the processor reads of a gate.
pub record Gate : Type 0 where
  pub address : ℕ
  pub segment : ℕ
  pub attributes : ℕ

abbrev pub empty_entry : IdtEntry
empty_entry = record { base_low = 0; selector = 0; zero_byte = 0; flags = 0; base_high = 0 }

abbrev pub read_gate : IdtEntry → Gate
read_gate e = record {
  address = e.base_high * 65536 + e.base_low;
  segment = e.selector;
  attributes = e.flags;
}

abbrev pub gate_at : List IdtEntry → ℕ → Gate
gate_at idt n = read_gate (get_or idt n empty_entry)

abbrev pub gate : ℕ → ℕ → ℕ → Gate
gate address segment attributes = record {
  address = address;
  segment = segment;
  attributes = attributes;
}

length-idt_set_gate :
    (num base sel flags : ℕ) (idt : List IdtEntry)
    → length (idt_set_gate num base sel flags idt) ≡ length idt
unfolding idt_set_gate
length-idt_set_gate num base sel flags idt = length-set idt num _

idt_set_gate_lem :
    (num base sel flags n : ℕ) (idt : List IdtEntry)
    → num < length idt
    → base < 2 ^ 32
    → gate_at (idt_set_gate num base sel flags idt) n
      ≡ (if num == n then gate base sel flags else gate_at idt n)
unfolding idt_set_gate
idt_set_gate_lem num base sel flags n idt lt hb = elim (eq-cases num n) [
  | inl e ↦
      let low : bit_and base 0xFFFF ≡ base % 65536 = bit_and-mod 16 base (omega arith) in
      let high : bit_and (base / 2 ^ 16) 0xFFFF ≡ base / 65536 % 65536 =
        bit_and-mod 16 (base / 2 ^ 16) (omega arith) in
      let sum : base / 65536 % 65536 * 65536 + base % 65536 ≡ base = omega arith in
      rw (eq→== _ _ e, ← e, get_or-set_self idt num _ empty_entry lt, low, high, sum) refl
  | inr ne ↦ rw (ne→== _ _ ne, get_or-set_ne idt num n _ empty_entry ne) refl
]

length-set_gates :
    (rounds num line : ℕ) (stub : ℕ → ℕ) (idt : List IdtEntry)
    → length (set_gates rounds num line stub idt) ≡ length idt
unfolding set_gates
length-set_gates zero num line stub idt = refl
length-set_gates (suc rounds) num line stub idt =
    length-set_gates rounds (num + 1) (line + 1) stub _
    ∙ length-idt_set_gate num (stub line) 0x08 0x8E idt

set_gates_lem :
    (rounds num line n : ℕ) (stub : ℕ → ℕ) (idt : List IdtEntry)
    → num + rounds ≤ length idt
    → ((k : ℕ) → stub k < 2 ^ 32)
    → gate_at (set_gates rounds num line stub idt) n ≡ (
        if leb num n && ltb n (num + rounds)
        then gate (stub (line + (n - num))) 0x08 0x8E
        else gate_at idt n)
unfolding set_gates
set_gates_lem zero num line n stub idt le h =
    let none : (leb num n && ltb n (num + 0)) ≡ false = ground arith in rw none refl
set_gates_lem (suc rounds) num line n stub idt le h =
    let idt' = idt_set_gate num (stub line) 0x08 0x8E idt in
    let same = length-idt_set_gate num (stub line) 0x08 0x8E idt in
    let rest = set_gates_lem rounds (num + 1) (line + 1) n stub idt' (omega arith) h in
    let here = idt_set_gate_lem num (stub line) 0x08 0x8E n idt (omega arith) (h line) in
    elim (eq-cases num n) [
      | inl e ↦
          let past : (leb (num + 1) n && ltb n (num + 1 + rounds)) ≡ false = ground arith in
          let first : (leb num n && ltb n (num + suc rounds)) ≡ true = ground arith in
          let at : line + (n - num) ≡ line = omega arith in
          let rest' = rw past at rest in
          let here' = rw (eq→== _ _ e) at here in rw (first, at) (rest' ∙ here')
      | inr ne ↦
          let range : (leb num n && ltb n (num + suc rounds))
              ≡ (leb (num + 1) n && ltb n (num + 1 + rounds)) =
            ground arith in
          let here' = rw (ne→== _ _ ne) at here in
          elim (Bool-cases (leb (num + 1) n && ltb n (num + 1 + rounds))) [
            | inl t ↦
                let at : line + 1 + (n - (num + 1)) ≡ line + (n - num) = ground arith in
                let rest' = rw (t, at) at rest in rw (range, t) rest'
            | inr f ↦ let rest' = rw f at rest in rw (range, f) (rest' ∙ here')
          ]
    ]

irq_line :
    (n : ℕ) (irq : ℕ → ℕ) (other : Gate)
    → (if leb 33 n && ltb n (33 + 15) then gate (irq (1 + (n - 33))) 0x08 0x8E else other)
      ≡ (if leb 33 n && ltb n (33 + 15) then gate (irq (n - 32)) 0x08 0x8E else other)
irq_line n irq other = elim (Bool-cases (leb 33 n && ltb n (33 + 15))) [
  | inl t ↦ let line : 1 + (n - 33) ≡ n - 32 = ground arith in rw line refl
  | inr f ↦ rw f refl
]

-- The four groups of calls, one over the other.
layers :
    {A : Type 0} (n : ℕ) (x0 isr irq timer call : A) {x1 x2 x3 x4 : A}
    → x1 ≡ (if leb 0 n && ltb n (0 + 32) then isr else x0)
    → x2 ≡ (if 0x80 == n then call else x1)
    → x3 ≡ (if 32 == n then timer else x2)
    → x4 ≡ (if leb 33 n && ltb n (33 + 15) then irq else x3)
    → x4 ≡ (
        if ltb n 32
        then isr
        else if n == 32
        then timer
        else if ltb n 48
        then irq
        else if n == 0x80
        then call
        else x0)
layers n x0 isr irq timer call h1 h2 h3 h4 = ground arith

-- After `idt_init` the 32 exceptions, the 16 hardware interrupts from vector 32 on and the system
-- call at vector 0x80 lead to their entry points in the kernel's code segment, the timer's and the
-- system call's gates open to user mode, and every other gate is as before.
pub idt_init_lem :
    (isr irq : ℕ → ℕ) (idt : List IdtEntry) (n : ℕ)
    → length idt ≡ 256
    → ((k : ℕ) → isr k < 2 ^ 32)
    → ((k : ℕ) → irq k < 2 ^ 32)
    → gate_at (idt_init isr irq idt).1 n ≡ (
        if ltb n 32
        then gate (isr n) 0x08 0x8E
        else if n == 32
        then gate (irq 0) 0x08 0xEE
        else if ltb n 48
        then gate (irq (n - 32)) 0x08 0x8E
        else if n == 0x80
        then gate (isr 128) 0x08 0xEE
        else gate_at idt n)
unfolding idt_init isrs_install irq_install
idt_init_lem isr irq idt n size hi hq =
    let idt1 = set_gates 32 0 0 isr idt in
    let idt2 = idt_set_gate 0x80 (isr 128) 0x08 0xEE idt1 in
    let idt3 = idt_set_gate 32 (irq 0) 0x08 0xEE idt2 in
    let size1 = length-set_gates 32 0 0 isr idt in
    let size2 = length-idt_set_gate 0x80 (isr 128) 0x08 0xEE idt1 in
    let size3 = length-idt_set_gate 32 (irq 0) 0x08 0xEE idt2 in
    let step1 = set_gates_lem 32 0 0 n isr idt (omega arith) hi in
    let step2 = idt_set_gate_lem 0x80 (isr 128) 0x08 0xEE n idt1 (omega arith) (hi 128) in
    let step3 = idt_set_gate_lem 32 (irq 0) 0x08 0xEE n idt2 (omega arith) (hq 0) in
    let step4 = set_gates_lem 15 33 1 n irq idt3 (omega arith) hq in
    let at : 0 + (n - 0) ≡ n = omega arith in
    let step1' = rw at at step1 in layers n _ _ _ _ _ step1' step2 step3 (step4 ∙ irq_line n irq _)
