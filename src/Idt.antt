-- ===== src/Idt.antt =====
-- idt.c: the interrupt descriptor table and the handlers of the hardware's interrupts. The addresses
-- of the entry points of boot.asm are parameters: `isr n` and `irq n`.
pub mod Gates
mod Tests
use os.Base.{
  ℕ, zero, suc, ◌+◌, ◌-◌, ◌*◌, ◌%◌, ◌/◌, ◌^◌, Bool, true, false, Option, none, some, List, [], ◌∷◌,
  ◌++◌, bit_and, bit_or, leb, ltb, ◌==◌, if◌then◌else◌, get_or, set,
}

pub record IdtEntry : Type 0 where
  pub base_low : ℕ
  pub selector : ℕ
  pub zero_byte : ℕ
  pub flags : ℕ
  pub base_high : ℕ

pub idt_set_gate : (num base sel flags : ℕ) → List IdtEntry → List IdtEntry
idt_set_gate num base sel flags idt = set idt num (record {
  base_low = bit_and base 0xFFFF;
  base_high = bit_and (base / 2 ^ 16) 0xFFFF;
  zero_byte = 0;
  selector = sel;
  flags = flags;
})

-- Calls of `idt_set_gate` in a row: the gates from `num` on, with the entry points from `line` on.
pub set_gates : (rounds num line : ℕ) → (ℕ → ℕ) → List IdtEntry → List IdtEntry
set_gates zero num line stub idt = idt
set_gates (suc rounds) num line stub idt =
    set_gates rounds (num + 1) (line + 1) stub (idt_set_gate num (stub line) 0x08 0x8E idt)

pub isrs_install : (ℕ → ℕ) → List IdtEntry → List IdtEntry
isrs_install isr idt = idt_set_gate 0x80 (isr 128) 0x08 0xEE (set_gates 32 0 0 isr idt)

-- A write of a byte to a port.
pub record PortWrite : Type 0 where
  pub port : ℕ
  pub value : ℕ

abbrev pub out : ℕ → ℕ → PortWrite
out port value = record { port = port; value = value }

pub irq_remap : List PortWrite
irq_remap =
    out 0x20 0x11
    ∷ out 0xA0 0x11
    ∷ out 0x21 0x20
    ∷ out 0xA1 0x28
    ∷ out 0x21 0x04
    ∷ out 0xA1 0x02
    ∷ out 0x21 0x01
    ∷ out 0xA1 0x01
    ∷ out 0x21 0
    ∷ out 0xA1 0
    ∷ []

pub irq_install : (ℕ → ℕ) → List IdtEntry → List IdtEntry
irq_install irq idt = set_gates 15 33 1 irq (idt_set_gate 32 (irq 0) 0x08 (bit_or 0x8E 0x60) idt)

-- `idt_init` without the pointer to the table, which `idt_load` reads: the port writes and the table.
pub idt_init : (isr irq : ℕ → ℕ) → List IdtEntry → List PortWrite × List IdtEntry
idt_init isr irq idt = (irq_remap, irq_install irq (isrs_install isr idt))

module _ {Handler : Type 0} where
  pub irq_install_handler : ℕ → Handler → List (Option Handler) → List (Option Handler)
  irq_install_handler irq handler routines = set routines irq (some handler)

  pub irq_uninstall_handler : ℕ → List (Option Handler) → List (Option Handler)
  irq_uninstall_handler irq routines = set routines irq none

  -- The handler that `irq_handler` calls, and the port writes behind that call.
  pub irq_handler : (int_no : ℕ) → List (Option Handler) → Option Handler × List PortWrite
  irq_handler int_no routines = (
    get_or routines (int_no - 32) none,
    (if leb 40 int_no then out 0xA0 0x20 ∷ [] else []) ++ (out 0x20 0x20 ∷ []),
  )
