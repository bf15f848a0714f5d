-- ===== src/Idt/Tests.antt =====
-- Examples of the interrupt descriptor table.
use os.Base.{ℕ, ◌+◌, ◌*◌, ◌%◌, ◌^◌, List, replicate}
use os.Idt.{IdtEntry}
use os.Idt.Gates.{empty_entry}

abbrev idt : List IdtEntry
idt = replicate 256 empty_entry

abbrev isr : ℕ → ℕ
isr k = (0x10_0000 + k * 16) % 2 ^ 32

abbrev irq : ℕ → ℕ
irq k = (0x10_2000 + k * 16) % 2 ^ 32
