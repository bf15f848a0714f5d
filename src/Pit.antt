-- ===== src/Pit.antt =====
-- drivers/timer/pit.c: the timer. A frequency of 0 stops the machine at the division.
use os.Base.{ℕ, ◌/◌, ◌%◌, List, [], ◌∷◌, Option, ◌==◌, if◌then◌else◌}
use os.Base.Run.{Run, done, halt}
use os.Idt.{PortWrite, out, irq_install_handler}

abbrev pub pit_frequency : ℕ
pit_frequency = 1193182

-- `outportb` takes a byte.
abbrev pub divisor_writes : (divisor : ℕ) → List PortWrite
divisor_writes divisor =
    out 0x43 0x36 ∷ out 0x40 (divisor % 256) ∷ out 0x40 (divisor / 256 % 256) ∷ []

module _ {Handler : Type 0} where
  -- The port writes, and the handlers with that of the timer.
  abbrev pub pit_init :
      (frequency : ℕ)
      → (pit_irq_handler : Handler) → List (Option Handler)
      → Run (List PortWrite × List (Option Handler))
  pit_init frequency pit_irq_handler routines =
      if frequency == 0
      then halt
      else done (
        divisor_writes (pit_frequency / frequency),
        irq_install_handler 0 pit_irq_handler routines,
      )
