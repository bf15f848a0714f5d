-- ===== src/Task/Tests.antt =====
-- The way to user mode with every page mapped.
use os.Base.{ℕ, ◌<◌, ◌≡◌, refl, arith, some, replicate}
use os.Gdt.{gdt_init}
use os.Gdt.Segments.{empty_entry}
use os.Vmm.{Vmm}
use os.Vmm.Walk.{walk}
use os.Vmm.Growth.{IsMapped}
use os.Boot.Memory.{stack_page_at}
use os.Syscall.Sample.{kernel}
use os.Task.{UserState, switch_to_user_mode_elf}
use os.Task.Enter.{Starts, switch_to_user_mode_elf_lem}

-- The first frame is the table of every directory entry, and present itself.
abbrev mapped : Vmm
mapped = record kernel.vmm { mem = λ a. 3 }

stack_mapped : (i : ℕ) → i < 512 → IsMapped mapped (stack_page_at 0 i)
unfolding walk
stack_mapped i lt = λ e. cc

switch_to_user_mode_elf_example :
    (u : UserState) × (switch_to_user_mode_elf 0x400000 0x202 ≡ some u)
    × Starts (gdt_init 0x120000 104 (replicate 6 empty_entry)) mapped 0x400000 u
switch_to_user_mode_elf_example =
    switch_to_user_mode_elf_lem 0x120000 104 0x400000 0x202 (replicate 6 empty_entry) mapped
      (omega arith) refl (omega arith) (omega arith) stack_mapped
