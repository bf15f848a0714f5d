-- ===== src/Task/Enter.antt =====
-- task.c, gdt.c and kernel.c: how the first program starts.
use os.Base.{
  ℕ, ◌+◌, ◌-◌, ◌*◌, ◌/◌, ◌%◌, ◌^◌, ◌<◌, ◌≡◌, refl, true, arith, subst, some, List, length, get_or,
}
use os.Base.Word.{has_flag, clear_flag, clear_flag-lt, has_flag-set_flag}
use os.Gdt.{GdtEntry, gdt_init}
use os.Gdt.Segments.{Segment, segment, empty_entry, read_segment, gdt_init_lem}
use os.Vmm.{Vmm}
use os.Vmm.Growth.{IsMapped}
use os.Boot.Memory.{stack_page_at}
use os.Task.{UserState, pushed, iret, switch_to_user_mode_elf}

-- The descriptor that a selector names, and the privilege level that it asks for.
abbrev pub selected : List GdtEntry → (selector : ℕ) → Segment
selected gdt selector = read_segment (get_or gdt (selector / 8) empty_entry)

abbrev pub privilege : (selector : ℕ) → ℕ
privilege selector = selector % 4

pub record Starts (gdt : List GdtEntry) (t : Vmm) (entry : ℕ) (u : UserState) : Type 0 where
  pub at_entry : u.eip ≡ entry
  pub code : (privilege u.cs ≡ 3) × (selected gdt u.cs ≡ segment 0 0xFFFFF 0xFA 0xC)
  pub stack : (privilege u.ss ≡ 3) × (selected gdt u.ss ≡ segment 0 0xFFFFF 0xF2 0xC)
  pub data_too : u.data_segments ≡ u.ss
  pub interrupts : has_flag u.eflags 9 ≡ true
  pub room : (i : ℕ) → i < 511 → IsMapped t (u.esp - 4096 * (i + 1))

-- After `gdt_init`, and with the user stack mapped as `kernel_main` maps it, the way to user mode leads to
-- the entry point of the program, with privilege level 3 and the segments of user mode for code, stack
-- and data, with interrupts on, and with the 511 pages below the stack pointer mapped.
pub switch_to_user_mode_elf_lem :
    (tss sizeof_tss entry eflags : ℕ) (gdt : List GdtEntry) (t : Vmm)
    → eflags < 2 ^ 32
    → length gdt ≡ 6
    → tss < 2 ^ 32
    → sizeof_tss < 2 ^ 20
    → ((i : ℕ) → i < 512 → IsMapped t (stack_page_at 0 i))
    → (u : UserState) × (switch_to_user_mode_elf entry eflags ≡ some u)
      × Starts (gdt_init tss sizeof_tss gdt) t entry u
unfolding switch_to_user_mode_elf pushed iret
switch_to_user_mode_elf_lem tss sizeof_tss entry eflags gdt t he size ht hs mapped = (
  _,
  refl,
  record {
    at_entry = refl;
    code = (refl, gdt_init_lem tss sizeof_tss 3 gdt size ht hs (omega arith));
    stack = (refl, gdt_init_lem tss sizeof_tss 4 gdt size ht hs (omega arith));
    data_too = refl;
    interrupts =
        has_flag-set_flag (clear_flag eflags 9) 9 9 (clear_flag-lt eflags 9 he) (omega arith)
          (omega arith);
    room = λ i lt. subst (IsMapped t) (omega arith) (mapped (i + 1) (omega arith));
  },
)
