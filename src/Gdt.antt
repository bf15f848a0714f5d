-- ===== src/Gdt.antt =====
-- gdt.c: the descriptors of the segments. The address and the size of the task state segment are
-- parameters.
pub mod Segments
mod Tests
use os.Base.{ℕ, ◌+◌, ◌*◌, ◌%◌, ◌/◌, ◌^◌, List, bit_and, bit_or, set}

pub record GdtEntry : Type 0 where
  pub limit_low : ℕ
  pub base_low : ℕ
  pub base_middle : ℕ
  pub access : ℕ
  pub granularity : ℕ
  pub base_high : ℕ

pub gdt_set_entry : (index base limit access gran : ℕ) → List GdtEntry → List GdtEntry
gdt_set_entry index base limit access gran gdt = set gdt index (record {
  base_low = bit_and base 0xFFFF;
  base_middle = bit_and (base / 2 ^ 16) 0xFF;
  base_high = bit_and (base / 2 ^ 24) 0xFF;
  limit_low = bit_and limit 0xFFFF;
  granularity = bit_or (bit_and (limit / 2 ^ 16) 0x0F) (bit_and gran 0xF0);
  access = access;
})

-- `gdt_init` without the pointer to the table, which `gdt_load` reads.
pub gdt_init : (tss sizeof_tss : ℕ) → List GdtEntry → List GdtEntry
gdt_init tss sizeof_tss gdt0 =
    let gdt1 = gdt_set_entry 0 0 0 0 0 gdt0 in
    let gdt2 = gdt_set_entry 1 0 0xFFFF_FFFF 0x9A 0xCF gdt1 in
    let gdt3 = gdt_set_entry 2 0 0xFFFF_FFFF 0x92 0xCF gdt2 in
    let gdt4 = gdt_set_entry 3 0 0xFFFF_FFFF 0xFA 0xCF gdt3 in
    let gdt5 = gdt_set_entry 4 0 0xFFFF_FFFF 0xF2 0xCF gdt4 in
    gdt_set_entry 5 tss sizeof_tss 0xE9 0x00 gdt5
