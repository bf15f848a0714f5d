-- ===== src/Gdt/Segments.antt =====
-- gdt.c: the segments as the processor reads them.
use os.Base.{
  ℕ, ◌+◌, ◌*◌, ◌%◌, ◌/◌, ◌^◌, ◌<◌, ◌≡◌, refl, arith, List, bit_and, bit_or, ◌==◌, if◌then◌else◌,
  get_or, length, length-set, get_or-set_self, get_or-set_ne, eq-cases, eq→==, ne→==, inl, inr,
}
use os.Base.Masks.{bit_and-mod, bit_and-high, bit_or-add_left}
use os.Gdt.{GdtEntry, gdt_set_entry, gdt_init}

-- A segment: its base, its limit of 20 bits, the access byte, and the four flags above the limit.
pub record Segment : Type 0 where
  pub base : ℕ
  pub limit : ℕ
  pub access : ℕ
  pub flags : ℕ

abbrev pub empty_entry : GdtEntry
empty_entry = record {
  limit_low = 0;
  base_low = 0;
  base_middle = 0;
  access = 0;
  granularity = 0;
  base_high = 0;
}

abbrev pub read_segment : GdtEntry → Segment
read_segment e = record {
  base = e.base_high * 2 ^ 24 + e.base_middle * 2 ^ 16 + e.base_low;
  limit = e.granularity % 16 * 2 ^ 16 + e.limit_low;
  access = e.access;
  flags = e.granularity / 16;
}

abbrev pub segment : (base limit access flags : ℕ) → Segment
segment base limit access flags = record {
  base = base;
  limit = limit;
  access = access;
  flags = flags;
}

high_nibble : (gran : ℕ) → gran < 2 ^ 8 → bit_and gran 0xF0 ≡ gran / 16 * 16
high_nibble gran h =
    let high = bit_and-high 4 (gran / 16) (gran % 16) 15 (omega arith) in
    let low = bit_and-mod 4 (gran / 16) (omega arith) in
    let split : gran / 16 * 2 ^ 4 + gran % 16 ≡ gran = omega arith in
    let high' = rw (split, low) at high in omega arith

-- `gdt_set_entry` writes a descriptor that reads back as the base, the low 20 bits of the limit, the
-- access byte and the upper four bits of `gran`, and leaves every other descriptor as it is.
pub gdt_set_entry_lem :
    (index base limit access gran n : ℕ) (gdt : List GdtEntry)
    → index < length gdt
    → base < 2 ^ 32
    → gran < 2 ^ 8
    → read_segment (get_or (gdt_set_entry index base limit access gran gdt) n empty_entry) ≡ (
        if index == n
        then segment base (limit % 2 ^ 20) access (gran / 16)
        else read_segment (get_or gdt n empty_entry))
unfolding gdt_set_entry
gdt_set_entry_lem index base limit access gran n gdt lt hb hg = elim (eq-cases index n) [
  | inl e ↦
      let b0 : bit_and base 0xFFFF ≡ base % 65536 = bit_and-mod 16 base (omega arith) in
      let b1 : bit_and (base / 2 ^ 16) 0xFF ≡ base / 65536 % 256 =
        bit_and-mod 8 (base / 2 ^ 16) (omega arith) in
      let b2 : bit_and (base / 2 ^ 24) 0xFF ≡ base / 16777216 % 256 =
        bit_and-mod 8 (base / 2 ^ 24) (omega arith) in
      let l0 : bit_and limit 0xFFFF ≡ limit % 65536 = bit_and-mod 16 limit (omega arith) in
      let l1 : bit_and (limit / 2 ^ 16) 0x0F ≡ limit / 65536 % 16 =
        bit_and-mod 4 (limit / 2 ^ 16) (omega arith) in
      let g : bit_and gran 0xF0 ≡ gran / 16 * 16 = high_nibble gran hg in
      let o : bit_or (limit / 65536 % 16) (gran / 16 * 16) ≡ gran / 16 * 16 + limit / 65536 % 16 =
        bit_or-add_left 4 (gran / 16) (limit / 65536 % 16) (omega arith) in
      let base_is : base / 16777216 % 256 * 16777216 + base / 65536 % 256 * 65536 + base % 65536
          ≡ base =
        omega arith in
      let limit_is : (gran / 16 * 16 + limit / 65536 % 16) % 16 * 65536 + limit % 65536
          ≡ limit % 1048576 =
        omega arith in
      let flags_are : (gran / 16 * 16 + limit / 65536 % 16) / 16 ≡ gran / 16 = omega arith in
      rw
        (
          eq→== _ _ e,
          ← e,
          get_or-set_self gdt index _ empty_entry lt,
          b0,
          b1,
          b2,
          l0,
          l1,
          g,
          o,
          base_is,
          limit_is,
          flags_are,
        )
        refl
  | inr ne ↦ rw (ne→== _ _ ne, get_or-set_ne gdt index n _ empty_entry ne) refl
]

length-gdt_set_entry :
    (index base limit access gran : ℕ) (gdt : List GdtEntry)
    → length (gdt_set_entry index base limit access gran gdt) ≡ length gdt
unfolding gdt_set_entry
length-gdt_set_entry index base limit access gran gdt = length-set gdt index _

-- Six entries, one over the other.
layers :
    {A : Type 0} (n : ℕ) (x a0 a1 a2 a3 a4 a5 : A) {x0 x1 x2 x3 x4 x5 : A}
    → x0 ≡ (if 0 == n then a0 else x)
    → x1 ≡ (if 1 == n then a1 else x0)
    → x2 ≡ (if 2 == n then a2 else x1)
    → x3 ≡ (if 3 == n then a3 else x2)
    → x4 ≡ (if 4 == n then a4 else x3)
    → x5 ≡ (if 5 == n then a5 else x4)
    → n < 6
    → x5 ≡ (
        if n == 0
        then a0
        else if n == 1
        then a1
        else if n == 2
        then a2
        else if n == 3
        then a3
        else if n == 4
        then a4
        else a5)
layers n x a0 a1 a2 a3 a4 a5 h0 h1 h2 h3 h4 h5 h = ground arith

-- After `gdt_init` the table has the null descriptor, flat 4 GB segments in pages for code and data
-- of the kernel and of user mode, and the task state segment.
pub gdt_init_lem :
    (tss sizeof_tss n : ℕ) (gdt : List GdtEntry)
    → length gdt ≡ 6
    → tss < 2 ^ 32
    → sizeof_tss < 2 ^ 20
    → n < 6
    → read_segment (get_or (gdt_init tss sizeof_tss gdt) n empty_entry) ≡ (
        if n == 0
        then segment 0 0 0 0
        else if n == 1
        then segment 0 0xFFFFF 0x9A 0xC
        else if n == 2
        then segment 0 0xFFFFF 0x92 0xC
        else if n == 3
        then segment 0 0xFFFFF 0xFA 0xC
        else if n == 4
        then segment 0 0xFFFFF 0xF2 0xC
        else segment tss sizeof_tss 0xE9 0)
unfolding gdt_init
gdt_init_lem tss sizeof_tss n gdt0 size ht hs h =
    let gdt1 = gdt_set_entry 0 0 0 0 0 gdt0 in
    let gdt2 = gdt_set_entry 1 0 0xFFFF_FFFF 0x9A 0xCF gdt1 in
    let gdt3 = gdt_set_entry 2 0 0xFFFF_FFFF 0x92 0xCF gdt2 in
    let gdt4 = gdt_set_entry 3 0 0xFFFF_FFFF 0xFA 0xCF gdt3 in
    let gdt5 = gdt_set_entry 4 0 0xFFFF_FFFF 0xF2 0xCF gdt4 in
    let s1 = length-gdt_set_entry 0 0 0 0 0 gdt0 in
    let s2 = length-gdt_set_entry 1 0 0xFFFF_FFFF 0x9A 0xCF gdt1 in
    let s3 = length-gdt_set_entry 2 0 0xFFFF_FFFF 0x92 0xCF gdt2 in
    let s4 = length-gdt_set_entry 3 0 0xFFFF_FFFF 0xFA 0xCF gdt3 in
    let s5 = length-gdt_set_entry 4 0 0xFFFF_FFFF 0xF2 0xCF gdt4 in
    let small : sizeof_tss % 2 ^ 20 ≡ sizeof_tss = omega arith in
    let last = gdt_set_entry_lem 5 tss sizeof_tss 0xE9 0x00 n gdt5 (omega arith) ht (omega arith) in
    let last' = rw small at last in
    layers n _ _ _ _ _ _ _
      (gdt_set_entry_lem 0 0 0 0 0 n gdt0 (omega arith) (omega arith) (omega arith))
      (gdt_set_entry_lem 1 0 0xFFFF_FFFF 0x9A 0xCF n gdt1 (omega arith) (omega arith) (omega arith))
      (gdt_set_entry_lem 2 0 0xFFFF_FFFF 0x92 0xCF n gdt2 (omega arith) (omega arith) (omega arith))
      (gdt_set_entry_lem 3 0 0xFFFF_FFFF 0xFA 0xCF n gdt3 (omega arith) (omega arith) (omega arith))
      (gdt_set_entry_lem 4 0 0xFFFF_FFFF 0xF2 0xCF n gdt4 (omega arith) (omega arith) (omega arith))
      last' h
