-- ===== src/Pmm.antt =====
-- pmm.c, the physical memory manager: a bitmap with a bit for each frame of 4096 bytes, set while
-- the frame is used. A read past the bitmap gives 0 and a write past it leaves the bitmap as it
-- is; `Pmm.Frames.IsValid` rules out both for `pmm_alloc_frame` and `pmm_free_frame`.
pub mod Frames
pub mod Alloc
pub mod Boot
pub mod Init
pub mod Owners
mod Tests
use os.Base.{
  ℕ, zero, suc, ◌+◌, ◌-◌, ◌*◌, ◌/◌, ◌%◌, ◌^◌, Bool, true, false, not, List, [], ◌∷◌, bit_and, ltb,
  leb, ◌==◌, ◌!=◌, if◌then◌else◌, get_or, set, replicate,
}
use os.Base.Word.{u32, sub32, not32, has_flag, set_flag, clear_flag}
use os.Base.Run.{Run, done, halt, ◌>>=◌}

-- The static variables `frame_bitmap`, `total_frames` and `used_frames`.
pub record Pmm : Type 0 where
  pub frame_bitmap : List ℕ
  pub total_frames : ℕ
  pub used_frames : ℕ

abbrev pub index_from_bit : ℕ → ℕ
index_from_bit b = b / 32

abbrev pub offset_from_bit : ℕ → ℕ
offset_from_bit b = b % 32

-- `frame_bitmap[INDEX_FROM_BIT(i)] & (1 << OFFSET_FROM_BIT(i))`
unfoldable pub test_frame : List ℕ → ℕ → Bool
test_frame m i = has_flag (get_or m (index_from_bit i) 0) (offset_from_bit i)

-- `frame_bitmap[INDEX_FROM_BIT(i)] |= (1 << OFFSET_FROM_BIT(i))`
unfoldable pub mark_frame : List ℕ → ℕ → List ℕ
mark_frame m i =
    set m (index_from_bit i) (set_flag (get_or m (index_from_bit i) 0) (offset_from_bit i))

-- `frame_bitmap[INDEX_FROM_BIT(i)] &= ~(1 << OFFSET_FROM_BIT(i))`
pub unmark_frame : List ℕ → ℕ → List ℕ
unmark_frame m i =
    set m (index_from_bit i) (clear_flag (get_or m (index_from_bit i) 0) (offset_from_bit i))

-- The two statements that take frame `i`: its bit is set, and `used_frames++`.
unfoldable pub use_frame : ℕ → Pmm → Pmm
use_frame i p = record p {
  frame_bitmap = mark_frame p.frame_bitmap i;
  used_frames = u32 (p.used_frames + 1);
}

-- The loop of `pmm_alloc_frame` from frame `i` on, with `rounds` frames left, and what follows it.
unfoldable pub alloc_loop : ℕ → ℕ → Pmm → Run (ℕ × Pmm)
alloc_loop zero i p = halt
alloc_loop (suc rounds) i p =
    let next = alloc_loop rounds (i + 1) p in
    if test_frame p.frame_bitmap i then next else done (u32 (i * 0x1000), use_frame i p)

unfoldable pub pmm_alloc_frame : Pmm → Run (ℕ × Pmm)
pmm_alloc_frame p = alloc_loop p.total_frames 0 p

pub pmm_free_frame : ℕ → Pmm → Run Pmm
pmm_free_frame frame_addr p =
    let frame = frame_addr / 0x1000 in
    if leb p.total_frames frame
    then halt
    else done (record p {
      frame_bitmap = unmark_frame p.frame_bitmap frame;
      used_frames = sub32 p.used_frames 1;
    })

pub pmm_get_total_frames : Pmm → ℕ
pmm_get_total_frames p = p.total_frames

pub pmm_get_used_frames : Pmm → ℕ
pmm_get_used_frames p = p.used_frames

-- `boot_alloc`, with `boot_heap_ptr` before and after, and the address of `__boot_heap_end`.
unfoldable pub boot_alloc : (boot_heap_end boot_heap_ptr size : ℕ) → Run (ℕ × ℕ)
boot_alloc boot_heap_end boot_heap_ptr size =
    let aligned = bit_and (u32 (size + 3)) (not32 3) in
    if ltb boot_heap_end (u32 (boot_heap_ptr + aligned))
    then halt
    else done (boot_heap_ptr, u32 (boot_heap_ptr + aligned / 4 * 4))

-- The fields of `multiboot_memory_map_t` that are read, two of 64 bits and one of 32.
pub record MmapEntry : Type 0 where
  pub addr : ℕ
  pub len : ℕ
  pub kind : ℕ

-- The fields of `multiboot_info_t` that are read, with the memory from `mmap_addr` on: the entry
-- at each offset.
pub record MultibootInfo : Type 0 where
  pub flags : ℕ
  pub mem_lower : ℕ
  pub mem_upper : ℕ
  pub mmap_length : ℕ
  pub entry_at : ℕ → MmapEntry

-- `for (i = start_frame; i < end_frame; i++)` clears the bit of each
pub clear_range : (rounds i : ℕ) → List ℕ → List ℕ
clear_range zero i m = m
clear_range (suc rounds) i m = clear_range rounds (i + 1) (unmark_frame m i)

abbrev pub start_frame : MmapEntry → ℕ
start_frame e = u32 ((e.addr + 0xFFF) % 2 ^ 64 / 0x1000)

abbrev pub end_frame : MmapEntry → ℕ
end_frame e = u32 ((e.addr + e.len) % 2 ^ 64 / 0x1000)

-- One round of the loop over the memory map.
pub free_entry : (total : ℕ) → MmapEntry → List ℕ → List ℕ
free_entry total e m =
    if e.kind == 1
    then (let end = (if ltb total (end_frame e) then total else end_frame e) in
        clear_range (end - start_frame e) (start_frame e) m)
    else m

pub free_entries : (total rounds offset : ℕ) → (ℕ → MmapEntry) → List ℕ → List ℕ
free_entries total zero offset entry_at m = m
free_entries total (suc rounds) offset entry_at m =
    free_entries total rounds (offset + 24) entry_at (free_entry total (entry_at offset) m)

-- The last loop of `pmm_init`: it marks a frame and counts it as used.
pub mark_range : (rounds i : ℕ) → Pmm → Pmm
mark_range zero i p = p
mark_range (suc rounds) i p = mark_range rounds (i + 1) (use_frame i p)

-- `pmm_init` without what it prints. `kernel_start` and `kernel_end` are the values that the
-- source reads from the `int`s `_start` and `__kernel_end`. The result has `boot_heap_ptr` too.
pub pmm_init :
    (boot_heap_end boot_heap_ptr kernel_start kernel_end : ℕ)
    → MultibootInfo
    → (magic : ℕ) → Run (Pmm × ℕ)
pmm_init boot_heap_end boot_heap_ptr kernel_start kernel_end mbd magic =
    if magic != 0x2BADB002
    then halt
    else if bit_and (mbd.flags / 2 ^ 6) 1 == 0
    then halt
    else let mem_size = u32 ((mbd.mem_lower + mbd.mem_upper) * 1024) in
      let total = u32 (mem_size + 0xFFF) / 0x1000 in
      let bitmap_size = (total + 31) / 32 * 4 in
      boot_alloc boot_heap_end boot_heap_ptr bitmap_size >>= λ r.
      let all_used = replicate (bitmap_size / 4) 0xFFFF_FFFF in
      let freed = free_entries total ((mbd.mmap_length + 23) / 24) 0 mbd.entry_at all_used in
      done (
        mark_range (kernel_end / 0x1000 - kernel_start / 0x1000) (kernel_start / 0x1000)
            (record { frame_bitmap = freed; total_frames = total; used_frames = 0 }),
        r.1,
      )
