-- ===== src/Pmm/Boot.antt =====
-- pmm.c: `pmm_init` as a whole.
use os.Base.{
  ℕ, zero, suc, ◌+◌, ◌-◌, ◌*◌, ◌/◌, ◌%◌, ◌^◌, ◌≤◌, ◌<◌, ◌≡◌, refl, ◌∙◌, ap, true, not, arith, ◌⊎◌,
  inl, inr, if◌then◌else◌, replicate, length-replicate, get_or-replicate, get_or-past, lt-cases,
  eq-cases, bit_and, ◌≢◌, List,
}
use os.Base.Word.{u32, has_flag-bit}
use os.Base.Bits.{bit, bit-not, bit-zero}
use os.Base.Run.{done, halt, Run-cases}
use os.Pmm.{
  Pmm, MultibootInfo, test_frame, use_frame, free_entries, mark_range, boot_alloc, pmm_init,
}
use os.Pmm.Frames.{IsWords, IsValid}
use os.Pmm.Alloc.{used}
use os.Pmm.Init.{
  IsSmall, within, in_available, free_entries-IsWords, length-free_entries, test-free_entries,
  mark_range-IsValid, used-mark_range,
}

-- The frames of memory that `mem_lower` and `mem_upper`, in KiB, come to.
abbrev pub memory_frames : MultibootInfo → ℕ
memory_frames mbd = u32 (u32 ((mbd.mem_lower + mbd.mem_upper) * 1024) + 0xFFF) / 0x1000

-- the number of memory map entries that the loop visits
abbrev pub entries : MultibootInfo → ℕ
entries mbd = (mbd.mmap_length + 23) / 24

-- the size in bytes of the bitmap
abbrev pub bitmap_size : MultibootInfo → ℕ
bitmap_size mbd = (memory_frames mbd + 31) / 32 * 4

-- a word of the bitmap after `pmm_memset(frame_bitmap, 0xFF, bitmap_size)`
abbrev all_ones : ℕ
all_ones = 0xFFFF_FFFF

all_used-IsWords : (n : ℕ) → IsWords (replicate n all_ones)
all_used-IsWords n i = elim (lt-cases i n) [
  | inl lt ↦ rw (get_or-replicate n i all_ones 0 lt) (omega arith)
  | inr le ↦
      rw (get_or-past (replicate n all_ones) i 0 (omega (arith, length-replicate n all_ones)))
        (omega arith)
]

-- every bit of the fresh bitmap is set
bit-ones : (k : ℕ) → k < 32 → bit all_ones k ≡ 1
bit-ones k h = omega (arith, bit-not 32 0 k (omega arith) h, bit-zero k)

test_all_used : (n j : ℕ) → j < 32 * n → test_frame (replicate n all_ones) j ≡ true
unfolding test_frame
test_all_used n j h =
    rw (get_or-replicate n (j / 32) all_ones 0 (omega arith))
      (ground (arith, has_flag-bit all_ones (j % 32), bit-ones (j % 32)))

total-mark_range : (n i : ℕ) (p : Pmm) → (mark_range n i p).total_frames ≡ p.total_frames
unfolding mark_range use_frame
total-mark_range zero i p = refl
total-mark_range (suc n) i p = total-mark_range n (i + 1) (use_frame i p)

used_frames-mark_range :
    (n i : ℕ) (p : Pmm)
    → p.used_frames < 2 ^ 32
    → (mark_range n i p).used_frames ≡ u32 (p.used_frames + n)
unfolding mark_range use_frame
used_frames-mark_range zero i p h = omega arith
used_frames-mark_range (suc n) i p h =
    omega (arith, used_frames-mark_range n (i + 1) (use_frame i p) (omega arith))

-- The state that `pmm_init` builds.
pub record Booted (kernel_start kernel_end : ℕ) (mbd : MultibootInfo) (p : Pmm) : Type 0 where
  pub valid : IsValid p
  pub total : p.total_frames ≡ memory_frames mbd
  pub counts : p.used_frames ≡ u32 (kernel_end / 0x1000 - kernel_start / 0x1000)
  pub frames :
      (j : ℕ)
      → j < p.total_frames
      → used p j ≡ (
          if within (kernel_start / 0x1000) (kernel_end / 0x1000) j
          then true
          else not (in_available (entries mbd) 0 mbd.entry_at j))

module _ (ks ke : ℕ) (mbd : MultibootInfo) where
  fresh : ℕ → Pmm
  fresh total = record {
    frame_bitmap =
        free_entries total (entries mbd) 0 mbd.entry_at
          (replicate ((total + 31) / 32 * 4 / 4) all_ones);
    total_frames = total;
    used_frames = 0;
  }

  fresh-IsValid : (total : ℕ) → total ≤ 2 ^ 20 → IsValid (fresh total)
  unfolding fresh
  fresh-IsValid total small =
      let words = (total + 31) / 32 * 4 / 4 in
      let ones : List ℕ = replicate words all_ones in
      record {
        enough = omega (
          arith,
          length-free_entries total mbd.entry_at (entries mbd) 0 ones,
          length-replicate words all_ones,
        );
        words =
            free_entries-IsWords total mbd.entry_at (entries mbd) 0 ones (all_used-IsWords words);
        fits = small;
      }

  used-fresh :
      (total : ℕ)
      → ((o : ℕ) → IsSmall (mbd.entry_at o))
      → (j : ℕ) → j < total
      → used (fresh total) j ≡ not (in_available (entries mbd) 0 mbd.entry_at j)
  unfolding fresh
  used-fresh total small j lt =
      let words = (total + 31) / 32 * 4 / 4 in
      ground (
        arith,
        test-free_entries total mbd.entry_at small (entries mbd) 0 (replicate words all_ones) j
            (all_used-IsWords words) (omega (arith, length-replicate words all_ones)) lt,
        test_all_used words j (omega arith),
      )

  booted :
      ((o : ℕ) → IsSmall (mbd.entry_at o))
      → ke / 0x1000 ≤ memory_frames mbd
      → Booted ks ke mbd
          (mark_range (ke / 0x1000 - ks / 0x1000) (ks / 0x1000) (fresh (memory_frames mbd)))
  unfolding fresh
  booted small fit =
      let total = memory_frames mbd in
      let v = fresh-IsValid total (omega arith) in
      let n = ke / 0x1000 - ks / 0x1000 in
      let i = ks / 0x1000 in
      record {
        valid = mark_range-IsValid n i v;
        total = total-mark_range n i (fresh total);
        counts = used_frames-mark_range n i (fresh total) (omega arith) ∙ ap u32 (omega arith);
        frames = λ j lt. ground (
          arith,
          used-mark_range n i j v (omega arith),
          used-fresh total small j,
          total-mark_range n i (fresh total),
        );
      }

  -- Where every region of the memory map ends below 16 TiB and the kernel range ends in memory,
  -- `pmm_init` either builds the state `Booted`, or it halts: the magic number is wrong, the flag of the
  -- memory map is not set, or the bootstrap heap has no room for the bitmap.
  pub pmm_init_lem :
      (boot_heap_end boot_heap_ptr magic : ℕ)
      → ((o : ℕ) → IsSmall (mbd.entry_at o))
      → ke / 0x1000 ≤ memory_frames mbd
      → ((p : Pmm) × (ptr : ℕ) × (pmm_init boot_heap_end boot_heap_ptr ks ke mbd magic
            ≡ done (p, ptr))
          × Booted ks ke mbd p)
        ⊎ ((pmm_init boot_heap_end boot_heap_ptr ks ke mbd magic ≡ halt)
            × ((magic ≢ 0x2BADB002)
                ⊎ (bit_and (mbd.flags / 2 ^ 6) 1 ≡ 0)
                ⊎ (boot_alloc boot_heap_end boot_heap_ptr (bitmap_size mbd) ≡ halt)))
  unfolding pmm_init fresh
  pmm_init_lem he hp magic small fit = elim (eq-cases magic 0x2BADB002) [
    | inr bad ↦ inr (ground arith, inl bad)
    | inl good ↦ elim (eq-cases (bit_and (mbd.flags / 2 ^ 6) 1) 0) [
      | inl unset ↦ inr (ground arith, inr (inl unset))
      | inr flagged ↦ elim (Run-cases (boot_alloc he hp (bitmap_size mbd))) [
        | inl e ↦ inr (ground arith, inr (inr e))
        | inr (r, e) ↦ inl (
          mark_range (ke / 0x1000 - ks / 0x1000) (ks / 0x1000) (fresh (memory_frames mbd)),
          r.1,
          ground arith,
          booted small fit,
        )
      ]
    ]
  ]
