-- ===== src/Pmm/Tests.antt =====
-- pmm.c at concrete inputs.
use os.Base.{
  ℕ, zero, suc, ◌/◌, ◌^◌, ◌<◌, ◌≡◌, ◌≢◌, refl, true, [], ◌∷◌, arith, ◌⊎◌, ◌==◌, if◌then◌else◌,
  bit_and,
}
use os.Base.Word.{has_flag, set_flag, clear_flag}
use os.Base.Run.{done, halt}
use os.Pmm.{
  Pmm, MmapEntry, MultibootInfo, test_frame, mark_frame, unmark_frame, use_frame, alloc_loop,
  pmm_alloc_frame, pmm_free_frame, boot_alloc, pmm_init,
}
use os.Pmm.Frames.{IsWords, IsValid}
use os.Pmm.Alloc.{used, Allocated, pmm_alloc_frame_lem}
use os.Pmm.Init.{IsSmall}
use os.Pmm.Boot.{Booted, bitmap_size, pmm_init_lem}
use os.Pmm.Owners.{Client, alloc, Reach, here, next, IsExclusive, Reach-IsExclusive}

-- frames 1 and 33 of 40 are free
abbrev two_free : Pmm
two_free = record {
  frame_bitmap = 0xFFFF_FFFD ∷ 0xFFFF_FFFD ∷ [];
  total_frames = 40;
  used_frames = 38;
}

abbrev one_free : Pmm
one_free = record {
  frame_bitmap = 0xFFFF_FFFF ∷ 0xFFFF_FFFD ∷ [];
  total_frames = 40;
  used_frames = 39;
}

abbrev full : Pmm
full = record { frame_bitmap = 0xFFFF_FFFF ∷ 0xFFFF_FFFF ∷ []; total_frames = 40; used_frames = 40 }

two_free-IsWords : IsWords two_free.frame_bitmap
two_free-IsWords zero = omega arith
two_free-IsWords (suc zero) = omega arith
two_free-IsWords (suc (suc i)) = omega arith

two_free-IsValid : IsValid two_free
two_free-IsValid = record { enough = omega arith; words = two_free-IsWords; fits = omega arith }

alloc-two_free : pmm_alloc_frame two_free ≡ done (0x1000, one_free)
unfolding pmm_alloc_frame alloc_loop use_frame test_frame mark_frame has_flag set_flag
alloc-two_free = refl

alloc-one_free : pmm_alloc_frame one_free ≡ done (0x21000, full)
unfolding pmm_alloc_frame alloc_loop use_frame test_frame mark_frame has_flag set_flag
alloc-one_free = refl

alloc-full : pmm_alloc_frame full ≡ halt
unfolding pmm_alloc_frame alloc_loop use_frame test_frame mark_frame has_flag set_flag
alloc-full = refl

free-full :
    pmm_free_frame 0x1000 full
    ≡ done (record {
      frame_bitmap = 0xFFFF_FFFD ∷ 0xFFFF_FFFF ∷ [];
      total_frames = 40;
      used_frames = 39;
    })
unfolding pmm_free_frame unmark_frame clear_flag
free-full = refl

free_past_the_end : pmm_free_frame 0x28000 full ≡ halt
unfolding pmm_free_frame
free_past_the_end = refl

pmm_alloc_frame_example :
    ((a : ℕ) × (q : Pmm) × (pmm_alloc_frame two_free ≡ done (a, q)) × Allocated two_free a q)
    ⊎ (((j : ℕ) → j < 40 → used two_free j ≡ true) × (pmm_alloc_frame two_free ≡ halt))
pmm_alloc_frame_example = pmm_alloc_frame_lem two_free two_free-IsValid

abbrev start : Client
start = record { pmm = two_free; held = [] }

abbrev both_held : Client
both_held = record { pmm = full; held = 0x21000 ∷ 0x1000 ∷ [] }

Reach-both_held : Reach start both_held
Reach-both_held =
    next (next here (alloc 0x1000 one_free alloc-two_free)) (alloc 0x21000 full alloc-one_free)

Reach-IsExclusive_example : IsExclusive both_held
Reach-IsExclusive_example =
    Reach-IsExclusive (record { valid = two_free-IsValid; owns = tt }) Reach-both_held

-- 640 KiB of low memory, and 1 MiB above the first
abbrev low : MmapEntry
low = record { addr = 0; len = 0x9FC00; kind = 1 }

abbrev high : MmapEntry
high = record { addr = 0x100000; len = 0x100000; kind = 1 }

abbrev machine : MultibootInfo
machine = record {
  flags = 0x40;
  mem_lower = 639;
  mem_upper = 1024;
  mmap_length = 48;
  entry_at = λ offset. if offset == 0 then low else high;
}

abbrev magic : ℕ
magic = 0x2BADB002

machine-IsSmall : (o : ℕ) → IsSmall (machine.entry_at o)
machine-IsSmall o = ground arith

pmm_init_example :
    ((p : Pmm) × (ptr : ℕ) × (pmm_init 0x9000 0x8000 0x100000 0x110000 machine magic
        ≡ done (p, ptr))
      × Booted 0x100000 0x110000 machine p)
    ⊎ ((pmm_init 0x9000 0x8000 0x100000 0x110000 machine magic ≡ halt)
        × ((magic ≢ magic)
            ⊎ (bit_and (machine.flags / 2 ^ 6) 1 ≡ 0)
            ⊎ (boot_alloc 0x9000 0x8000 (bitmap_size machine) ≡ halt)))
pmm_init_example =
    pmm_init_lem 0x100000 0x110000 machine 0x9000 0x8000 magic machine-IsSmall (omega arith)
