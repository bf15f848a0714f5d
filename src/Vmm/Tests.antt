-- ===== src/Vmm/Tests.antt =====
-- Examples of mapping pages: a directory at 0x1000 and its first table at 0x2000.
use os.Base.{◌⊎◌, ◌≤◌, true, ℕ, zero, suc, ◌^◌, ◌<◌, ◌≡◌, refl, [], ◌∷◌, arith, get_or}
use os.Base.Run.{done, halt}
use os.Pmm.Alloc.{used, Allocated}
use os.Vmm.User.{Created, vmm_create_user_directory_lem}
use os.Base.Word.{has_flag, set_flag}
use os.Pmm.{Pmm, pmm_alloc_frame, alloc_loop, test_frame, use_frame, mark_frame}
use os.Pmm.Frames.{IsValid}
use os.Vmm.{
  Vmm, map_entry, add_table, vmm_map_page, vmm_create_user_directory, vmm_identity_map_first_4mb,
}
use os.Vmm.Walk.{IsSpace}
use os.Vmm.Map.{Outcome, vmm_map_page_lem}
use os.Vmm.Identity.{IsFresh}
use os.Vmm.Reachable.{here, next, map_page, Extends, Reach-Extends}

-- 32 frames, of which the first three are used
abbrev frames : Pmm
frames = record { frame_bitmap = 7 ∷ []; total_frames = 32; used_frames = 3 }

frames-IsWords : (i : ℕ) → get_or (7 ∷ []) i 0 < 2 ^ 32
frames-IsWords zero = omega arith
frames-IsWords (suc i) = omega arith

frames-IsValid : IsValid frames
frames-IsValid = record { enough = omega arith; words = frames-IsWords; fits = omega arith }

abbrev boot : Vmm
boot = record {
  page_directory = 0x1000;
  first_page_table = 0x2000;
  mem = λ a. 0;
  pmm = frames;
  reach = 2 ^ 32;
}

boot-IsFresh : IsFresh boot
unfolding test_frame has_flag
boot-IsFresh = record {
  pmm_valid = frames-IsValid;
  dir_held = (refl, omega arith, refl);
  table_held = (refl, omega arith, refl);
  apart = omega arith;
  empty = λ i h. refl;
}

abbrev paged : Vmm
paged = vmm_identity_map_first_4mb boot

boot-IsSpace : IsSpace frames boot.mem 0x1000
boot-IsSpace = record {
  pmm_valid = frames-IsValid;
  dir_held = boot-IsFresh.dir_held;
  word = λ i h. omega arith;
  held = λ i h e. absurd (omega arith);
  not_dir = λ i h e. absurd (omega arith);
  distinct = λ i j hi hj e e' ne. absurd (omega arith);
}

-- A page of user code above the first 4 MB.
vmm_map_page_example : Outcome 0x804_8000 0x7000 7 boot (vmm_map_page 0x804_8000 0x7000 7 boot)
vmm_map_page_example =
    vmm_map_page_lem 0x804_8000 0x7000 7 boot boot-IsSpace (omega arith) (omega arith)

abbrev fourth : Pmm
fourth = record { frame_bitmap = 15 ∷ []; total_frames = 32; used_frames = 4 }

abbrev one_page : Vmm
one_page =
    map_entry 0x804_8000 0x7000 7 (add_table 0x804_8000 0x3000 (record boot { pmm = fourth }))

run_one : vmm_map_page 0x804_8000 0x7000 7 boot ≡ done (0, one_page)
unfolding vmm_map_page pmm_alloc_frame alloc_loop test_frame use_frame mark_frame has_flag set_flag
run_one = refl

Reach-Extends_example : Extends boot one_page
Reach-Extends_example =
    Reach-Extends boot-IsSpace
      (next here (map_page 0x804_8000 0x7000 7 0 one_page (omega arith) (omega arith) run_one))

vmm_create_user_directory_example :
    ((a : ℕ) × (t : Vmm) × (vmm_create_user_directory 0x1000 boot ≡ done (a, t))
      × Created 0x1000 boot a t)
    ⊎ ((((j : ℕ) → j < 32 → used boot.pmm j ≡ true)
          ⊎ ((a : ℕ) × (q : Pmm) × Allocated boot.pmm a q × (2 ^ 32 ≤ a)))
        × (vmm_create_user_directory 0x1000 boot ≡ halt))
vmm_create_user_directory_example = vmm_create_user_directory_lem 0x1000 boot boot-IsSpace
