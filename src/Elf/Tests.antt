-- ===== src/Elf/Tests.antt =====
-- Examples of loading: a program of one segment of 2 bytes in the file and 4 in memory.
use os.Base.{ℕ, ◌/◌, ◌%◌, ◌^◌, ◌≡◌, refl, Bool, true, [], ◌∷◌, ◌++◌, List, some, ◌⊎◌, replicate}
use os.Base.Run.{Run, done, halt}
use os.Base.Word.{has_flag, set_flag}
use os.Fat.{FatFs}
use os.Fat.Memory.{Disk, memory}
use os.Pmm.{Pmm, pmm_alloc_frame, alloc_loop, test_frame, use_frame, mark_frame}
use os.Vmm.{Vmm, vmm_map_page, map_entry, add_table}
use os.Elf.{
  Loader, load_elf, load_opened, load_headers, load_segment, map_pages, store_bytes, has_magic,
  as_phdr,
}
use os.Elf.Header.{Accepted, Rejected, load_elf-Accepted}
use os.Elf.Unload.{unload_elf, unload_opened, unload_headers, unload_pages, unload_page}

abbrev bytes32 : ℕ → List ℕ
bytes32 n = n % 256 ∷ n / 256 % 256 ∷ n / 0x10000 % 256 ∷ n / 0x1000000 ∷ []

abbrev phdr_bytes : List ℕ
phdr_bytes =
    bytes32 1
    ++ (bytes32 80
        ++ (bytes32 0x8048000
            ++ (bytes32 0x8048000 ++ (bytes32 2 ++ (bytes32 4 ++ (bytes32 7 ++ bytes32 0x1000))))))

abbrev program : List ℕ
program =
    (0x7F ∷ b'E' ∷ b'L' ∷ b'F' ∷ replicate 20 0)
    ++ (bytes32 0x8048000
        ++ (bytes32 48 ++ (replicate 12 0 ++ (1 ∷ 0 ∷ 0 ∷ 0 ∷ (phdr_bytes ++ (0xEB ∷ 0xFE ∷ []))))))

abbrev fat : FatFs
fat = memory program []

abbrev idle : Disk
idle = record { opened = 0; at = 0; entry = 0 }

-- 32 frames, of which the first two are used: the second one has the directory.
abbrev frames : Pmm
frames = record { frame_bitmap = 3 ∷ []; total_frames = 32; used_frames = 2 }

abbrev space : Vmm
space = record {
  page_directory = 0x1000;
  first_page_table = 0x40000;
  mem = λ a. 0;
  pmm = frames;
  reach = 2 ^ 32;
}

abbrev start : Loader Disk
start = record { fs = idle; vmm = space; mem = λ a. 0 }

abbrev value_of : {A : Type 0} → Run A → A → A
value_of (done a) d = a
value_of halt d = d

ended : Loader Disk
unfolding load_elf load_opened load_headers load_segment map_pages store_bytes has_magic
    pmm_alloc_frame alloc_loop test_frame use_frame mark_frame has_flag set_flag vmm_map_page
    map_entry add_table
ended = (value_of (load_elf fat (b'a' ∷ []) start) (0, start)).1

run : load_elf fat (b'a' ∷ []) start ≡ done (0x8048000, ended)
unfolding ended
run = refl

load_elf-Accepted_example :
    ((file : ℕ) × ((fat.f_open (b'a' ∷ []) 1 idle).0 ≡ some file)
      × Accepted fat file (record start { fs = (fat.f_open (b'a' ∷ []) 1 idle).1 }) 0x8048000)
    ⊎ Rejected fat start ended 0x8048000
load_elf-Accepted_example = load_elf-Accepted fat (b'a' ∷ []) start 0x8048000 ended run

segment : Loader Disk
unfolding ended
segment = value_of (load_segment fat 0 (as_phdr phdr_bytes) start) start

-- The directory at 0x3000 has no entries.
unloaded : Bool × Loader Disk
unfolding unload_elf unload_opened unload_headers unload_pages unload_page
unloaded = value_of (unload_elf fat 0x3000 (b'a' ∷ []) start) (true, start)

run_unload : unload_elf fat 0x3000 (b'a' ∷ []) start ≡ done (unloaded.0, unloaded.1)
unfolding unloaded
run_unload = refl
