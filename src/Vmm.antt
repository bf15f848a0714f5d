-- ===== src/Vmm.antt =====
-- vmm.c: page directories and page tables over the frames of the physical memory manager. The
-- memory is read and written at the granularity of words of 32 bits: `mem` has the word at each
-- address. Physical memory is addressed as the kernel does it, by the identity mapping: all of it until
-- paging is on, then the first 4 MB. The model ends, with `halt`, where the kernel goes to a table past
-- that: the address is not mapped and faults, or it is mapped to another frame.
pub mod Walk
pub mod Tables
pub mod Map
pub mod Identity
pub mod User
pub mod Reachable
pub mod Frames
pub mod Growth
mod Tests
use os.Base.{
  ℕ, zero, suc, ◌+◌, ◌-◌, ◌*◌, ◌/◌, ◌%◌, ◌^◌, Bool, true, false, not, ◌&&◌, ◌||◌, bit_and, bit_or,
  ltb, leb, ◌==◌, ◌!=◌, if◌then◌else◌,
}
use os.Base.Word.{u32, not32}
use os.Base.Run.{Run, done, halt, ◌>>=◌}
use os.Pmm.{Pmm, pmm_alloc_frame}

abbrev pub page_present : ℕ
page_present = 1

abbrev pub page_rw : ℕ
page_rw = 2

abbrev pub page_user : ℕ
page_user = 4

abbrev pub page_executable : ℕ
page_executable = 1

abbrev pub vmm_success : ℕ
vmm_success = 0

abbrev pub vmm_err_double_map : ℕ
vmm_err_double_map = 1

abbrev pub vmm_err_invalid_addr : ℕ
vmm_err_invalid_addr = 2

abbrev pub vmm_err_no_memory : ℕ
vmm_err_no_memory = 3

-- The addresses of `page_directory` and `first_page_table`, the memory, the frame allocator, and the
-- end of the physical memory that the kernel reaches under its own addresses: 2 ^ 32 before paging
-- is on, 4 MB from then on.
pub record Vmm : Type 0 where
  pub page_directory : ℕ
  pub first_page_table : ℕ
  pub mem : ℕ → ℕ
  pub pmm : Pmm
  pub reach : ℕ

abbrev pub store_word : (ℕ → ℕ) → ℕ → ℕ → ℕ → ℕ
store_word m a v p = if p == a then v else m p

-- `memset` or `pmm_memset` with 0 of this many words
unfoldable pub clear_words : (words a : ℕ) → (ℕ → ℕ) → ℕ → ℕ
clear_words zero a m = m
clear_words (suc words) a m = clear_words words (a + 4) (store_word m a 0)

-- `memcpy` of this many words
pub copy_words : (words dest src : ℕ) → (ℕ → ℕ) → ℕ → ℕ
copy_words zero dest src m = m
copy_words (suc words) dest src m =
    copy_words words (dest + 4) (src + 4) (store_word m dest (m src))

-- The loop of `vmm_identity_map_first_4mb` from entry `i` on.
pub identity_loop : (rounds i table : ℕ) → (ℕ → ℕ) → ℕ → ℕ
identity_loop zero i table m = m
identity_loop (suc rounds) i table m =
    identity_loop rounds (i + 1) table
      (store_word m (table + 4 * i) (bit_or (bit_or (i * 0x1000) page_present) page_rw))

unfoldable pub vmm_identity_map_first_4mb : Vmm → Vmm
vmm_identity_map_first_4mb s =
    let table = s.first_page_table in
    record s {
      mem =
          store_word (identity_loop 1024 0 table s.mem) s.page_directory
            (bit_or (bit_or table page_present) page_rw);
    }

-- The index of an address in the directory and in a table.
abbrev pub page_dir_index : ℕ → ℕ
page_dir_index a = a / 2 ^ 22

abbrev pub page_table_index : ℕ → ℕ
page_table_index a = bit_and (a / 2 ^ 12) 0x3FF

-- The end of `vmm_map_page`: the entry is written to the table that the directory has.
unfoldable pub map_entry : (virt_addr phys_addr flags : ℕ) → Vmm → Vmm
map_entry virt_addr phys_addr flags s =
    let page_table =
      bit_and (s.mem (s.page_directory + 4 * page_dir_index virt_addr)) (not32 0xFFF) in
    let allowed = bit_or (bit_or (bit_or page_present page_rw) page_user) page_executable in
    record s {
      mem =
          store_word s.mem (page_table + 4 * page_table_index virt_addr)
            (bit_or (bit_and phys_addr (not32 0xFFF)) (bit_and flags allowed));
    }

-- The branch of `vmm_map_page` for a new page table, at the physical address `new_table`.
unfoldable pub add_table : (virt_addr new_table : ℕ) → Vmm → Vmm
add_table virt_addr new_table s = record s {
  mem =
      store_word (clear_words 1024 new_table s.mem)
        (s.page_directory + 4 * page_dir_index virt_addr)
        (bit_or (bit_or (bit_or new_table page_present) page_rw) page_user);
}

-- What is printed, and the flush of the TLB, is left out.
unfoldable pub vmm_map_page : (virt_addr phys_addr flags : ℕ) → Vmm → Run (ℕ × Vmm)
vmm_map_page virt_addr phys_addr flags s =
    if ltb virt_addr 0x1000 && virt_addr != 0
    then done (vmm_err_invalid_addr, s)
    else if ltb phys_addr 0x1000 && not (leb 0x100000 phys_addr && ltb phys_addr 0x200000)
    then done (vmm_err_invalid_addr, s)
    else let pde = s.mem (s.page_directory + 4 * page_dir_index virt_addr) in
      if bit_and pde page_present != 0
      then (let page_table = bit_and pde (not32 0xFFF) in
          if leb s.reach page_table
          then halt
          else if bit_and (s.mem (page_table + 4 * page_table_index virt_addr)) page_present != 0
          then done (vmm_err_double_map, s)
          else done (vmm_success, map_entry virt_addr phys_addr flags s))
      else pmm_alloc_frame s.pmm >>= λ r.
          let s' = record s { pmm = r.1 } in
          if r.0 == 0
          then done (vmm_err_no_memory, s')
          else if leb s.reach r.0
          then halt
          else done (vmm_success, map_entry virt_addr phys_addr flags (add_table virt_addr r.0 s'))

-- `cr3` is the address of the directory in use.
pub vmm_create_user_directory : (cr3 : ℕ) → Vmm → Run (ℕ × Vmm)
vmm_create_user_directory cr3 s = pmm_alloc_frame s.pmm >>= λ r.
    let new_dir = r.0 in
    let cleared = clear_words 1024 new_dir s.mem in
    let copied = copy_words 256 (new_dir + 4 * 768) (cr3 + 4 * 768) cleared in
    if leb s.reach new_dir
    then halt
    else done (
      new_dir,
      record s { mem = store_word copied (new_dir + 4 * 1023) (bit_or new_dir 0x7); pmm = r.1 },
    )
