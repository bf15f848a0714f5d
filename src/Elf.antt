-- ===== src/Elf.antt =====
-- elf32/elf32.c: the loader of programs. The state is the file system, the page tables with the
-- frames, and the memory by virtual address from 4 MB on, where the pages of programs are; a page that is
-- mapped shows what `mem` has there.
pub mod Files
pub mod Pages
pub mod Segment
pub mod Header
pub mod Unload
mod Tests
use os.Base.{
  ℕ, zero, suc, ◌+◌, ◌-◌, ◌*◌, ◌/◌, ◌%◌, ◌^◌, Bool, true, false, not, ◌&&◌, ◌||◌, Option, none,
  some, List, [], ◌∷◌, bit_and, bit_or, ltb, ◌==◌, ◌!=◌, if◌then◌else◌, length, get_or, take,
}
use os.Base.Word.{u32, not32}
use os.Base.Run.{Run, done, halt, ◌>>=◌}
use os.Strings.{Bytes, store_byte, memset}
use os.Fat.{FatFs}
use os.Pmm.{pmm_alloc_frame, pmm_free_frame}
use os.Vmm.{
  Vmm, vmm_map_page, store_word, page_present, page_rw, page_user, page_executable, page_dir_index,
  page_table_index,
}

pub record Elf32Ehdr : Type 0 where
  pub e_ident : List ℕ
  pub e_type : ℕ
  pub e_machine : ℕ
  pub e_version : ℕ
  pub e_entry : ℕ
  pub e_phoff : ℕ
  pub e_shoff : ℕ
  pub e_flags : ℕ
  pub e_ehsize : ℕ
  pub e_phentsize : ℕ
  pub e_phnum : ℕ

pub record Elf32Phdr : Type 0 where
  pub p_type : ℕ
  pub p_offset : ℕ
  pub p_vaddr : ℕ
  pub p_paddr : ℕ
  pub p_filesz : ℕ
  pub p_memsz : ℕ
  pub p_flags : ℕ
  pub p_align : ℕ

-- The numbers at a place of a structure, little-endian.
abbrev pub word16 : List ℕ → ℕ → ℕ
word16 bs i = get_or bs i 0 + 0x100 * get_or bs (i + 1) 0

abbrev pub word32 : List ℕ → ℕ → ℕ
word32 bs i = word16 bs i + 0x10000 * word16 bs (i + 2)

-- `sizeof(Elf32_Ehdr)`: 46 bytes of fields, padded to words.
abbrev pub ehdr_size : ℕ
ehdr_size = 48

abbrev pub phdr_size : ℕ
phdr_size = 32

-- The structures over the bytes that were read into them.
abbrev pub as_ehdr : List ℕ → Elf32Ehdr
as_ehdr bs = record {
  e_ident = take 16 bs;
  e_type = word16 bs 16;
  e_machine = word16 bs 18;
  e_version = word32 bs 20;
  e_entry = word32 bs 24;
  e_phoff = word32 bs 28;
  e_shoff = word32 bs 32;
  e_flags = word32 bs 36;
  e_ehsize = word16 bs 40;
  e_phentsize = word16 bs 42;
  e_phnum = word16 bs 44;
}

abbrev pub as_phdr : List ℕ → Elf32Phdr
as_phdr bs = record {
  p_type = word32 bs 0;
  p_offset = word32 bs 4;
  p_vaddr = word32 bs 8;
  p_paddr = word32 bs 12;
  p_filesz = word32 bs 16;
  p_memsz = word32 bs 20;
  p_flags = word32 bs 24;
  p_align = word32 bs 28;
}

pub has_magic : Elf32Ehdr → Bool
has_magic hdr = not (
    (get_or hdr.e_ident 0 0 != 0x7F)
    || (get_or hdr.e_ident 1 0 != b'E')
    || (get_or hdr.e_ident 2 0 != b'L')
    || (get_or hdr.e_ident 3 0 != b'F'))

pub record Loader (S : Type 0) : Type 0 where
  pub fs : S
  pub vmm : Vmm
  pub mem : Bytes

abbrev pub user_page : ℕ
user_page = bit_or (bit_or (bit_or page_present page_user) page_rw) page_executable

-- The loop that maps the pages of a segment, with `rounds` pages left. The result of `vmm_map_page`
-- is not looked at.
pub map_pages : (rounds offset p_vaddr : ℕ) → Vmm → Run Vmm
map_pages zero offset p_vaddr s = done s
map_pages (suc rounds) offset p_vaddr s = pmm_alloc_frame s.pmm >>= λ frame.
    vmm_map_page (u32 (p_vaddr + offset)) frame.0 user_page (record s { pmm = frame.1 }) >>= λ r.
    map_pages rounds (offset + 4096) p_vaddr r.1

-- The rounds of that loop. Past 0xFFFF_F000 bytes the offset, a `uint32_t`, never reaches the size:
-- the loop does not end, or ends in `pmm_panic`.
abbrev pub pages : (p_memsz : ℕ) → Run ℕ
pages p_memsz = if ltb 0xFFFFF000 p_memsz then halt else done ((p_memsz + 4095) / 4096)

-- The rounds for a segment. One that starts in the first 4 MB is written through the identity mapping, over
-- the kernel and its page tables: the model ends there.
abbrev pub pages_of : Elf32Phdr → Run ℕ
pages_of phdr = if ltb phdr.p_vaddr 0x40_0000 then halt else pages phdr.p_memsz

unfoldable pub store_bytes : (dest : ℕ) → List ℕ → Bytes → Bytes
store_bytes dest [] m = m
store_bytes dest (c ∷ cs) m = store_bytes (dest + 1) cs (store_byte m dest c)

module _ (F : FatFs) where
  -- The body of the loop over the program headers, for a header of type `PT_LOAD`.
  pub load_segment : F.File → Elf32Phdr → Loader F.State → Run (Loader F.State)
  load_segment file phdr s = pages_of phdr >>= λ rounds.
      map_pages rounds 0 phdr.p_vaddr s.vmm >>= λ vmm.
      let loaded = F.f_read file phdr.p_filesz (F.f_lseek file phdr.p_offset s.fs) in
      let mem = store_bytes phdr.p_vaddr loaded.1 s.mem in
      done (record {
        fs = loaded.2;
        vmm = vmm;
        mem =
            if ltb phdr.p_filesz phdr.p_memsz
            then memset (u32 (phdr.p_vaddr + phdr.p_filesz)) 0 (phdr.p_memsz - phdr.p_filesz) mem
            else mem;
      })

  abbrev pub close_file : F.File → Loader F.State → Loader F.State
  close_file file s = record s { fs = F.f_close file s.fs }

  -- The test behind a read of `n` bytes.
  abbrev pub failed : (n : ℕ) → Bool × List ℕ × F.State → Bool
  failed n read = not read.0 || (length read.1 != n)

  -- The loop over the program headers from header `i` on. `false` is the early return.
  pub load_headers : (rounds i e_phoff : ℕ) → F.File → Loader F.State → Run (Bool × Loader F.State)
  load_headers zero i e_phoff file s = done (true, s)
  load_headers (suc rounds) i e_phoff file s =
      let read = F.f_read file phdr_size (F.f_lseek file (u32 (e_phoff + i * phdr_size)) s.fs) in
      let s' = record s { fs = read.2 } in
      let phdr = as_phdr read.1 in
      let rest = λ (t : Loader F.State). load_headers rounds (i + 1) e_phoff file t in
      if failed phdr_size read
      then done (false, close_file file s')
      else if phdr.p_type != 1
      then rest s'
      else load_segment file phdr s' >>= rest

  -- What follows `f_open`, which gives the file if it succeeds.
  pub load_opened : Option F.File → Loader F.State → Run (ℕ × Loader F.State)
  load_opened none s = done (0, s)
  load_opened (some file) s =
      let read = F.f_read file ehdr_size s.fs in
      let s' = record s { fs = read.2 } in
      let hdr = as_ehdr read.1 in
      if failed ehdr_size read
      then done (0, close_file file s')
      else if not (has_magic hdr)
      then done (0, close_file file s')
      else load_headers hdr.e_phnum 0 hdr.e_phoff file s' >>= λ r.
          if r.0 then done (hdr.e_entry, close_file file r.1) else done (0, r.1)

  pub load_elf : (path : List ℕ) → Loader F.State → Run (ℕ × Loader F.State)
  load_elf path s =
      let opened = F.f_open path 1 s.fs in load_opened opened.0 (record s { fs = opened.1 })
