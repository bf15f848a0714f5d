-- ===== src/Elf/Pages.antt =====
-- elf32/elf32.c: the loop that maps the pages of a segment.
use os.Base.{ℕ, zero, suc, ◌+◌, ◌*◌, ap, arith}
use os.Base.Word.{u32}
use os.Base.Run.{Ends}
use os.Vmm.{Vmm}
use os.Vmm.Map.{Space}
use os.Vmm.Growth.{AllMapped, AllMapped-zero, new_page-AllMapped}
use os.Elf.{user_page, map_pages}

-- The addresses of the pages from `offset` on.
abbrev pub page_at : (offset p_vaddr k : ℕ) → ℕ
page_at offset p_vaddr k = u32 (p_vaddr + (offset + 4096 * k))

-- The pages from `offset` on are mapped, as far as they lie past the first page of the memory.
abbrev pub MapsAll : (rounds offset p_vaddr : ℕ) → Vmm → Vmm → Type 0
MapsAll rounds offset p_vaddr = AllMapped (page_at offset p_vaddr) rounds

pub map_pages-MapsAll :
    (rounds offset p_vaddr : ℕ) (s : Vmm)
    → Space s
    → Ends (MapsAll rounds offset p_vaddr s) (map_pages rounds offset p_vaddr s)
unfolding map_pages
map_pages-MapsAll zero offset p_vaddr s sp = AllMapped-zero (page_at offset p_vaddr) s sp
map_pages-MapsAll (suc rounds) offset p_vaddr s sp =
    new_page-AllMapped user_page (omega arith) (page_at offset p_vaddr)
      (page_at (offset + 4096) p_vaddr) (u32 (p_vaddr + offset)) rounds (omega arith)
      (ap (λ a. u32 (p_vaddr + a)) (omega arith)) (λ k. ap (λ a. u32 (p_vaddr + a)) (omega arith))
      (λ t. map_pages rounds (offset + 4096) p_vaddr t)
      (λ t spt. map_pages-MapsAll rounds (offset + 4096) p_vaddr t spt) s sp
