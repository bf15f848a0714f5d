-- ===== src/Boot.antt =====
-- kernel.c: the memory that the kernel starts with, and its way to the first program.
pub mod Memory
pub mod Pages
mod Tests
use os.Base.{
  ℕ, zero, suc, ◌+◌, ◌-◌, ◌*◌, ◌/◌, Option, none, some, List, bit_or, ◌==◌, if◌then◌else◌,
}
use os.Base.Word.{u32}
use os.Base.Run.{Run, done, halt, ◌>>=◌}
use os.Pmm.{Pmm, MultibootInfo, pmm_alloc_frame, pmm_init}
use os.Vmm.{Vmm, vmm_map_page, vmm_identity_map_first_4mb, page_present, page_rw, page_user}
use os.Heap.{heap_init, Outcome, ok, fault, out_of_fuel}
use os.Fat.{FatFs}
use os.Fb.{FramebufferInfo, fb_init}
use os.Gterm.{gterminal_init}
use os.Elf.{Loader, load_elf, pages}
use os.Psf.{FontState, load_psf1_font}
use os.Shell.{codes}
use os.Syscall.{
  Kernel, Ended, user_mode, stopped, with_ui, font_state, with_font, loader_of, with_loader,
}

abbrev pub kheap_start : ℕ
kheap_start = 0xC1000000

abbrev pub kheap_initial_size : ℕ
kheap_initial_size = 0x200000

abbrev pub user_stack_top : ℕ
user_stack_top = 0xBFFFF000

abbrev pub user_stack_size : ℕ
user_stack_size = 0x200000

abbrev pub kernel_page : ℕ
kernel_page = bit_or page_present page_rw

abbrev pub stack_page : ℕ
stack_page = bit_or (bit_or page_present page_user) page_rw

-- What `pmm_init` reads at the symbols of the linker script, the numbers that are stored there and not the
-- addresses of the symbols, and `boot_heap_ptr`.
pub record Linked : Type 0 where
  pub boot_heap_end : ℕ
  pub boot_heap_ptr : ℕ
  pub kernel_start : ℕ
  pub kernel_end : ℕ

-- Frames are taken, and their addresses not used.
pub reserve_loop : (rounds : ℕ) → Pmm → Run Pmm
reserve_loop zero p = done p
reserve_loop (suc rounds) p = pmm_alloc_frame p >>= λ frame. reserve_loop rounds frame.1

-- The calls from `pmm_init` to `vmm_init`, whose gate is one of `Idt`: paging is on from there.
pub boot_paging : Linked → MultibootInfo → (magic : ℕ) → Vmm → Run Vmm
boot_paging at mbi magic s =
    pmm_init at.boot_heap_end at.boot_heap_ptr at.kernel_start at.kernel_end mbi magic >>= λ r.
    reserve_loop 5 r.0 >>= λ p.
    done (record (vmm_identity_map_first_4mb (record s { pmm = p })) { reach = 0x40_0000 })

-- The loops have the rounds that are left. The results of `vmm_map_page` are not looked at.
pub map_framebuffer_loop : (rounds offset fb_addr : ℕ) → Vmm → Run Vmm
map_framebuffer_loop zero offset fb_addr s = done s
map_framebuffer_loop (suc rounds) offset fb_addr s =
    vmm_map_page (u32 (fb_addr + offset)) (u32 (fb_addr + offset)) kernel_page s >>= λ r.
    map_framebuffer_loop rounds (offset + 4096) fb_addr r.1

pub map_framebuffer_pages : FramebufferInfo → Vmm → Run Vmm
map_framebuffer_pages mbd s =
    pages (u32 (mbd.framebuffer_pitch * mbd.framebuffer_height)) >>= λ rounds.
    map_framebuffer_loop rounds 0 (u32 mbd.framebuffer_addr) s

pub map_heap_loop : (rounds addr : ℕ) → Vmm → Run Vmm
map_heap_loop zero addr s = done s
map_heap_loop (suc rounds) addr s = pmm_alloc_frame s.pmm >>= λ frame.
    vmm_map_page addr frame.0 kernel_page (record s { pmm = frame.1 }) >>= λ r.
    map_heap_loop rounds (addr + 4096) r.1

pub map_heap_pages : Vmm → Run Vmm
map_heap_pages s = map_heap_loop (kheap_initial_size / 4096) kheap_start s

pub map_stack_loop : (rounds i : ℕ) → Vmm → Run Vmm
map_stack_loop zero i s = done s
map_stack_loop (suc rounds) i s = pmm_alloc_frame s.pmm >>= λ frame.
    vmm_map_page (user_stack_top - i * 4096) frame.0 stack_page (record s { pmm = frame.1 })
    >>= λ r. map_stack_loop rounds (i + 1) r.1

pub map_user_stack : Vmm → Run Vmm
map_user_stack s = map_stack_loop (user_stack_size / 4096) 0 s

-- `f_mount` is the one of FatFs, on the state of the file system.
module _ (F : FatFs) (f_mount : F.State → F.State) (stack : ℕ → ℕ) where
  -- What follows `load_psf1_font` in `ui_init`. Without a font `gterminal_init` divides by 0, and the
  -- processor does not come back.
  pub ui_loaded : Outcome (ℕ × FontState F.State) → Kernel F.State → Option (Run (Kernel F.State))
  ui_loaded (ok (err, f)) k =
      let k' = with_font f k in
      if f.font.glyph_size == 0
      then some halt
      else some
          (done (with_ui (record k'.ui { term = gterminal_init k'.ui.term k'.ui.fb f.font }) k'))
  ui_loaded fault k = some halt
  ui_loaded out_of_fuel k = none

  pub ui_init : FramebufferInfo → Kernel F.State → Option (Run (Kernel F.State))
  ui_init mbd k =
      let k' = with_ui (record k.ui { fb = fb_init mbd }) k in
      ui_loaded (load_psf1_font F stack (codes "fonts/aply16.psf") (font_state k')) k'

  pub stack_mapped : (elf_entry : ℕ) → Kernel F.State → Run Vmm → Ended F.State
  stack_mapped elf_entry k halt = stopped
  stack_mapped elf_entry k (done vmm) = user_mode elf_entry (record k { vmm = vmm })

  pub init_loaded : Kernel F.State → Run (ℕ × Loader F.State) → Ended F.State
  init_loaded k halt = stopped
  init_loaded k (done (elf_entry, l)) =
      stack_mapped elf_entry (with_loader l k) (map_user_stack l.vmm)

  pub ui_ready : Option (Run (Kernel F.State)) → Option (Ended F.State)
  ui_ready none = none
  ui_ready (some halt) = some stopped
  ui_ready (some (done k)) = some (init_loaded k (load_elf F (codes "bin/init.elf") (loader_of k)))

  pub heap_mapped : FramebufferInfo → Kernel F.State → Run Vmm → Option (Ended F.State)
  heap_mapped mbd k halt = some stopped
  heap_mapped mbd k (done vmm) = ui_ready (
      ui_init mbd (record k {
        vmm = vmm;
        heap = heap_init kheap_start kheap_initial_size k.heap.mem;
        fs = f_mount k.fs;
      }))

  pub paging_ready : FramebufferInfo → Kernel F.State → Run Vmm → Option (Ended F.State)
  paging_ready mbd k halt = some stopped
  paging_ready mbd k (done vmm) =
      heap_mapped mbd (record k { vmm = vmm }) (map_framebuffer_pages mbd vmm >>= map_heap_pages)

  -- Of what `mbd` points to, `mbi` has the fields that `pmm_init` reads.
  pub kernel_main :
      Linked
      → (mbi : MultibootInfo) (mbd : FramebufferInfo) (magic : ℕ) → Kernel F.State
      → Option (Ended F.State)
  kernel_main at mbi mbd magic k = paging_ready mbd k (boot_paging at mbi magic k.vmm)
