-- ===== src/Boot/Pages.antt =====
-- kernel.c: the memory that the framebuffer and the heap are given.
use os.Base.{ℕ, ◌<◌, ◌≤◌}
use os.Base.Word.{u32}
use os.Fb.{FramebufferInfo}
use os.Vmm.{Vmm}
use os.Vmm.Growth.{Grown, IsMapped}
use os.Boot.Memory.{framebuffer_page, heap_page, framebuffer_rounds}

-- The pages of the framebuffer and those from `addr` on are mapped, and what was mapped before.
pub record HeapReady (mbd : FramebufferInfo) (rounds addr : ℕ) (s t : Vmm) : Type 0 where
  pub grown : Grown s t
  pub framebuffer :
      (i : ℕ)
      → i < framebuffer_rounds mbd
      → 4096 ≤ framebuffer_page (u32 mbd.framebuffer_addr) 0 i
      → IsMapped t (framebuffer_page (u32 mbd.framebuffer_addr) 0 i)
  pub heap : (i : ℕ) → i < rounds → IsMapped t (heap_page addr i)
