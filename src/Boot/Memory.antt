-- ===== src/Boot/Memory.antt =====
-- kernel.c: the loops that map the framebuffer, the heap and the stack.
use os.Base.{ℕ, zero, suc, ◌+◌, ◌-◌, ◌*◌, ◌/◌, ◌^◌, ◌≤◌, ap, ltb, arith, Bool-cases, inl, inr}
use os.Base.Word.{u32}
use os.Base.Run.{Ends}
use os.Vmm.{Vmm}
use os.Vmm.Map.{Space}
use os.Vmm.Growth.{AllMapped, AllMapped-zero, new_page-AllMapped, same_page-AllMapped}
use os.Fb.{FramebufferInfo}
use os.Boot.{
  kheap_start, user_stack_top, kernel_page, stack_page, map_framebuffer_loop, map_framebuffer_pages,
  map_heap_loop, map_heap_pages, map_stack_loop, map_user_stack,
}

abbrev pub framebuffer_page : (fb_addr offset k : ℕ) → ℕ
framebuffer_page fb_addr offset k = u32 (fb_addr + (offset + 4096 * k))

abbrev pub heap_page : (addr k : ℕ) → ℕ
heap_page addr k = addr + 4096 * k

abbrev pub stack_page_at : (i k : ℕ) → ℕ
stack_page_at i k = user_stack_top - (i + k) * 4096

map_framebuffer_loop-AllMapped :
    (rounds offset fb_addr : ℕ) (s : Vmm)
    → Space s
    → Ends
        (AllMapped (framebuffer_page fb_addr offset) rounds s)
        (map_framebuffer_loop rounds offset fb_addr s)
unfolding map_framebuffer_loop
map_framebuffer_loop-AllMapped zero offset fb_addr s sp =
    AllMapped-zero (framebuffer_page fb_addr offset) s sp
map_framebuffer_loop-AllMapped (suc rounds) offset fb_addr s sp =
    same_page-AllMapped kernel_page (omega arith) (framebuffer_page fb_addr offset)
      (framebuffer_page fb_addr (offset + 4096)) (u32 (fb_addr + offset)) rounds (omega arith)
      (ap (λ a. u32 (fb_addr + a)) (omega arith)) (λ k. ap (λ a. u32 (fb_addr + a)) (omega arith))
      (λ t. map_framebuffer_loop rounds (offset + 4096) fb_addr t)
      (λ t spt. map_framebuffer_loop-AllMapped rounds (offset + 4096) fb_addr t spt) s sp

pub map_heap_loop-AllMapped :
    (rounds addr : ℕ) (s : Vmm)
    → addr + 4096 * rounds ≤ 2 ^ 32
    → Space s
    → Ends (AllMapped (heap_page addr) rounds s) (map_heap_loop rounds addr s)
unfolding map_heap_loop
map_heap_loop-AllMapped zero addr s le sp = AllMapped-zero (heap_page addr) s sp
map_heap_loop-AllMapped (suc rounds) addr s le sp =
    new_page-AllMapped kernel_page (omega arith) (heap_page addr) (heap_page (addr + 4096)) addr
      rounds (omega arith) (omega arith) (λ k. omega arith)
      (λ t. map_heap_loop rounds (addr + 4096) t)
      (λ t spt. map_heap_loop-AllMapped rounds (addr + 4096) t (omega arith) spt) s sp

map_stack_loop-AllMapped :
    (rounds i : ℕ) (s : Vmm)
    → Space s
    → Ends (AllMapped (stack_page_at i) rounds s) (map_stack_loop rounds i s)
unfolding map_stack_loop
map_stack_loop-AllMapped zero i s sp = AllMapped-zero (stack_page_at i) s sp
map_stack_loop-AllMapped (suc rounds) i s sp =
    new_page-AllMapped stack_page (omega arith) (stack_page_at i) (stack_page_at (i + 1))
      (user_stack_top - i * 4096) rounds (omega arith) (omega arith) (λ k. omega arith)
      (λ t. map_stack_loop rounds (i + 1) t)
      (λ t spt. map_stack_loop-AllMapped rounds (i + 1) t spt) s sp

-- The number of pages of the framebuffer.
abbrev pub framebuffer_rounds : FramebufferInfo → ℕ
framebuffer_rounds mbd = (u32 (mbd.framebuffer_pitch * mbd.framebuffer_height) + 4095) / 4096

pub map_framebuffer_pages-AllMapped :
    (mbd : FramebufferInfo) (s : Vmm)
    → Space s
    → Ends
        (AllMapped (framebuffer_page (u32 mbd.framebuffer_addr) 0) (framebuffer_rounds mbd) s)
        (map_framebuffer_pages mbd s)
unfolding map_framebuffer_pages
map_framebuffer_pages-AllMapped mbd s sp =
    let size = u32 (mbd.framebuffer_pitch * mbd.framebuffer_height) in
    elim (Bool-cases (ltb 0xFFFFF000 size)) [
      | inl large ↦ rw large tt
      | inr fits ↦ rw fits (
          map_framebuffer_loop-AllMapped (framebuffer_rounds mbd) 0 (u32 mbd.framebuffer_addr) s sp)
    ]

pub map_heap_pages-AllMapped :
    (s : Vmm) → Space s → Ends (AllMapped (heap_page kheap_start) 512 s) (map_heap_pages s)
unfolding map_heap_pages
map_heap_pages-AllMapped s sp = map_heap_loop-AllMapped 512 kheap_start s (omega arith) sp

pub map_user_stack-AllMapped :
    (s : Vmm) → Space s → Ends (AllMapped (stack_page_at 0) 512 s) (map_user_stack s)
unfolding map_user_stack
map_user_stack-AllMapped s sp = map_stack_loop-AllMapped 512 0 s sp
