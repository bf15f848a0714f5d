-- ===== src/Boot/Tests.antt =====
-- A start with 16 MB of memory, of which the first two frames are used, and a framebuffer of one page.
use os.Base.{ℕ, List, ◌∷◌, replicate}
use os.Base.Run.{Run, done, halt, ◌>>=◌}
use os.Base.Word.{has_flag, set_flag}
use os.Fb.{FramebufferInfo}
use os.Pmm.{pmm_alloc_frame, alloc_loop, use_frame, mark_frame, test_frame}
use os.Vmm.{Vmm, vmm_map_page, map_entry, add_table, clear_words}
use os.Boot.{map_framebuffer_loop, map_framebuffer_pages, map_heap_loop}

abbrev one_page : FramebufferInfo
one_page = record {
  framebuffer_addr = 0xFD000000;
  framebuffer_pitch = 64;
  framebuffer_width = 16;
  framebuffer_height = 64;
  framebuffer_bpp = 32;
}

abbrev bitmap : List ℕ
bitmap = 3 ∷ replicate 127 0

abbrev at_start : Vmm
at_start = record {
  page_directory = 0x1000;
  first_page_table = 0x40000;
  mem = λ a. 0;
  pmm = record { frame_bitmap = bitmap; total_frames = 4096; used_frames = 2 };
  reach = 0x40_0000;
}

abbrev value_of : Run Vmm → Vmm → Vmm
value_of (done t) d = t
value_of halt d = d

after_two : Vmm
unfolding map_framebuffer_pages map_framebuffer_loop map_heap_loop pmm_alloc_frame alloc_loop
    test_frame use_frame mark_frame has_flag set_flag vmm_map_page map_entry add_table clear_words
after_two =
    value_of (map_framebuffer_pages one_page at_start >>= λ u. map_heap_loop 2 0xC1000000 u)
      at_start
