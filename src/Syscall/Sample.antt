-- ===== src/Syscall/Sample.antt =====
-- A kernel to run system calls on, with a file system of one file and a directory of two entries.
use os.Base.{ℕ, false, none, List, [], ◌∷◌, ◌==◌, if◌then◌else◌}
use os.Fat.{FatFs, FilInfo}
use os.Fat.Memory.{Disk, memory}
use os.Strings.{Bytes}
use os.Theme.{default_theme}
use os.Shell.{codes}
use os.Syscall.{Kernel}

abbrev pub hello : List ℕ
hello = codes "hello"

abbrev pub shell_entry : FilInfo
shell_entry = record { fname = codes "shell.elf"; fattrib = 0x20 }

abbrev pub entries : List FilInfo
entries = record { fname = codes "bin"; fattrib = 0x10 } ∷ shell_entry ∷ []

abbrev pub fat : FatFs
fat = memory hello entries

abbrev pub blank : Bytes
blank p = 0

-- The string "/" is at 0x100.
abbrev pub kernel : Kernel Disk
kernel = record {
  fs = record { opened = 0; at = 0; entry = 0 };
  vmm = record {
    page_directory = 0x1000;
    first_page_table = 0x40000;
    mem = blank;
    reach = 0x40_0000;
    pmm = record { frame_bitmap = 3 ∷ []; total_frames = 32; used_frames = 2 };
  };
  heap = record { mem = λ a. none; free_list = 0; heap_start = 0; heap_end = 0 };
  ui = record {
    fb = record { addr = 0xFD00_0000; width = 640; height = 480; pitch = 2560; bpp = 32 };
    font = record { glyph_buffer = 0x20_0000; glyph_count = 256; glyph_size = 16 };
    term = record {
      cursor_x = 0;
      cursor_y = 0;
      fg = 0xFFFFFF;
      bg = 0;
      cols = 80;
      rows = 30;
      cursor_visible = 1;
      cursor_char_under = 32;
    };
    theme = default_theme;
    mem = λ p. if p == 0x100 then b'/' else 0;
  };
  keyboard = record {
    shift_pressed = false;
    caps_lock = false;
    ctrl_pressed = false;
    extended = false;
    key_buffer = [];
    buffer_head = 0;
    buffer_tail = 0;
  };
}
