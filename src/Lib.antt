-- ===== src/Lib.antt =====
-- A small kernel for i386: frames of physical memory, page tables, a heap, strings, a terminal, a keyboard.
--
-- The parts and their files:
--   Pmm        pmm.c, the bitmap of frames: pmm_init, pmm_alloc_frame, pmm_free_frame, boot_alloc.
--   Vmm        vmm.c, page directories and tables: vmm_map_page, vmm_identity_map_first_4mb,
--              vmm_create_user_directory. Page tables are frames that Pmm hands out.
--   Heap       heap.c, the list of blocks behind kmalloc and kfree.
--   Strings    string.c, memcpy to strncmp over a memory of bytes, which Fb and Gterm use too.
--   Fb         drivers/video/framebuffer.c, pixels.
--   Gterm      drivers/video/gterminal.c, the text terminal on the framebuffer, with draw_char_psf of
--              drivers/video/font_psf.c.
--   Keyboard   keyboard_driver.c, the handler of the keyboard's interrupt and its ring buffer.
--   Vga        vga_driver.c, the terminal in text mode.
--   Idt        idt.c, gates of interrupts, the handlers of irq_handler.
--   Gdt        gdt.c, segment descriptors.
--   Theme      ui/theme.c, colors read from the lines of a file.
--   Console    kernel/console.c, the one terminal of the kernel, on Gterm, Fb and Theme.
--   Xedit      user_programs/xedit.c, the editor: its text and cursor, what it draws, the file that it
--              loads and saves over Syscall, and its loop over the keys.
--   Tss, Pit   tss.c and drivers/timer/pit.c, the task state segment and the divisor of the timer.
--   Ustring    user_programs/string.h, the routines that string.c does not have.
--   Fat        the calls of FatFs that the kernel makes, as a parameter with laws.
--   Elf        elf32/elf32.c, load_elf and unload_elf over Vmm, Pmm and Fat.
--   Disk       fatfs/ata.c and fatfs/diskio.c, sectors over the ports of a drive, a parameter too.
--   Psf        drivers/video/font_psf.c, load_psf1_font over Fat and Heap.
--   Syscall    syscall.c, the cases of syscall_handler over all of the above.
--   Ucall      user_programs/syscall.h, the system calls as the programs make them, by registers.
--   Shell      user_programs/shell.c and readline of user_programs/syscall.h; the answers of the kernel
--              are a parameter.
--   Boot       kernel.c, kernel_main: from the memory map that the boot loader gives over the frames,
--              the paging and the heap to the first program, with ui/ui.c.
--   Ls, Init,  user_programs/ls.c, init.c and cat.c, over the system calls of Syscall.
--   Cat
--   Task       task.c, the ways to user mode: what is pushed for `iret`, and what it loads.
--   Faults     idt.c and vmm.c, what the handlers of exceptions print.
--   Base       what the parts share: tests, lists, bits and words over the native numbers.
--
-- State is passed explicitly: each part has a record of its static variables (Pmm, Vmm, Heap, Keyboard),
-- and an operation takes it and gives it back. Functions keep the names that they have in C; a loop
-- is a function of its own, named after its work or after the function with `_loop`. A routine that
-- may stop the machine (`pmm_panic`, `while (1) {}`) gives `Run`, one that follows pointers gives
-- `Outcome`, with a fault for a header that was never written.
--
-- Machine words are natural numbers with the wrap-around written out (Base/Word). A C array is a
-- list: a read past its end gives a default, and a write past it is dropped; the invariants rule
-- both out.
--
-- Loops: the loop over the frames counts down from the number of frames, that over the memory map
-- from the number of entries, both exact. The loops over the list of blocks have fuel, one round
-- for each header that the heap has room for; the refinement theorems show that a result comes. The
-- loops over strings have fuel as an argument, and their theorems ask for one round more than the
-- string has bytes. The waits for the disk have fuel too: with more of it than the drive is busy, they
-- end.
--
-- Not modelled: what is printed for the log, the reading of ports outside Disk, inline assembly
-- outside Ucall and Task (a write to a port is a value, `PortWrite` of Idt), and FatFs, a library whose
-- copy stands in the repository: Fat has its calls as a parameter, and the theorems that need it name
-- what they ask of it. The user programs sfetch, test and dih_read are not part of this development.
-- A string that a system call takes is read from the memory, with fuel for its length, and ls and init
-- have a round of fuel for each entry or byte; `load_theme` has one for
-- each block of its file.
--
-- Physical memory: the kernel goes to page tables by their physical addresses, which works until paging
-- is on, and then below 4 MB only. `Vmm` has the end of what is reached; past it `vmm_map_page` is where
-- the model ends. The bytes of programs are kept by virtual address, apart from the page tables; so a
-- segment that starts in the first 4 MB, over the kernel and its tables, ends the model too.
pub mod Base
pub mod Pmm
pub mod Heap
pub mod Keyboard
pub mod Vmm
pub mod Strings
pub mod Fb
pub mod Gterm
pub mod Idt
pub mod Gdt
pub mod Vga
pub mod Theme
pub mod Console
pub mod Xedit
pub mod Tss
pub mod Pit
pub mod Ustring
pub mod Fat
pub mod Elf
pub mod Disk
pub mod Psf
pub mod Syscall
pub mod Shell
pub mod Ls
pub mod Init
pub mod Boot
pub mod Ucall
pub mod Cat
pub mod Faults
pub mod Task
