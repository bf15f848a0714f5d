-- ===== src/Syscall/Tests.antt =====
-- Examples of system calls, on a file system with one file and a directory of two entries.
use os.Base.{ℕ, zero, suc, ◌≡◌, refl, arith, none, some, List, [], length, ◌⊎◌}
use os.Fat.Shelf.{shelf, AnyText, shelf-Keeps}
use os.Syscall.Writes.{syscall_read_file-syscall_writefile}
use os.Fat.Memory.{open_count, memory-IsLawful}
use os.Shell.{codes}
use os.Psf.{minus}
use os.Syscall.{
  Kernel, bytes_at, syscall_writefile, Regs, returns, mem_of, syscall_handler, string_at,
  syscall_checkdir, check_opened_dir, syscall_read_file,
}
use os.Syscall.Sample.{hello, entries, fat, blank, kernel}
use os.Syscall.Handler.{syscall_handler-opened}
use os.Syscall.Reads.{HasEntries, syscall_read_file_lem, ReadFile, opened_file}

-- `SYSCALL_CHECKDIR` of "/".
abbrev checkdir : Regs
checkdir = record { eax = 7; ebx = 0x100; ecx = 0; edx = 0; esi = 0; edi = 0 }

run_checkdir :
    syscall_handler fat 8 0x300 blank checkdir kernel
    ≡ some (returns (record checkdir { eax = 1 }) kernel)
unfolding syscall_handler string_at syscall_checkdir check_opened_dir
run_checkdir = refl

syscall_handler-opened_example : kernel.fs.opened ≡ 0
syscall_handler-opened_example =
    syscall_handler-opened fat (open_count hello entries) (memory-IsLawful hello entries) 8 0x300
      blank checkdir kernel (returns (record checkdir { eax = 1 }) kernel) run_checkdir

first_two : HasEntries fat 2 0 (record kernel.fs { opened = 1; at = 0; entry = 0 })
first_two zero lt = refl
first_two (suc zero) lt = refl
first_two (suc (suc i)) lt = absurd (omega arith)

syscall_read_file_example :
    (((opened_file fat
          (open_count hello entries)
          (memory-IsLawful hello entries)
          (codes "a")
          0x600
          4
          kernel).0
        ≡ none)
      × (syscall_read_file fat (codes "a") 0x600 4 kernel
          ≡ (minus 1, record kernel { fs = (fat.f_open (codes "a") 1 kernel.fs).1 })))
    ⊎ ((file : ℕ) × ((fat.f_open (codes "a") 1 kernel.fs).0 ≡ some file)
        × ReadFile fat
            (open_count hello entries)
            (memory-IsLawful hello entries)
            (codes "a")
            0x600
            4
            kernel
            file
            (syscall_read_file fat (codes "a") 0x600 4 kernel))
syscall_read_file_example =
    syscall_read_file_lem fat (open_count hello entries) (memory-IsLawful hello entries) (codes "a")
      0x600 4 kernel (omega arith) (omega arith) (omega arith)

abbrev shelf_kernel : Kernel (List ℕ)
shelf_kernel = record {
  fs = [];
  vmm = kernel.vmm;
  heap = kernel.heap;
  ui = kernel.ui;
  keyboard = kernel.keyboard;
}

syscall_read_file-syscall_writefile_example :
    (let w = syscall_writefile shelf (codes "a") hello shelf_kernel in
      let r = syscall_read_file shelf (codes "a") 0x600 16 w.1 in
      (w.0 ≡ 0) × (r.0 ≡ length hello) × (bytes_at (length hello) 0x600 (mem_of r.1) ≡ hello))
syscall_read_file-syscall_writefile_example =
    syscall_read_file-syscall_writefile shelf (codes "a") AnyText (shelf-Keeps (codes "a")) hello
      0x600 16 shelf_kernel tt (omega arith) (omega arith)
