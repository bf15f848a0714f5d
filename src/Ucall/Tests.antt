-- ===== src/Ucall/Tests.antt =====
-- A call of `syscall_checkdir` for "/", and two keys that are read.
use os.Base.{ℕ, List, [], ◌∷◌, ◌++◌, ◌≡◌, arith, replicate, length-replicate}
use os.Fat.Memory.{Disk}
use os.Keyboard.Buffer.{IsValid, queued}
use os.Syscall.{Regs, Kernel}
use os.Syscall.Sample.{fat, blank, kernel}
use os.Ucall.{checkdir, call}
use os.Ucall.Keys.{put_all, Reads, readchar-buffer_put}
use os.Ucall.Meaning.{meaning, call-meaning}

abbrev regs : Regs
regs = record { eax = 1; ebx = 2; ecx = 3; edx = 4; esi = 5; edi = 6 }

call-meaning_example :
    call fat 8 0x300 blank (checkdir 0x100) regs kernel
    ≡ meaning fat 8 0x300 blank (checkdir 0x100) kernel
call-meaning_example = call-meaning fat 8 0x300 blank (checkdir 0x100) regs kernel

abbrev machine : Kernel Disk
machine = record kernel { keyboard = record kernel.keyboard { key_buffer = replicate 256 0 } }

machine-IsValid : IsValid machine.keyboard
machine-IsValid = record {
  size = length-replicate {A = ℕ} 256 0;
  head_in = omega arith;
  tail_in = omega arith;
}

abbrev keys : List ℕ
keys = b'l' ∷ b's' ∷ []

readchar-buffer_put_example :
    Reads fat 8 0x300 blank
      (queued machine.keyboard ++ keys)
      (record machine { keyboard = put_all keys machine.keyboard })
readchar-buffer_put_example =
    readchar-buffer_put fat 8 0x300 blank keys machine machine-IsValid (omega arith)
      (omega arith, (omega arith, tt))
