-- ===== src/Cat/Tests.antt =====
-- A file of two bytes is printed.
use os.Base.{ℕ, ◌≡◌, refl, arith, some, List, [], ◌∷◌}
use os.Fat.Shelf.{shelf, AnyText, shelf-Keeps}
use os.Shell.{write, exit, codes}
use os.Syscall.{Kernel}
use os.Syscall.Sample.{kernel}
use os.Cat.{print_file}
use os.Cat.Printed.{print_file_lem}

abbrev machine : Kernel (List ℕ)
machine = record {
  fs = codes "hi";
  vmm = kernel.vmm;
  heap = kernel.heap;
  ui = kernel.ui;
  keyboard = kernel.keyboard;
}

print_file_example :
    print_file shelf 8 0x600 (codes "/note") machine
    ≡ some (write (codes "hi") ∷ write (codes "\n") ∷ exit ∷ [])
print_file_example =
    print_file_lem shelf 8 0x600 (codes "/note") AnyText (shelf-Keeps (codes "/note")) (codes "hi")
      machine refl (omega arith, (omega arith, tt)) (omega arith) (omega arith) (omega arith)
