-- ===== src/Syscall/State.antt =====
-- syscall.c: the state that the system calls work on, and what they read from the memory.
use os.Base.{ℕ, zero, suc, ◌+◌, ◌*◌, Option, none, some, List, [], ◌∷◌, ◌==◌, if◌then◌else◌}
use os.Base.Maybe.{◌>>=◌}
use os.Strings.{Bytes}
use os.Keyboard.{Keyboard}
use os.Vmm.{Vmm}
use os.Elf.{Loader}
use os.Heap.{Heap}
use os.Psf.{FontState}
use os.Console.{UiContext}

-- `struct regs`, as far as the handler reads it.
pub record Regs : Type 0 where
  pub eax : ℕ
  pub ebx : ℕ
  pub ecx : ℕ
  pub edx : ℕ
  pub esi : ℕ
  pub edi : ℕ

pub record Kernel (S : Type 0) : Type 0 where
  pub fs : S
  pub vmm : Vmm
  pub heap : Heap
  pub ui : UiContext
  pub keyboard : Keyboard

-- How the handler ends: it returns, it goes to user mode at an entry point, or it does not end,
-- because the processor is stopped, the heap is broken, or no key comes.
pub data Ended (S : Type 0) : Type 0 where
  returns : Regs → Kernel S → Ended S
  user_mode : (entry : ℕ) → Kernel S → Ended S
  stopped : Ended S

module _ {S : Type 0} where
  abbrev pub mem_of : Kernel S → Bytes
  mem_of k = k.ui.mem

  abbrev pub with_mem : Bytes → Kernel S → Kernel S
  with_mem m k = record k { ui = record k.ui { mem = m } }

  abbrev pub with_ui : UiContext → Kernel S → Kernel S
  with_ui ui k = record k { ui = ui }

  abbrev pub loader_of : Kernel S → Loader S
  loader_of k = record { fs = k.fs; vmm = k.vmm; mem = mem_of k }

  abbrev pub with_loader : Loader S → Kernel S → Kernel S
  with_loader l k = record (with_mem l.mem k) { fs = l.fs; vmm = l.vmm }

  abbrev pub font_state : Kernel S → FontState S
  font_state k = record { fs = k.fs; heap = k.heap; mem = mem_of k; font = k.ui.font }

  abbrev pub with_font : FontState S → Kernel S → Kernel S
  with_font f k = record k {
    fs = f.fs;
    heap = f.heap;
    ui = record k.ui { mem = f.mem; font = f.font };
  }

  abbrev pub return : (eax : ℕ) → Regs → Kernel S → Option (Ended S)
  return eax regs k = some (returns (record regs { eax = eax }) k)

  -- `break` with `eax` as it is.
  abbrev pub keep : Regs → Kernel S → Option (Ended S)
  keep regs k = some (returns regs k)

-- The string at an address, up to its 0.
unfoldable pub string_at : (fuel a : ℕ) → Bytes → Option (List ℕ)
string_at zero a m = none
string_at (suc fuel) a m =
    let rest = string_at fuel (a + 1) m in
    if m a == 0 then some [] else (rest >>= λ cs. some (m a ∷ cs))

unfoldable pub bytes_at : (n a : ℕ) → Bytes → List ℕ
bytes_at zero a m = []
bytes_at (suc n) a m = m a ∷ bytes_at n (a + 1) m

-- A word of the memory, little-endian.
abbrev pub word_at : ℕ → Bytes → ℕ
word_at a m = m a + 0x100 * m (a + 1) + 0x10000 * m (a + 2) + 0x1000000 * m (a + 3)
