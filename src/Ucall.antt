-- ===== src/Ucall.antt =====
-- user_programs/syscall.h: the system calls as the user programs make them, each an `int $0x80` with the
-- number and the arguments in registers. A pointer is an address of the memory.
pub mod Meaning
pub mod Keys
mod Tests
use os.Base.{ℕ, ◌%◌, Option, none, some, List}
use os.Strings.{Bytes}
use os.Fat.{FatFs}
use os.Syscall.{Regs, Kernel, Ended, returns, user_mode, stopped, syscall_handler}

-- The functions with their arguments.
pub data Stub : Type 0 where
  clear_line_from : (col : ℕ) → Stub
  movecursor : (row col : ℕ) → Stub
  drawpixel : (x y color : ℕ) → Stub
  drawimage : (x y width height pixels : ℕ) → Stub
  write : (str : ℕ) → Stub
  writeint : (num : ℕ) → Stub
  readchar : Stub
  termcolor : (fg bg : ℕ) → Stub
  exit : Stub
  exec : (filename cwd : ℕ) → Stub
  checkdir : (path : ℕ) → Stub
  recovercwd : (dest : ℕ) → Stub
  readdir : (path entry index : ℕ) → Stub
  writefile : (path bytes len : ℕ) → Stub
  termclear : Stub
  termfont : (filename : ℕ) → Stub
  termgetfg : Stub
  termgetbg : Stub
  ldtheme : (theme_path : ℕ) → Stub
  gettheme : (theme : ℕ) → Stub
  read_file : (path buf size : ℕ) → Stub

-- The registers that the `asm` loads. The others have what they had.
pub loaded : Stub → Regs → Regs
loaded (clear_line_from col) r = record r { eax = 21; ebx = col }
loaded (movecursor row col) r = record r { eax = 20; ebx = row; ecx = col }
loaded (drawpixel x y color) r = record r { eax = 18; ebx = x; ecx = y; edx = color }
loaded (drawimage x y width height pixels) r = record r {
  eax = 19;
  ebx = x;
  ecx = y;
  edx = width;
  esi = height;
  edi = pixels;
}
loaded (write str) r = record r { eax = 1; ebx = str }
loaded (writeint num) r = record r { eax = 2; ebx = num }
loaded readchar r = record r { eax = 3 }
loaded (termcolor fg bg) r = record r { eax = 4; ebx = fg; ecx = bg }
loaded exit r = record r { eax = 6 }
loaded (exec filename cwd) r = record r { eax = 5; ebx = filename; ecx = cwd }
loaded (checkdir path) r = record r { eax = 7; ebx = path }
loaded (recovercwd dest) r = record r { eax = 8; ebx = dest }
loaded (readdir path entry index) r = record r { eax = 9; ebx = path; ecx = entry; edx = index }
loaded (writefile path bytes len) r = record r { eax = 10; ebx = path; ecx = bytes; edx = len }
loaded termclear r = record r { eax = 11 }
loaded (termfont filename) r = record r { eax = 12; ebx = filename }
loaded termgetfg r = record r { eax = 13 }
loaded termgetbg r = record r { eax = 14 }
loaded (ldtheme theme_path) r = record r { eax = 15; ebx = theme_path }
loaded (gettheme theme) r = record r { eax = 16; ebx = theme }
loaded (read_file path buf size) r = record r { eax = 17; ebx = path; ecx = buf; edx = size }

-- The value of the function from `eax`: a `char` is the low byte, and a `void` function has none, for
-- which 0 stands.
pub value : Stub → (eax : ℕ) → ℕ
value (clear_line_from col) eax = 0
value (movecursor row col) eax = 0
value (drawpixel x y color) eax = 0
value (drawimage x y width height pixels) eax = 0
value (write str) eax = eax
value (writeint num) eax = eax
value readchar eax = eax % 256
value (termcolor fg bg) eax = 0
value exit eax = 0
value (exec filename cwd) eax = eax
value (checkdir path) eax = eax
value (recovercwd dest) eax = 0
value (readdir path entry index) eax = eax
value (writefile path bytes len) eax = eax
value termclear eax = 0
value (termfont filename) eax = eax
value termgetfg eax = eax
value termgetbg eax = eax
value (ldtheme theme_path) eax = eax
value (gettheme theme) eax = eax
value (read_file path buf size) eax = eax

-- How a call ends for the program: it has a value, another program runs, or nothing does.
pub data Answer (S : Type 0) : Type 0 where
  answers : (ret : ℕ) → Kernel S → Answer S
  leaves : (entry : ℕ) → Kernel S → Answer S
  never : Answer S

abbrev pub answer : {S : Type 0} → Stub → Ended S → Answer S
answer c (returns regs k) = answers (value c regs.eax) k
answer c (user_mode entry k) = leaves entry k
answer c stopped = never

abbrev pub answered : {S : Type 0} → Stub → Option (Ended S) → Option (Answer S)
answered c none = none
answered c (some e) = some (answer c e)

module _ (F : FatFs) (fuel cwd : ℕ) (stack : ℕ → ℕ) where
  -- A call of a function, with the registers as they are before it.
  pub call : Stub → Regs → Kernel F.State → Option (Answer F.State)
  call c regs k = answered c (syscall_handler F fuel cwd stack (loaded c regs) k)
