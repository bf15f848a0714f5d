-- ===== src/Init.antt =====
-- user_programs/init.c: the settings of /shellrc are read and made, then the shell is started. A string
-- is the list of its bytes in front of the 0; a 0 that the program stores ends a part of its line.
pub mod Lines
pub mod Settings
pub mod Start
mod Tests
use os.Base.{
  ℕ, zero, suc, ◌+◌, Bool, true, false, ◌&&◌, ◌||◌, Option, none, some, List, [], ◌∷◌, ◌++◌, length,
  drop, ◌==◌, if◌then◌else◌,
}
use os.Base.Maybe.{◌>>=◌}
use os.Strings.{store_byte}
use os.Fat.{FatFs}
use os.Fb.{is_negative}
use os.Theme.{starts_with}
use os.Shell.{Call, ldtheme, termfont, exec, codes, same_text}
use os.Syscall.{Kernel, mem_of, string_at, syscall_read_file}

abbrev pub is_blank : ℕ → Bool
is_blank c = (c == 32) || (c == 9)

abbrev pub is_end : ℕ → Bool
is_end c = ((c == 32) || (c == 9)) || ((c == 10) || (c == 13))

-- The first loop of `trim`.
pub skip_blanks : List ℕ → List ℕ
skip_blanks [] = []
skip_blanks (c ∷ cs) = if is_blank c then skip_blanks cs else c ∷ cs

-- The second one, which goes back from the end.
pub drop_end : List ℕ → List ℕ
drop_end [] = []
drop_end (c ∷ cs) =
    let rest = drop_end cs in if (length rest == 0) && is_end c then [] else c ∷ rest

-- It stops at the first byte.
abbrev pub keep_first : List ℕ → List ℕ
keep_first [] = []
keep_first (c ∷ cs) = c ∷ drop_end cs

pub trim : List ℕ → List ℕ
trim s = keep_first (skip_blanks s)

-- The line at `cursor`, and what follows its newline.
pub split_line : List ℕ → List ℕ × List ℕ
split_line [] = ([], [])
split_line (c ∷ cs) = let r = split_line cs in if c == 10 then ([], cs) else (c ∷ r.0, r.1)

-- What stands before and behind the first `=`.
pub split_equal : List ℕ → Option (List ℕ × List ℕ)
split_equal [] = none
split_equal (c ∷ cs) =
    let rest = split_equal cs in
    if c == b'=' then some ([], cs) else (rest >>= λ r. some (c ∷ r.0, r.1))

-- The calls for a key and a value.
pub set_value : Option (List ℕ × List ℕ) → List Call
set_value none = []
set_value (some (key, value)) =
    if same_text (trim key) (codes "theme")
    then ldtheme (trim value) ∷ []
    else if same_text (trim key) (codes "font")
    then termfont (trim value) ∷ []
    else []

pub load_line : List ℕ → List Call
load_line line =
    if starts_with (codes "set ") line then set_value (split_equal (drop 4 line)) else []

-- The loop over the lines, with `rounds` as fuel.
pub load_loop : (rounds : ℕ) → (text : List ℕ) → Option (List Call)
load_loop zero text = none
load_loop (suc rounds) [] = some []
load_loop (suc rounds) (c ∷ cs) =
    let l = split_line (c ∷ cs) in load_loop rounds l.1 >>= λ calls. some (load_line l.0 ++ calls)

-- `buf` is the address of the array of that name.
module _ (F : FatFs) (fuel buf : ℕ) where
  pub shell_load_rc : Kernel F.State → Option (List Call)
  shell_load_rc k =
      let r = syscall_read_file F (codes "/shellrc") buf 1023 k in
      if (r.0 == 0) || is_negative r.0
      then some []
      else (string_at fuel buf (store_byte (mem_of r.1) (buf + r.0) 0) >>= λ text.
          load_loop (length text + 1) text)

  -- `_start`
  pub start : Kernel F.State → Option (List Call)
  start k =
      shell_load_rc k >>= λ calls. some (calls ++ (exec (codes "/bin/shell.elf") (codes "/") ∷ []))
