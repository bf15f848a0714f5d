-- ===== src/Ls.antt =====
-- user_programs/ls.c: the listing of a directory, over `SYSCALL_READDIR` of the kernel.
pub mod Names
pub mod Listing
mod Tests
use os.Base.{
  ℕ, zero, suc, ◌+◌, Option, none, some, List, [], ◌∷◌, ◌++◌, length, ◌==◌, ◌!=◌, if◌then◌else◌,
}
use os.Base.Maybe.{◌>>=◌}
use os.Fat.{FatFs}
use os.Theme.{Theme}
use os.Shell.{Call, write, termcolor, gettheme, recovercwd, exit, codes}
use os.Syscall.{Kernel, mem_of, string_at, syscall_readdir}

-- The calls for one entry.
pub print_entry : Theme → (name : List ℕ) → (is_dir : ℕ) → List Call
print_entry t name is_dir =
    if is_dir != 0
    then termcolor t.light_blue t.black
      ∷ write name
      ∷ write (codes "/")
      ∷ termcolor t.white t.black
      ∷ write (10 ∷ [])
      ∷ []
    else write name ∷ write (10 ∷ []) ∷ []

-- `entry` is the address of the variable of that name, `t` is `current_theme`. The result has the
-- calls but those of `syscall_readdir`.
module _ (F : FatFs) (fuel entry : ℕ) (path : List ℕ) (t : Theme) where
  -- The loop of `ls`, with `rounds` as fuel.
  pub ls_loop : (rounds i : ℕ) → Kernel F.State → Option (List Call)
  ls_loop zero i k = none
  ls_loop (suc rounds) i k =
      let r = syscall_readdir F path entry i k in
      let rest = ls_loop rounds (i + 1) r.1 in
      let is_dir = mem_of r.1 (entry + 256) in
      if r.0 == 1
      then some []
      else (string_at fuel entry (mem_of r.1) >>= λ name.
          if length name == 0
          then some []
          else (rest >>= λ calls. some (print_entry t name is_dir ++ calls)))

  pub ls : (rounds : ℕ) → Kernel F.State → Option (List Call)
  ls rounds k = ls_loop rounds 0 k

  -- `_start`, with `path` for what `syscall_recovercwd` gives.
  pub start : (rounds : ℕ) → Kernel F.State → Option (List Call)
  start rounds k = ls rounds k >>= λ calls.
      some (recovercwd ∷ gettheme ∷ write (10 ∷ []) ∷ (calls ++ (write (10 ∷ []) ∷ exit ∷ [])))
