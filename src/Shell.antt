-- ===== src/Shell.antt =====
-- user_programs/syscall.h (readline), shell.c and cat.c: the command line. A string in a `char` array
-- is the list of its bytes in front of the 0. What the kernel answers to a system call is a
-- parameter, and the calls that a program makes are its result.
pub mod Readline
pub mod Paths
pub mod Session
mod Tests
use Prim.Native.Char.{code}
use Prim.Native.String.{String}
use os.Base.{
  ℕ, zero, suc, ◌+◌, ◌-◌, Bool, true, false, not, ◌&&◌, ◌||◌, Option, none, some, List, [], ◌∷◌,
  ◌++◌, ltb, ◌==◌, ◌!=◌, if◌then◌else◌, length, get_or, drop,
}
use os.Theme.{Theme, starts_with}

-- The bytes of a literal.
abbrev pub codes : String → List ℕ
codes String.[] = []
codes (String.◌∷◌ c s) = code c ∷ codes s

-- The list without its last byte: the array up to an index that is one less.
abbrev pub but_last : List ℕ → List ℕ
but_last [] = []
but_last (x ∷ []) = []
but_last (x ∷ (y ∷ ys)) = x ∷ but_last (y ∷ ys)

-- A line in the buffer, what was written to the terminal, and the keys that are left.
pub record Line : Type 0 where
  pub line : List ℕ
  pub echo : List ℕ
  pub keys : List ℕ

-- One round of the loop of `readline`, for a key other than the newline.
pub type_key : (c : ℕ) → List ℕ × List ℕ → List ℕ × List ℕ
type_key c (line, echo) =
    if (c == 8) || (c == 127)
    then (if ltb 0 (length line) then (but_last line, echo ++ (8 ∷ 32 ∷ 8 ∷ [])) else (line, echo))
    else (line ++ (c ∷ []), echo ++ (c ∷ []))

-- The loop over the keys: `none` waits for one more key.
pub readline_loop : (keys : List ℕ) → (max_len : ℕ) → List ℕ × List ℕ → Option Line
readline_loop [] max_len s =
    if ltb (length s.0) (max_len - 1)
    then none
    else some (record { line = s.0; echo = s.1; keys = [] })
readline_loop (c ∷ keys) max_len s =
    let rest = readline_loop keys max_len (type_key c s) in
    if ltb (length s.0) (max_len - 1)
    then (if c == 10
        then some (record { line = s.0; echo = s.1 ++ (10 ∷ []); keys = keys })
        else rest)
    else some (record { line = s.0; echo = s.1; keys = c ∷ keys })

pub readline : (keys : List ℕ) → (max_len : ℕ) → Option Line
readline keys max_len = readline_loop keys max_len ([], [])

-- `s[strlen(s) - 1]`, with `before` for the byte in front of the array.
pub last_or : (before : ℕ) → List ℕ → ℕ
last_or before [] = before
last_or before (x ∷ xs) = last_or x xs

-- The path that a command builds in `fullpath`.
pub full_path : (before : ℕ) → (cwd path : List ℕ) → List ℕ
full_path before cwd path =
    if get_or path 0 0 == b'/'
    then path
    else if last_or before cwd != b'/'
    then (cwd ++ (b'/' ∷ [])) ++ path
    else cwd ++ path

-- The system calls, with the strings that they are given.
pub data Call : Type 0 where
  write : List ℕ → Call
  termclear : Call
  termcolor : (fg bg : ℕ) → Call
  termfont : List ℕ → Call
  ldtheme : List ℕ → Call
  gettheme : Call
  recovercwd : Call
  exit : Call
  checkdir : List ℕ → Call
  writefile : List ℕ → Call
  exec : (filename cwd : List ℕ) → Call

-- The results that the shell looks at.
pub record Answers : Type 0 where
  pub checkdir_result : List ℕ → ℕ
  pub writefile_result : List ℕ → ℕ
  pub exec_result : List ℕ → ℕ

abbrev pub same_text : List ℕ → List ℕ → Bool
same_text [] [] = true
same_text [] (y ∷ ys) = false
same_text (x ∷ xs) [] = false
same_text (x ∷ xs) (y ∷ ys) = (x == y) && same_text xs ys

-- The calls of a command, the `cwd` after it, and whether the shell goes on.
pub record Ran : Type 0 where
  pub calls : List Call
  pub cwd : List ℕ
  pub running : Bool

abbrev pub ran : List Call → List ℕ → Ran
ran calls cwd = record { calls = calls; cwd = cwd; running = true }

pub shell_prompt : Theme → (cwd : List ℕ) → List Call
shell_prompt t cwd =
    termcolor t.light_green t.black
    ∷ write (codes "8809 [")
    ∷ termcolor t.light_blue t.black
    ∷ write cwd
    ∷ termcolor t.light_green t.black
    ∷ write (codes "]")
    ∷ termcolor t.gray t.black
    ∷ write (codes "::")
    ∷ termcolor t.white t.black
    ∷ []

module _ (answers : Answers) (before : ℕ) where
  pub command_cd : (path cwd : List ℕ) → Ran
  command_cd path cwd =
      if answers.checkdir_result path == 1
      then ran (checkdir path ∷ []) path
      else ran
          (checkdir path
            ∷ write (codes "Directory not found: ")
            ∷ write path
            ∷ write (10 ∷ [])
            ∷ [])
          cwd

  pub command_mkfile : (filename cwd : List ℕ) → Ran
  command_mkfile filename cwd =
      if length filename == 0
      then ran (write (codes "Usage: mkfile <filename>" ++ (10 ∷ [])) ∷ []) cwd
      else (let path = full_path before cwd filename in
          let failed =
            write (codes "Failed to create file: ") ∷ write path ∷ write (10 ∷ []) ∷ [] in
          ran (writefile path ∷ (if answers.writefile_result path == 1 then failed else [])) cwd)

  pub command_exec : (input cwd : List ℕ) → Ran
  command_exec input cwd =
      let path = full_path before cwd input in
      let failed = write (codes "Failed to execute: ") ∷ write path ∷ write (10 ∷ []) ∷ [] in
      ran (exec path cwd ∷ (if answers.exec_result path == 0 then failed else [])) cwd

  -- The body of `shell_loop` behind `readline`, for a line that is not empty. `strncmp` looks at the
  -- first 6 bytes of "mkfile ", so `input + 7` may lie behind the 0: `behind` is the string there.
  pub run_command : (behind input cwd : List ℕ) → Ran
  run_command behind input cwd =
      if same_text input (codes "help")
      then ran (write (codes "Available commands: help, echo, exit" ++ (10 ∷ [])) ∷ []) cwd
      else if same_text input (codes "clear")
      then ran (termclear ∷ []) cwd
      else if starts_with (codes "echo ") input
      then ran (write (drop 5 input) ∷ write (10 ∷ []) ∷ []) cwd
      else if starts_with (codes "ldfont ") input
      then ran (termfont (full_path before cwd (drop 7 input)) ∷ []) cwd
      else if starts_with (codes "ldtheme ") input
      then ran (ldtheme (full_path before cwd (drop 8 input)) ∷ gettheme ∷ []) cwd
      else if same_text input (codes "exit")
      then record {
        calls = write (codes "SHELL EXIT" ++ (10 ∷ [])) ∷ exit ∷ [];
        cwd = cwd;
        running = false;
      }
      else if starts_with (codes "cd ") input
      then command_cd (drop 3 input) cwd
      else if starts_with (codes "mkfile") input
      then command_mkfile (if ltb (length input) 7 then behind else drop 7 input) cwd
      else command_exec input cwd

  -- What follows `readline` in a round of `shell_loop`; `rest` is the loop with the keys that are
  -- left and the new `cwd`.
  pub shell_round :
      (rest : (keys cwd : List ℕ) → List Call) → (behind cwd : List ℕ) → Option Line → List Call
  shell_round rest behind cwd none = []
  shell_round rest behind cwd (some l) =
      let r = run_command behind l.line cwd in
      if length l.line == 0
      then rest l.keys cwd
      else r.calls ++ (if r.running then rest l.keys r.cwd else [])

  -- `shell_loop` for `rounds` rounds on the keys that are typed, none of them 0: the calls in order,
  -- without the echo. `themes` has, for each round, `current_theme`. `behind` has, for each round, what stands
  -- in `input` behind the 0 of a line of 6 bytes: an earlier line, or what the stack has there.
  pub shell_loop :
      (behind : ℕ → List ℕ) → (themes : ℕ → Theme) → (rounds : ℕ) → (keys cwd : List ℕ) → List Call
  shell_loop behind themes zero keys cwd = []
  shell_loop behind themes (suc rounds) keys cwd =
      shell_prompt (themes rounds) cwd
      ++ shell_round (shell_loop behind themes rounds) (behind rounds) cwd (readline keys 256)
