-- ===== src/Shell/Tests.antt =====
-- Examples of command lines.
use os.Base.{ℕ, ◌≡◌, refl, arith, some, [], ◌∷◌, ◌++◌, List}
use os.Shell.{
  codes, Answers, exec, readline, readline_loop, type_key, shell_loop, run_command, command_exec,
  full_path, last_or, Line, ran,
}
use os.Theme.{Theme, default_theme, starts_with}
use os.Shell.Readline.{Read, readline-returns}
use os.Shell.Paths.{AllFit}
use os.Shell.Session.{shell_loop-AllFit}

-- "lt", a backspace, and "s".
abbrev typed : List ℕ
typed = b'l' ∷ b't' ∷ 8 ∷ b's' ∷ 10 ∷ []

abbrev ls_line : Line
ls_line = record { line = codes "ls"; echo = b'l' ∷ b't' ∷ 8 ∷ 32 ∷ 8 ∷ b's' ∷ 10 ∷ []; keys = [] }

run_readline : readline typed 256 ≡ some ls_line
unfolding readline readline_loop type_key
run_readline = refl

readline-returns_example :
    (l : Line) × (readline (b'l' ∷ b't' ∷ 8 ∷ b's' ∷ 10 ∷ []) 256 ≡ some l) × Read 256 l
readline-returns_example = readline-returns (b'l' ∷ b't' ∷ 8 ∷ b's' ∷ []) [] 256 (omega arith)

abbrev all_well : Answers
all_well = record {
  checkdir_result = λ path. 1;
  writefile_result = λ path. 0;
  exec_result = λ path. 1;
}

-- "cd /bin", then "ls".
abbrev session : List ℕ
session = codes "cd /bin" ++ (10 ∷ typed)

run_ls :
    run_command all_well 0 [] (codes "ls") (codes "/bin")
    ≡ ran (exec (codes "/bin/ls") (codes "/bin") ∷ []) (codes "/bin")
unfolding run_command command_exec full_path last_or starts_with
run_ls = refl

abbrev plain : ℕ → Theme
plain i = default_theme

shell_loop-AllFit_example :
    AllFit (shell_loop all_well 0 (λ i. codes "x") plain 3 session (codes "/"))
shell_loop-AllFit_example =
    shell_loop-AllFit all_well 0 (λ i. codes "x") plain 3 session (codes "/") (λ i. omega arith)
      (omega arith)
