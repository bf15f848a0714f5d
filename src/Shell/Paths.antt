-- ===== src/Shell/Paths.antt =====
-- user_programs/shell.c: the paths that the commands build fit into their arrays.
use os.Base.{
  ℕ, ◌<◌, arith, List, [], ◌∷◌, ◌++◌, length, length-append, length-drop, drop, ◌==◌, if◌then◌else◌,
  Bool-cases, inl, inr, ltb, Holds, held, if-Holds,
}
use os.Theme.{starts_with}
use os.Shell.{
  codes, full_path, Call, write, termclear, termcolor, termfont, ldtheme, gettheme, recovercwd,
  exit, checkdir, writefile, exec, Answers, same_text, Ran, command_cd, command_mkfile,
  command_exec, run_command,
}

-- The strings of a call fit, with their 0: paths into `fullpath` of 512 bytes, `cwd` and the rest of a
-- line into 256 bytes.
abbrev pub Fits : Call → Type 0
Fits (write text) = Unit
Fits termclear = Unit
Fits (termcolor fg bg) = Unit
Fits (termfont path) = length path < 512
Fits (ldtheme path) = length path < 512
Fits gettheme = Unit
Fits recovercwd = Unit
Fits exit = Unit
Fits (checkdir path) = length path < 256
Fits (writefile path) = length path < 512
Fits (exec path cwd) = (length path < 512) × (length cwd < 256)

abbrev pub AllFit : List Call → Type 0
AllFit [] = Unit
AllFit (c ∷ cs) = Fits c × AllFit cs

abbrev pub RanFits : Ran → Type 0
RanFits r = AllFit r.calls × (length r.cwd < 256)

pub AllFit-append : (cs ds : List Call) → AllFit cs → AllFit ds → AllFit (cs ++ ds)
AllFit-append [] ds f g = g
AllFit-append (c ∷ cs) ds (h, f) g = (h, AllFit-append cs ds f g)

full_path-fits :
    (before : ℕ) (cwd path : List ℕ)
    → length cwd < 256
    → length path < 256
    → length (full_path before cwd path) < 512
unfolding full_path
full_path-fits before cwd path hc hp = ground (
  arith,
  length-append cwd path,
  length-append cwd (b'/' ∷ []),
  length-append (cwd ++ (b'/' ∷ [])) path,
)

drop-fits : (n : ℕ) (input : List ℕ) → length input < 256 → length (drop n input) < 256
drop-fits n input h = omega (arith, length-drop n input)

module _ (answers : Answers) (before : ℕ) where
  command_cd-RanFits :
      (path cwd : List ℕ)
      → length path < 256
      → length cwd < 256
      → RanFits (command_cd answers before path cwd)
  unfolding command_cd
  command_cd-RanFits path cwd hp hc = elim (Bool-cases (answers.checkdir_result path == 1)) [
    | inl there ↦ rw there ((hp, tt), hp)
    | inr gone ↦ rw gone ((hp, (tt, (tt, (tt, tt)))), hc)
  ]

  command_mkfile-RanFits :
      (path cwd : List ℕ)
      → length path < 256
      → length cwd < 256
      → RanFits (command_mkfile answers before path cwd)
  unfolding command_mkfile
  command_mkfile-RanFits path cwd hp hc = elim (Bool-cases (length path == 0)) [
    | inl none_given ↦ rw none_given ((tt, tt), hc)
    | inr given ↦
        let fits = full_path-fits before cwd path hc hp in
        elim (Bool-cases (answers.writefile_result (full_path before cwd path) == 1)) [
          | inl failed ↦ rw (given, failed) ((fits, (tt, (tt, (tt, tt)))), hc)
          | inr fine ↦ rw (given, fine) ((fits, tt), hc)
        ]
  ]

  command_exec-RanFits :
      (input cwd : List ℕ)
      → length input < 256
      → length cwd < 256
      → RanFits (command_exec answers before input cwd)
  unfolding command_exec
  command_exec-RanFits input cwd hp hc =
      let fits = full_path-fits before cwd input hc hp in
      elim (Bool-cases (answers.exec_result (full_path before cwd input) == 0)) [
        | inl failed ↦ rw failed (((fits, hc), (tt, (tt, (tt, tt)))), hc)
        | inr fine ↦ rw fine (((fits, hc), tt), hc)
      ]

  pub run_command-RanFits :
      (behind input cwd : List ℕ)
      → length behind < 256
      → length input < 256
      → length cwd < 256
      → Holds RanFits (run_command answers before behind input cwd)
  unfolding run_command
  run_command-RanFits behind input cwd hb hi hc =
      let name : List ℕ = (if ltb (length input) 7 then behind else drop 7 input) in
      let name_fits : length name < 256 = ground (arith, drop-fits 7 input hi) in
      let font_fits = full_path-fits before cwd (drop 7 input) hc (drop-fits 7 input hi) in
      let theme_fits = full_path-fits before cwd (drop 8 input) hc (drop-fits 8 input hi) in
      if-Holds (same_text input (codes "help")) (held ((tt, tt), hc)) (
        if-Holds (same_text input (codes "clear")) (held ((tt, tt), hc)) (
          if-Holds (starts_with (codes "echo ") input) (held ((tt, (tt, tt)), hc)) (
            if-Holds (starts_with (codes "ldfont ") input) (held ((font_fits, tt), hc)) (
              if-Holds (starts_with (codes "ldtheme ") input) (held ((theme_fits, (tt, tt)), hc)) (
                if-Holds (same_text input (codes "exit")) (held ((tt, (tt, tt)), hc)) (
                  if-Holds (starts_with (codes "cd ") input)
                    (held (command_cd-RanFits (drop 3 input) cwd (drop-fits 3 input hi) hc))
                    (if-Holds (starts_with (codes "mkfile") input)
                      (held (command_mkfile-RanFits name cwd name_fits hc))
                      (held (command_exec-RanFits input cwd hi hc)))))))))
