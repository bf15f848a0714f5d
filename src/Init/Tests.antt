-- ===== src/Init/Tests.antt =====
-- An example of a /shellrc with a theme and a font.
use os.Base.{ℕ, ◌≡◌, refl, arith, some, List, [], ◌∷◌, ◌++◌}
use os.Fat.{FatFs}
use os.Fat.Memory.{memory, open_count, memory-IsLawful}
use os.Shell.{codes, exec}
use os.Syscall.Sample.{kernel}
use os.Init.{trim, skip_blanks, drop_end, load_loop, start}
use os.Init.Lines.{load_lines, lines, load_loop_lem}
use os.Init.Settings.{Setting, theme, font, AllPaths, print_settings, calls_of}
use os.Init.Start.{start_lem}

abbrev settings : List Setting
settings = theme (codes "t") ∷ font (codes "a b") ∷ []

settings-AllPaths : AllPaths settings
unfolding trim skip_blanks drop_end
settings-AllPaths = (
  record { no_zero = (omega arith, tt); one_line = (omega arith, tt); trimmed = refl },
  (
    record {
      no_zero = (omega arith, (omega arith, (omega arith, tt)));
      one_line = (omega arith, (omega arith, (omega arith, tt)));
      trimmed = refl;
    },
    tt,
  ),
)

abbrev two_lines : List ℕ
two_lines = codes "set theme=t" ++ (10 ∷ (codes "x" ++ (10 ∷ [])))

load_loop_example : load_loop 15 two_lines ≡ some (load_lines (lines two_lines))
load_loop_example = load_loop_lem 15 two_lines (omega arith)

abbrev shellrc : List ℕ
shellrc = codes "set theme=t" ++ (10 ∷ (codes "set font=a b" ++ (10 ∷ [])))

abbrev fat : FatFs
fat = memory shellrc []

start_example :
    start fat 1100 0x1000 kernel
    ≡ some (calls_of settings ++ (exec (codes "/bin/shell.elf") (codes "/") ∷ []))
unfolding print_settings
start_example =
    start_lem fat (open_count shellrc []) (memory-IsLawful shellrc []) 1100 0x1000 kernel settings 0
      refl refl refl settings-AllPaths (omega arith) (omega arith)
