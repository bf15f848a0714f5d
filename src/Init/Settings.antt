-- ===== src/Init/Settings.antt =====
-- user_programs/init.c: settings that are written to a file are the ones that are made.
use os.Base.{ℕ, ◌+◌, ◌≡◌, ◌≢◌, refl, ap, ◌∙◌, arith, some, List, [], ◌∷◌, ◌++◌, length, ne→==}
use os.Strings.Texts.{NoZero}
use os.Shell.{Call, codes, ldtheme, termfont}
use os.Theme.{starts_with}
use os.Init.{trim, skip_blanks, drop_end, split_equal, set_value, load_line, load_loop}
use os.Init.Lines.{lines, load_lines, load_loop_lem}

pub data Setting : Type 0 where
  theme : (path : List ℕ) → Setting
  font : (path : List ℕ) → Setting

abbrev pub path_of : Setting → List ℕ
path_of (theme path) = path
path_of (font path) = path

-- A setting as a line of the file, without its newline.
abbrev pub setting_line : Setting → List ℕ
setting_line (theme path) = codes "set theme=" ++ path
setting_line (font path) = codes "set font=" ++ path

unfoldable pub print_settings : List Setting → List ℕ
print_settings [] = []
print_settings (s ∷ ss) = setting_line s ++ (10 ∷ print_settings ss)

abbrev pub call_of : Setting → Call
call_of (theme path) = ldtheme path
call_of (font path) = termfont path

pub calls_of : List Setting → List Call
calls_of [] = []
calls_of (s ∷ ss) = call_of s ∷ calls_of ss

abbrev pub NoNewline : List ℕ → Type 0
NoNewline [] = Unit
NoNewline (c ∷ cs) = (c ≢ 10) × NoNewline cs

-- The path is one line, with no blanks around it.
pub record IsPath (path : List ℕ) : Type 0 where
  pub no_zero : NoZero path
  pub one_line : NoNewline path
  pub trimmed : trim path ≡ path

abbrev pub AllPaths : List Setting → Type 0
AllPaths [] = Unit
AllPaths (s ∷ ss) = IsPath (path_of s) × AllPaths ss

lines-newline :
    (line rest : List ℕ) → NoNewline line → lines (line ++ (10 ∷ rest)) ≡ line ∷ lines rest
unfolding lines
lines-newline [] rest h = refl
lines-newline (c ∷ line) rest (ne, h) = rw (ne→== c 10 ne, lines-newline line rest h) refl

setting_line-NoNewline : (s : Setting) → NoNewline (path_of s) → NoNewline (setting_line s)
setting_line-NoNewline (theme path) h = (
  omega arith,
  (
    omega arith,
    (
      omega arith,
      (
        omega arith,
        (omega arith, (omega arith, (omega arith, (omega arith, (omega arith, (omega arith, h)))))),
      ),
    ),
  ),
)
setting_line-NoNewline (font path) h = (
  omega arith,
  (
    omega arith,
    (
      omega arith,
      (omega arith, (omega arith, (omega arith, (omega arith, (omega arith, (omega arith, h)))))),
    ),
  ),
)

load_line-setting :
    (s : Setting) → trim (path_of s) ≡ path_of s → load_line (setting_line s) ≡ call_of s ∷ []
unfolding load_line set_value split_equal starts_with trim skip_blanks drop_end
load_line-setting (theme path) h = ap (λ p. ldtheme p ∷ []) h
load_line-setting (font path) h = ap (λ p. termfont p ∷ []) h

load_lines-print_settings :
    (ss : List Setting) → AllPaths ss → load_lines (lines (print_settings ss)) ≡ calls_of ss
unfolding load_lines print_settings calls_of lines
load_lines-print_settings [] h = refl
load_lines-print_settings (s ∷ ss) (p, h) =
    rw
      (
        lines-newline (setting_line s) (print_settings ss) (setting_line-NoNewline s p.one_line),
        load_line-setting s p.trimmed,
        load_lines-print_settings ss h,
      )
      refl

-- A file with a line for each setting gives their calls, in their order.
pub load_loop-print_settings :
    (ss : List Setting)
    → AllPaths ss
    → load_loop (length (print_settings ss) + 1) (print_settings ss) ≡ some (calls_of ss)
load_loop-print_settings ss h =
    load_loop_lem (length (print_settings ss) + 1) (print_settings ss) (omega arith)
    ∙ ap some (load_lines-print_settings ss h)

NoZero-append : (xs ys : List ℕ) → NoZero xs → NoZero ys → NoZero (xs ++ ys)
NoZero-append [] ys h h' = h'
NoZero-append (x ∷ xs) ys (ne, h) h' = (ne, NoZero-append xs ys h h')

setting_line-NoZero : (s : Setting) → NoZero (path_of s) → NoZero (setting_line s)
setting_line-NoZero (theme path) h = (
  omega arith,
  (
    omega arith,
    (
      omega arith,
      (
        omega arith,
        (omega arith, (omega arith, (omega arith, (omega arith, (omega arith, (omega arith, h)))))),
      ),
    ),
  ),
)
setting_line-NoZero (font path) h = (
  omega arith,
  (
    omega arith,
    (
      omega arith,
      (omega arith, (omega arith, (omega arith, (omega arith, (omega arith, (omega arith, h)))))),
    ),
  ),
)

pub print_settings-NoZero : (ss : List Setting) → AllPaths ss → NoZero (print_settings ss)
unfolding print_settings
print_settings-NoZero [] h = tt
print_settings-NoZero (s ∷ ss) (p, h) =
    NoZero-append (setting_line s) (10 ∷ print_settings ss) (setting_line-NoZero s p.no_zero)
      (omega arith, print_settings-NoZero ss h)

-- An empty file has no settings.
pub print_settings-nil : (ss : List Setting) → length (print_settings ss) ≡ 0 → calls_of ss ≡ []
unfolding print_settings calls_of
print_settings-nil [] h = refl
print_settings-nil (theme path ∷ ss) h = absurd (omega arith)
print_settings-nil (font path ∷ ss) h = absurd (omega arith)
