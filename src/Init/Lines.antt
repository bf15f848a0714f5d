-- ===== src/Init/Lines.antt =====
-- user_programs/init.c: the loop over the lines ends, and loads the lines of the file one by one.
use os.Base.{
  ℕ, zero, suc, ◌<◌, ◌≤◌, ◌≡◌, refl, ap, arith, some, List, [], ◌∷◌, ◌++◌, length, ◌==◌,
  if◌then◌else◌, Bool-cases, inl, inr,
}
use os.Shell.{Call}
use os.Init.{split_line, load_line, load_loop}

abbrev add_first : ℕ → List (List ℕ) → List (List ℕ)
add_first c [] = (c ∷ []) ∷ []
add_first c (l ∷ ls) = (c ∷ l) ∷ ls

-- The lines of a text; a newline at its end begins no further line.
unfoldable pub lines : List ℕ → List (List ℕ)
lines [] = []
lines (c ∷ cs) = let rest = lines cs in if c == 10 then [] ∷ rest else add_first c rest

unfoldable pub load_lines : List (List ℕ) → List Call
load_lines [] = []
load_lines (l ∷ ls) = load_line l ++ load_lines ls

split_line-shorter : (c : ℕ) (cs : List ℕ) → length (split_line (c ∷ cs)).1 ≤ length cs
unfolding split_line
split_line-shorter c [] = ground arith
split_line-shorter c (d ∷ ds) = elim (Bool-cases (c == 10)) [
  | inl e ↦ rw e (omega arith)
  | inr e ↦ rw e (omega (arith, split_line-shorter d ds))
]

lines-split_line :
    (c : ℕ) (cs : List ℕ) → lines (c ∷ cs) ≡ (split_line (c ∷ cs)).0 ∷ lines (split_line (c ∷ cs)).1
unfolding split_line lines
lines-split_line c [] = elim (Bool-cases (c == 10)) [ inl e ↦ rw e refl | inr e ↦ rw e refl ]
lines-split_line c (d ∷ ds) = elim (Bool-cases (c == 10)) [
  | inl e ↦ rw e refl
  | inr e ↦ rw e (ap (add_first c) (lines-split_line d ds))
]

-- With one round more than the text has bytes the loop ends, with the calls of the lines in their order.
pub load_loop_lem :
    (rounds : ℕ) (text : List ℕ)
    → length text < rounds
    → load_loop rounds text ≡ some (load_lines (lines text))
unfolding load_loop load_lines lines
load_loop_lem zero text lt = absurd (omega arith)
load_loop_lem (suc rounds) [] lt = refl
load_loop_lem (suc rounds) (c ∷ cs) lt =
    rw
      (
        load_loop_lem rounds (split_line (c ∷ cs)).1 (omega (arith, split_line-shorter c cs)),
        lines-split_line c cs,
      )
      refl
