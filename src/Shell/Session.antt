-- ===== src/Shell/Session.antt =====
-- user_programs/shell.c: whole sessions.
use os.Base.{
  ℕ, zero, suc, ◌<◌, ◌≡◌, refl, arith, Option, none, some, List, [], length, ◌==◌, Bool-cases, inl,
  inr,
}
use os.Shell.{Call, Answers, Line, run_command, readline, shell_round, shell_loop, shell_prompt}
use os.Theme.{Theme}
use os.Shell.Readline.{readline-Read}
use os.Shell.Paths.{AllFit, AllFit-append, run_command-RanFits}

shell_prompt-AllFit : (t : Theme) (cwd : List ℕ) → AllFit (shell_prompt t cwd)
unfolding shell_prompt
shell_prompt-AllFit t cwd = (tt, (tt, (tt, (tt, (tt, (tt, (tt, (tt, (tt, tt)))))))))

module _ (answers : Answers) (before : ℕ) where
  shell_round-AllFit :
      (rest : List ℕ → List ℕ → List Call)
      → ((keys cwd : List ℕ) → length cwd < 256 → AllFit (rest keys cwd))
      → (behind cwd : List ℕ) (o : Option Line) → ((l : Line) → o ≡ some l → length l.line < 256)
      → length behind < 256
      → length cwd < 256
      → AllFit (shell_round answers before rest behind cwd o)
  unfolding shell_round
  shell_round-AllFit rest h behind cwd none fits hb hc = tt
  shell_round-AllFit rest h behind cwd (some l) fits hb hc =
      let r = run_command answers before behind l.line cwd in
      let ran = (run_command-RanFits answers before behind l.line cwd hb (fits l refl) hc).holds in
      elim (Bool-cases (length l.line == 0)) [
        | inl empty ↦ rw empty (h l.keys cwd hc)
        | inr some_text ↦ elim (Bool-cases r.running) [
          | inl on ↦
              rw (some_text, on)
                (AllFit-append r.calls (rest l.keys r.cwd) ran.0 (h l.keys r.cwd ran.1))
          | inr off ↦ rw (some_text, off) (AllFit-append r.calls [] ran.0 tt)
        ]
      ]

  -- Whatever is typed and whatever the kernel answers, in a session of any number of commands each
  -- path fits, with its 0, into the 512 bytes that it is built in, and each directory into 256 bytes, if
  -- what stands behind a line in its array ends within 256 bytes.
  pub shell_loop-AllFit :
      (behind : ℕ → List ℕ) (themes : ℕ → Theme) (rounds : ℕ) (keys cwd : List ℕ)
      → ((i : ℕ) → length (behind i) < 256)
      → length cwd < 256
      → AllFit (shell_loop answers before behind themes rounds keys cwd)
  unfolding shell_loop
  shell_loop-AllFit behind themes zero keys cwd hb hc = tt
  shell_loop-AllFit behind themes (suc rounds) keys cwd hb hc =
      AllFit-append (shell_prompt (themes rounds) cwd) _ (shell_prompt-AllFit (themes rounds) cwd) (
        shell_round-AllFit (shell_loop answers before behind themes rounds)
          (λ k c h. shell_loop-AllFit behind themes rounds k c hb h) (behind rounds) cwd
          (readline keys 256) (λ l e. (readline-Read keys 256 l (omega arith) e).fits) (hb rounds)
          hc)
