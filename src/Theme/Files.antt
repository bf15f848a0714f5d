-- ===== src/Theme/Files.antt =====
-- ui/theme.c: the file of a theme is closed on every way out.
use os.Base.{
  ℕ, suc, zero, ◌-◌, ◌≡◌, ◌&&◌, arith, Bool, Option, none, some, List, [], length, ltb, Bool-cases,
  Option-cases, inl, inr,
}
use os.Fat.{FatFs, IsLawful, one_if}
use os.Theme.{Theme, Reader, default_theme, read_block, read_blocks, read_opened, load_theme}

module _ (F : FatFs) (opened : F.State → ℕ) (law : IsLawful F opened) where
  read_blocks-opened :
      (fuel : ℕ) (file : F.File) (r : Reader) (fs : F.State) (q : Theme × F.State)
      → read_blocks F fuel file r fs ≡ some q
      → opened q.1 ≡ opened fs - 1
  unfolding read_blocks
  read_blocks-opened zero file r fs q h = cc
  read_blocks-opened (suc fuel) file r fs q h =
      let read = F.f_read file 256 fs in
      let same = law.opened-read file 256 fs in
      elim (Bool-cases (read.0 && ltb 0 (length read.1))) [
        | inl more ↦
            let h' = rw more at h in
            omega (arith, same, read_blocks-opened fuel file (read_block read.1 r) read.2 q h')
        | inr last ↦
            let h' = rw last at h in
            let at_end : (r.theme, F.f_close file read.2) ≡ q = cc in
            rw (← at_end) (omega (arith, same, law.opened-close file read.2))
      ]

  read_opened-opened :
      (fuel : ℕ) (o : Option F.File) (fs : F.State) (r : Bool × Theme × F.State)
      → read_opened F fuel o fs ≡ some r
      → opened r.2 ≡ opened fs - one_if o
  unfolding read_opened
  read_opened-opened fuel none fs (ok, theme, t) h =
      let same : fs ≡ t = cc in rw (← same) (omega arith)
  read_opened-opened fuel (some file) fs (ok, theme, t) h =
      let start : Reader = record { theme = default_theme; line = [] } in
      elim (Option-cases (read_blocks F fuel file start fs)) [
        | inl e ↦ let h' = rw e at h in cc
        | inr (q, e) ↦
            let h' = rw e at h in
            let same : q.1 ≡ t = cc in rw (← same) (read_blocks-opened fuel file start fs q e)
      ]

  -- Where `load_theme` ends, as many files are open as before.
  pub load_theme-opened :
      (fuel : ℕ) (path : List ℕ) (fs : F.State) (r : Bool × Theme × F.State)
      → load_theme F fuel path fs ≡ some r
      → opened r.2 ≡ opened fs
  unfolding load_theme
  load_theme-opened fuel path fs r h =
      let o = F.f_open path 1 fs in
      omega (arith, read_opened-opened fuel o.0 o.1 r h, law.opened-open path 1 fs)
