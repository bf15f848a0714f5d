-- ===== src/Psf/Files.antt =====
-- drivers/video/font_psf.c: the file of the font is closed on every way out.
use os.Base.{
  ℕ, ◌-◌, ◌*◌, ◌≡◌, sym, subst, arith, Option, none, some, List, bit_and, ◌||◌, ◌==◌, ◌!=◌,
  if◌then◌else◌, Bool-cases, inl, inr,
}
use os.Fat.{FatFs, IsLawful, one_if}
use os.Heap.{Heap, Outcome, ok, fault, out_of_fuel, ◌>>=◌, kmalloc}
use os.Psf.{FontState, as_header, read_glyphs, load_opened_font, load_psf1_font}

module _ (F : FatFs) (opened : F.State → ℕ) (law : IsLawful F opened) (stack : ℕ → ℕ) where
  -- What `load_psf1_font` comes to, if it comes to an end.
  abbrev pub FontOpened : ℕ → Outcome (ℕ × FontState F.State) → Type 0
  FontOpened n (ok r) = opened r.1.fs ≡ n
  FontOpened n fault = Unit
  FontOpened n out_of_fuel = Unit

  read_glyphs-opened :
      (file : F.File) (glyphs glyph_size buffer : ℕ) (s : FontState F.State)
      → opened (read_glyphs F stack file glyphs glyph_size buffer s).1.fs ≡ opened s.fs - 1
  unfolding read_glyphs
  read_glyphs-opened file glyphs glyph_size buffer s =
      let read = F.f_read file (glyphs * glyph_size) s.fs in
      elim (Bool-cases (buffer == 0)) [
        | inl e ↦ rw e (law.opened-close file s.fs)
        | inr e ↦ rw e (
            omega (
              arith,
              law.opened-close file read.2,
              law.opened-read file (glyphs * glyph_size) s.fs,
            ))
      ]

  glyphs-FontOpened :
      (file : F.File) (glyphs glyph_size : ℕ) (s : FontState F.State) (m : Outcome (ℕ × Heap))
      → FontOpened
          (opened s.fs - 1)
          (m >>= λ r. ok (read_glyphs F stack file glyphs glyph_size r.0 (record s { heap = r.1 })))
  glyphs-FontOpened file glyphs glyph_size s (ok r) =
      read_glyphs-opened file glyphs glyph_size r.0 (record s { heap = r.1 })
  glyphs-FontOpened file glyphs glyph_size s fault = tt
  glyphs-FontOpened file glyphs glyph_size s out_of_fuel = tt

  load_opened_font-FontOpened :
      (o : Option F.File) (s : FontState F.State)
      → FontOpened (opened s.fs - one_if o) (load_opened_font F stack o s)
  unfolding load_opened_font
  load_opened_font-FontOpened none s = omega arith
  load_opened_font-FontOpened (some file) s =
      let read = F.f_read file 4 s.fs in
      let s' = record s { fs = read.2 } in
      let header = as_header stack read.1 in
      let glyphs : ℕ = (if bit_and header.mode 0x01 != 0 then 512 else 256) in
      let same = law.opened-read file 4 s.fs in
      elim (Bool-cases ((header.magic0 != 0x36) || (header.magic1 != 0x04))) [
        | inl bad ↦ rw bad (omega (arith, same, law.opened-close file read.2))
        | inr good ↦
            rw (good, sym same)
              (glyphs-FontOpened file glyphs header.charsize s'
                (kmalloc (glyphs * header.charsize) s.heap))
      ]

  -- Where `load_psf1_font` comes to an end, as many objects are open as before.
  pub load_psf1_font-FontOpened :
      (path : List ℕ) (s : FontState F.State)
      → FontOpened (opened s.fs) (load_psf1_font F stack path s)
  unfolding load_psf1_font
  load_psf1_font-FontOpened path s =
      let answer = F.f_open path 1 s.fs in
      let same : opened answer.1 - one_if answer.0 ≡ opened s.fs =
        omega (arith, law.opened-open path 1 s.fs) in
      subst (λ n. FontOpened n (load_opened_font F stack answer.0 (record s { fs = answer.1 })))
        same (load_opened_font-FontOpened answer.0 (record s { fs = answer.1 }))
