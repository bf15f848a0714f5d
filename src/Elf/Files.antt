-- ===== src/Elf/Files.antt =====
-- elf32/elf32.c: every file that the loader opens is closed.
use os.Base.{
  ℕ, zero, suc, ◌+◌, ◌*◌, ◌-◌, ◌≡◌, ◌∙◌, Bool, true, false, arith, Option, none, some, List, ◌!=◌,
  if◌then◌else◌, Bool-cases, inl, inr,
}
use os.Base.Word.{u32}
use os.Base.Run.{done, Ends, Ends-bind, Ends-any, Ends-of_done}
use os.Fat.{FatFs, IsLawful, one_if}
use os.Elf.{
  Loader, Elf32Phdr, as_phdr, as_ehdr, has_magic, load_segment, failed, close_file, phdr_size,
  ehdr_size, load_headers, load_opened, load_elf, pages_of, map_pages,
}

module _ (F : FatFs) (opened : F.State → ℕ) (law : IsLawful F opened) where
  -- As many open objects as in `s`.
  abbrev Keeps : Loader F.State → Loader F.State → Type 0
  Keeps s t = opened t.fs ≡ opened s.fs

  load_segment-Keeps :
      (file : F.File) (phdr : Elf32Phdr) (s : Loader F.State)
      → Ends (Keeps s) (load_segment F file phdr s)
  unfolding load_segment
  load_segment-Keeps file phdr s =
      Ends-bind (λ n. pages_of phdr ≡ done n) (Keeps s) (pages_of phdr) _ (Ends-any _)
        (λ rounds e.
          Ends-bind (λ v. map_pages rounds 0 phdr.p_vaddr s.vmm ≡ done v) (Keeps s)
            (map_pages rounds 0 phdr.p_vaddr s.vmm) _ (Ends-any _)
            (λ vmm e'. omega (
              arith,
              law.opened-read file phdr.p_filesz (F.f_lseek file phdr.p_offset s.fs),
              law.opened-lseek file phdr.p_offset s.fs,
            )))

  -- The early return has closed the file.
  abbrev Returned : ℕ → Bool × Loader F.State → Type 0
  Returned n (true, t) = opened t.fs ≡ n
  Returned n (false, t) = opened t.fs ≡ n - 1

  load_headers-Returned :
      (rounds i e_phoff : ℕ) (file : F.File) (s : Loader F.State) (n : ℕ)
      → opened s.fs ≡ n
      → Ends (Returned n) (load_headers F rounds i e_phoff file s)
  unfolding load_headers
  load_headers-Returned zero i e_phoff file s n h = h
  load_headers-Returned (suc rounds) i e_phoff file s n h =
      let sought = F.f_lseek file (u32 (e_phoff + i * phdr_size)) s.fs in
      let read = F.f_read file phdr_size sought in
      let s' = record s { fs = read.2 } in
      let phdr = as_phdr read.1 in
      let same : opened read.2 ≡ n = omega (
        arith,
        law.opened-read file phdr_size sought,
        law.opened-lseek file (u32 (e_phoff + i * phdr_size)) s.fs,
      ) in
      elim (Bool-cases (failed F phdr_size read)) [
        | inl bad ↦ rw bad (omega (arith, law.opened-close file read.2))
        | inr good ↦ elim (Bool-cases (phdr.p_type != 1)) [
          | inl other ↦
              rw (good, other) (load_headers-Returned rounds (i + 1) e_phoff file s' n same)
          | inr load ↦
              rw (good, load)
                (Ends-bind (Keeps s') (Returned n) (load_segment F file phdr s') _
                  (load_segment-Keeps file phdr s')
                  (λ t e. load_headers-Returned rounds (i + 1) e_phoff file t n (e ∙ same)))
        ]
      ]

  abbrev Closed : ℕ → ℕ × Loader F.State → Type 0
  Closed n r = opened r.1.fs ≡ n - 1

  finish-Closed :
      (n entry : ℕ) (file : F.File) (r : Bool × Loader F.State)
      → Returned n r
      → Ends (Closed n) (if r.0 then done (entry, close_file F file r.1) else done (0, r.1))
  finish-Closed n entry file (true, t) h = omega (arith, law.opened-close file t.fs)
  finish-Closed n entry file (false, t) h = h

  load_opened-Closed :
      (o : Option F.File) (s : Loader F.State)
      → Ends (λ r. opened r.1.fs ≡ opened s.fs - one_if o) (load_opened F o s)
  unfolding load_opened
  load_opened-Closed none s = omega arith
  load_opened-Closed (some file) s =
      let read = F.f_read file ehdr_size s.fs in
      let s' = record s { fs = read.2 } in
      let hdr = as_ehdr read.1 in
      let n = opened s.fs in
      let same : opened read.2 ≡ n = law.opened-read file ehdr_size s.fs in
      let closed : opened (F.f_close file read.2) ≡ n - 1 =
        omega (arith, law.opened-close file read.2) in
      elim (Bool-cases (failed F ehdr_size read)) [
        | inl bad ↦ rw bad closed
        | inr good ↦ elim (Bool-cases (has_magic hdr)) [
          | inr wrong ↦ rw (good, wrong) closed
          | inl magic ↦
              rw (good, magic)
                (Ends-bind (Returned n) (Closed n)
                  (load_headers F hdr.e_phnum 0 hdr.e_phoff file s') _
                  (load_headers-Returned hdr.e_phnum 0 hdr.e_phoff file s' n same)
                  (finish-Closed n hdr.e_entry file))
        ]
      ]

  -- Where `load_elf` returns, whatever it finds in the file, as many objects are open as before.
  pub load_elf-opened :
      (path : List ℕ) (s : Loader F.State) (entry : ℕ) (t : Loader F.State)
      → load_elf F path s ≡ done (entry, t)
      → opened t.fs ≡ opened s.fs
  unfolding load_elf
  load_elf-opened path s entry t run =
      let answer = F.f_open path 1 s.fs in
      let s' = record s { fs = answer.1 } in
      let closed = load_opened-Closed answer.0 s' in
      omega (
        arith,
        Ends-of_done (λ r. opened r.1.fs ≡ opened answer.1 - one_if answer.0) closed run,
        law.opened-open path 1 s.fs,
      )
