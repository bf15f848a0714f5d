-- ===== src/Elf/Unload.antt =====
-- elf32/elf32.c: the removal of a program, `unload_elf`.
use os.Base.{
  ℕ, zero, suc, ◌+◌, ◌*◌, ◌<◌, ◌≡◌, refl, ◌∙◌, Bool, true, false, arith, Option, none, some, List,
  bit_and, ◌==◌, ◌!=◌, if◌then◌else◌, Bool-cases, inl, inr,
}
use os.Base.Word.{u32, not32}
use os.Base.Run.{Run, done, ◌>>=◌, Ends, Ends-bind, Ends-any, Ends-of_done}
use os.Fat.{FatFs}
use os.Pmm.{pmm_free_frame}
use os.Vmm.{Vmm, store_word, page_present, page_dir_index, page_table_index}
use os.Elf.{Loader, Elf32Phdr, as_phdr, as_ehdr, failed, close_file, phdr_size, ehdr_size, pages}

-- One page of `unload_elf`, by the directory at `dir`: elf32.c has one of its own, since vmm.h
-- declares `page_directory` static.
unfoldable pub unload_page : (dir va : ℕ) → Vmm → Run Vmm
unload_page dir va s =
    let pde = s.mem (dir + 4 * page_dir_index va) in
    let pte_address = bit_and pde (not32 0xFFF) + 4 * page_table_index va in
    let pte = s.mem pte_address in
    if bit_and pde page_present == 0
    then done s
    else if bit_and pte page_present == 0
    then done s
    else pmm_free_frame (bit_and pte (not32 0xFFF)) s.pmm >>= λ pmm.
        done (record s { pmm = pmm; mem = store_word s.mem pte_address 0 })

unfoldable pub unload_pages : (rounds offset p_vaddr dir : ℕ) → Vmm → Run Vmm
unload_pages zero offset p_vaddr dir s = done s
unload_pages (suc rounds) offset p_vaddr dir s = unload_page dir (u32 (p_vaddr + offset)) s >>= λ t.
    unload_pages rounds (offset + 4096) p_vaddr dir t

-- A directory without entries.
abbrev IsEmpty : ℕ → Vmm → Type 0
IsEmpty dir s = (i : ℕ) → i < 1024 → s.mem (dir + 4 * i) ≡ 0

unload_pages-idle :
    (rounds offset p_vaddr dir : ℕ) (s : Vmm)
    → IsEmpty dir s
    → unload_pages rounds offset p_vaddr dir s ≡ done s
unfolding unload_pages unload_page
unload_pages-idle zero offset p_vaddr dir s none_there = refl
unload_pages-idle (suc rounds) offset p_vaddr dir s none_there =
    rw (none_there (page_dir_index (u32 (p_vaddr + offset))) (omega arith))
      (unload_pages-idle rounds (offset + 4096) p_vaddr dir s none_there)

module _ (F : FatFs) where
  abbrev pub unload_segment : (dir : ℕ) → Elf32Phdr → Loader F.State → Run (Loader F.State)
  unload_segment dir phdr s = pages phdr.p_memsz >>= λ rounds.
      unload_pages rounds 0 phdr.p_vaddr dir s.vmm >>= λ vmm. done (record s { vmm = vmm })

  unfoldable pub unload_headers :
      (rounds i e_phoff dir : ℕ) → F.File → Loader F.State → Run (Bool × Loader F.State)
  unload_headers zero i e_phoff dir file s = done (true, s)
  unload_headers (suc rounds) i e_phoff dir file s =
      let read = F.f_read file phdr_size (F.f_lseek file (u32 (e_phoff + i * phdr_size)) s.fs) in
      let s' = record s { fs = read.2 } in
      let phdr = as_phdr read.1 in
      let rest = λ (t : Loader F.State). unload_headers rounds (i + 1) e_phoff dir file t in
      if failed F phdr_size read
      then done (false, close_file F file s')
      else if phdr.p_type != 1
      then rest s'
      else unload_segment dir phdr s' >>= rest

  -- `true` is the result 0, `false` is -1.
  unfoldable pub unload_opened :
      (dir : ℕ) → Option F.File → Loader F.State → Run (Bool × Loader F.State)
  unload_opened dir none s = done (false, s)
  unload_opened dir (some file) s =
      let read = F.f_read file ehdr_size s.fs in
      let s' = record s { fs = read.2 } in
      let hdr = as_ehdr read.1 in
      if failed F ehdr_size read
      then done (false, close_file F file s')
      else unload_headers hdr.e_phnum 0 hdr.e_phoff dir file s' >>= λ r.
          if r.0 then done (true, close_file F file r.1) else done r

  unfoldable pub unload_elf :
      (dir : ℕ) → (path : List ℕ) → Loader F.State → Run (Bool × Loader F.State)
  unload_elf dir path s =
      let opened = F.f_open path 1 s.fs in unload_opened dir opened.0 (record s { fs = opened.1 })

  abbrev Idle : Loader F.State → Loader F.State → Type 0
  Idle s t = t.vmm ≡ s.vmm

  unload_segment-Idle :
      (dir : ℕ) (phdr : Elf32Phdr) (s : Loader F.State)
      → IsEmpty dir s.vmm
      → Ends (Idle s) (unload_segment dir phdr s)
  unload_segment-Idle dir phdr s none_there =
      Ends-bind (λ n. pages phdr.p_memsz ≡ done n) (Idle s) (pages phdr.p_memsz) _ (Ends-any _)
        (λ rounds e. rw (unload_pages-idle rounds 0 phdr.p_vaddr dir s.vmm none_there) refl)

  unload_headers-Idle :
      (rounds i e_phoff dir : ℕ) (file : F.File) (s : Loader F.State) (v : Vmm)
      → s.vmm ≡ v
      → IsEmpty dir v
      → Ends (λ r. r.1.vmm ≡ v) (unload_headers rounds i e_phoff dir file s)
  unfolding unload_headers
  unload_headers-Idle zero i e_phoff dir file s v e none_there = e
  unload_headers-Idle (suc rounds) i e_phoff dir file s v e none_there =
      let read = F.f_read file phdr_size (F.f_lseek file (u32 (e_phoff + i * phdr_size)) s.fs) in
      let s' = record s { fs = read.2 } in
      let phdr = as_phdr read.1 in
      let empty : IsEmpty dir s.vmm = rw e none_there in
      elim (Bool-cases (failed F phdr_size read)) [
        | inl bad ↦ rw bad e
        | inr good ↦ elim (Bool-cases (phdr.p_type != 1)) [
          | inl other ↦
              rw (good, other)
                (unload_headers-Idle rounds (i + 1) e_phoff dir file s' v e none_there)
          | inr load ↦
              rw (good, load)
                (Ends-bind (Idle s') (λ r. r.1.vmm ≡ v) (unload_segment dir phdr s') _
                  (unload_segment-Idle dir phdr s' empty)
                  (λ t same.
                    unload_headers-Idle rounds (i + 1) e_phoff dir file t v (same ∙ e) none_there))
        ]
      ]

  finish-Idle :
      (v : Vmm) (file : F.File) (r : Bool × Loader F.State)
      → r.1.vmm ≡ v
      → Ends {A = Bool × Loader F.State}
          (λ q. q.1.vmm ≡ v)
          (if r.0 then done (true, close_file F file r.1) else done r)
  finish-Idle v file (true, t) e = e
  finish-Idle v file (false, t) e = e

  unload_opened-Idle :
      (dir : ℕ) (o : Option F.File) (s : Loader F.State)
      → IsEmpty dir s.vmm
      → Ends (λ r. r.1.vmm ≡ s.vmm) (unload_opened dir o s)
  unfolding unload_opened
  unload_opened-Idle dir none s none_there = refl
  unload_opened-Idle dir (some file) s none_there =
      let read = F.f_read file ehdr_size s.fs in
      let s' = record s { fs = read.2 } in
      let hdr = as_ehdr read.1 in
      elim (Bool-cases (failed F ehdr_size read)) [
        | inl bad ↦ rw bad refl
        | inr good ↦ rw good (
            Ends-bind (λ r. r.1.vmm ≡ s.vmm) (λ r. r.1.vmm ≡ s.vmm)
              (unload_headers hdr.e_phnum 0 hdr.e_phoff dir file s') _
              (unload_headers-Idle hdr.e_phnum 0 hdr.e_phoff dir file s' s.vmm refl none_there)
              (λ r e. finish-Idle s.vmm file r e))
      ]

  -- With a directory that has no entries, as the one of elf32.c, `unload_elf` unmaps no page and
  -- frees no frame, whatever the file holds.
  pub unload_elf-idle :
      (dir : ℕ) (path : List ℕ) (s : Loader F.State) (ok : Bool) (t : Loader F.State)
      → ((i : ℕ) → i < 1024 → s.vmm.mem (dir + 4 * i) ≡ 0)
      → unload_elf dir path s ≡ done (ok, t)
      → t.vmm ≡ s.vmm
  unfolding unload_elf
  unload_elf-idle dir path s ok t none_there run =
      let answer = F.f_open path 1 s.fs in
      Ends-of_done (λ r. r.1.vmm ≡ s.vmm)
        (unload_opened-Idle dir answer.0 (record s { fs = answer.1 }) none_there) run
