-- ===== src/Elf/Header.antt =====
-- elf32/elf32.c: which files `load_elf` takes.
use os.Base.{
  ℕ, zero, suc, ◌<◌, ◌≡◌, refl, Bool, true, false, arith, Option, none, some, List, [], ◌∷◌, get_or,
  take, length, if◌then◌else◌, Bool-cases, inl, inr, ◌⊎◌,
}
use os.Base.Run.{done, Ends, Ends-bind, Ends-any, Ends-of_done}
use os.Fat.{FatFs}
use os.Elf.{
  Loader, as_ehdr, has_magic, failed, close_file, ehdr_size, word32, load_headers, load_opened,
  load_elf,
}

get_or-take : (n i : ℕ) (bs : List ℕ) → i < n → get_or (take n bs) i 0 ≡ get_or bs i 0
get_or-take zero i bs lt = absurd (omega arith)
get_or-take (suc n) i [] lt = refl
get_or-take (suc n) zero (b ∷ bs) lt = refl
get_or-take (suc n) (suc i) (b ∷ bs) lt = get_or-take n i bs (omega arith)

module _ (F : FatFs) where
  -- The file gives a whole header that starts with 0x7F and "ELF", and the result is its entry
  -- point, or 0 after a program header that could not be read.
  pub record Accepted (file : F.File) (s : Loader F.State) (entry : ℕ) : Type 0 where
    pub whole : length (F.f_read file ehdr_size s.fs).1 ≡ 48
    pub byte0 : get_or (F.f_read file ehdr_size s.fs).1 0 0 ≡ 0x7F
    pub byte1 : get_or (F.f_read file ehdr_size s.fs).1 1 0 ≡ b'E'
    pub byte2 : get_or (F.f_read file ehdr_size s.fs).1 2 0 ≡ b'L'
    pub byte3 : get_or (F.f_read file ehdr_size s.fs).1 3 0 ≡ b'F'
    pub result : (entry ≡ 0) ⊎ (entry ≡ word32 (F.f_read file ehdr_size s.fs).1 24)

  -- Nothing is loaded.
  pub record Rejected (s t : Loader F.State) (entry : ℕ) : Type 0 where
    pub no_entry : entry ≡ 0
    pub no_pages : t.vmm ≡ s.vmm
    pub no_bytes : t.mem ≡ s.mem

  abbrev Answer : Option F.File → Loader F.State → ℕ × Loader F.State → Type 0
  Answer o s r = ((file : F.File) × (o ≡ some file) × Accepted file s r.0) ⊎ Rejected s r.1 r.0

  has_magic-Accepted :
      (file : F.File) (s : Loader F.State) (entry : ℕ)
      → failed F ehdr_size (F.f_read file ehdr_size s.fs) ≡ false
      → has_magic (as_ehdr (F.f_read file ehdr_size s.fs).1) ≡ true
      → ((entry ≡ 0) ⊎ (entry ≡ word32 (F.f_read file ehdr_size s.fs).1 24))
      → Accepted file s entry
  unfolding has_magic
  has_magic-Accepted file s entry good magic result =
      let bs = (F.f_read file ehdr_size s.fs).1 in
      let b0 = get_or-take 16 0 bs (omega arith) in
      let b1 = get_or-take 16 1 bs (omega arith) in
      let b2 = get_or-take 16 2 bs (omega arith) in
      let b3 = get_or-take 16 3 bs (omega arith) in
      record {
        whole = ground arith;
        byte0 = ground arith;
        byte1 = ground arith;
        byte2 = ground arith;
        byte3 = ground arith;
        result = result;
      }

  finish-Accepted :
      (file : F.File) (s : Loader F.State) (r : Bool × Loader F.State)
      → failed F ehdr_size (F.f_read file ehdr_size s.fs) ≡ false
      → has_magic (as_ehdr (F.f_read file ehdr_size s.fs).1) ≡ true
      → Ends (Answer (some file) s) (
          if r.0
          then done (word32 (F.f_read file ehdr_size s.fs).1 24, close_file F file r.1)
          else done (0, r.1))
  finish-Accepted file s (true, t) good magic =
      inl (file, refl, has_magic-Accepted file s _ good magic (inr refl))
  finish-Accepted file s (false, t) good magic =
      inl (file, refl, has_magic-Accepted file s 0 good magic (inl refl))

  load_opened-Answer :
      (o : Option F.File) (s : Loader F.State) → Ends (Answer o s) (load_opened F o s)
  unfolding load_opened
  load_opened-Answer none s = inr (record { no_entry = refl; no_pages = refl; no_bytes = refl })
  load_opened-Answer (some file) s =
      let read = F.f_read file ehdr_size s.fs in
      let s' = record s { fs = read.2 } in
      let hdr = as_ehdr read.1 in
      let rejected : Rejected s (close_file F file s') 0 = record {
        no_entry = refl;
        no_pages = refl;
        no_bytes = refl;
      } in
      elim (Bool-cases (failed F ehdr_size read)) [
        | inl bad ↦ rw bad (inr rejected)
        | inr good ↦ elim (Bool-cases (has_magic hdr)) [
          | inr wrong ↦ rw (good, wrong) (inr rejected)
          | inl magic ↦
              rw (good, magic)
                (Ends-bind (λ r. load_headers F hdr.e_phnum 0 hdr.e_phoff file s' ≡ done r)
                  (Answer (some file) s) (load_headers F hdr.e_phnum 0 hdr.e_phoff file s') _
                  (Ends-any _) (λ r e. finish-Accepted file s r good magic))
        ]
      ]

  -- Where `load_elf` returns, the path opened a file with a whole header and the magic number, and
  -- the result is its entry point or 0; or the result is 0, and no page was mapped and no byte
  -- written.
  pub load_elf-Accepted :
      (path : List ℕ) (s : Loader F.State) (entry : ℕ) (t : Loader F.State)
      → load_elf F path s ≡ done (entry, t)
      → ((file : F.File) × ((F.f_open path 1 s.fs).0 ≡ some file)
          × Accepted file (record s { fs = (F.f_open path 1 s.fs).1 }) entry)
        ⊎ Rejected s t entry
  unfolding load_elf
  load_elf-Accepted path s entry t run =
      let answer = F.f_open path 1 s.fs in
      let s' = record s { fs = answer.1 } in
      elim (Ends-of_done (Answer answer.0 s') (load_opened-Answer answer.0 s') run) [
        | inl a ↦ inl a
        | inr r ↦
            inr (record { no_entry = r.no_entry; no_pages = r.no_pages; no_bytes = r.no_bytes })
      ]
