-- ===== src/Elf/Segment.antt =====
-- elf32/elf32.c: a segment in memory.
use os.Base.{
  none, ℕ, suc, ◌+◌, ◌-◌, ◌%◌, ◌^◌, ◌<◌, ◌≤◌, ◌≡◌, ◌&&◌, arith, List, [], ◌∷◌, length, get_or, leb,
  ltb, if◌then◌else◌, lt-cases, inl, inr,
}
use os.Strings.{Bytes, store_byte}
use os.Fat.{FatFs, IsLawful}
use os.Vmm.{Vmm}
use os.Vmm.Map.{pte_of}
use os.Elf.{Loader, Elf32Phdr, store_bytes}
use os.Vmm.Growth.{Grown, IsMapped}

pub store_bytes_lem :
    (dest : ℕ) (bs : List ℕ) (m : Bytes) (p : ℕ)
    → store_bytes dest bs m p
      ≡ (if leb dest p && ltb p (dest + length bs) then get_or bs (p - dest) 0 else m p)
unfolding store_bytes
store_bytes_lem dest [] m p = ground arith
store_bytes_lem dest (c ∷ cs) m p =
    let rest = store_bytes_lem (dest + 1) cs (store_byte m dest c) p in
    elim (lt-cases dest p) [
      | inl lt ↦ let next : p - dest ≡ suc (p - (dest + 1)) = omega arith in rw next (ground arith)
      | inr le ↦ ground arith
    ]

-- The byte at `a` once a segment with the bytes `bs` of the file is loaded over `m`.
abbrev pub loaded_byte : Elf32Phdr → List ℕ → Bytes → ℕ → ℕ
loaded_byte phdr bs m a =
    if leb phdr.p_vaddr a && ltb a (phdr.p_vaddr + length bs)
    then get_or bs (a - phdr.p_vaddr) 0
    else if leb (phdr.p_vaddr + phdr.p_filesz) a && ltb a (phdr.p_vaddr + phdr.p_memsz)
    then 0
    else m a

-- The place of a segment: whole pages from its first byte on, past the 4 MB that are mapped to themselves.
pub record IsPlaced (phdr : Elf32Phdr) : Type 0 where
  pub aligned : phdr.p_vaddr % 4096 ≡ 0
  pub past_identity : 0x40_0000 ≤ phdr.p_vaddr
  pub fits : phdr.p_vaddr + phdr.p_memsz ≤ 2 ^ 32
  pub file_fits : phdr.p_filesz ≤ phdr.p_memsz

module _ (F : FatFs) (opened : F.State → ℕ) (law : IsLawful F opened) (file : F.File)
    (phdr : Elf32Phdr) (s : Loader F.State) where
  -- What the read of the segment gives.
  abbrev pub contents : List ℕ
  contents = (F.f_read file phdr.p_filesz (F.f_lseek file phdr.p_offset s.fs)).1

  -- No page of the segment is mapped, so each gets a frame of its own.
  abbrev pub IsUnmapped : Type 0
  IsUnmapped = (a : ℕ) → phdr.p_vaddr ≤ a → a < phdr.p_vaddr + phdr.p_memsz → pte_of s.vmm a ≡ none

  pub record Loaded (t : Loader F.State) : Type 0 where
    pub grown : Grown s.vmm t.vmm
    pub there : (a : ℕ) → phdr.p_vaddr ≤ a → a < phdr.p_vaddr + phdr.p_memsz → IsMapped t.vmm a
    pub bytes :
        (a : ℕ)
        → phdr.p_vaddr ≤ a
        → a < phdr.p_vaddr + phdr.p_memsz
        → t.mem a ≡ loaded_byte phdr contents s.mem a
