-- ===== src/Vmm/Walk.antt =====
-- vmm.c: the walk of the page tables that the processor makes, and what writing an entry does to it.
use os.Base.{
  ℕ, ◌+◌, ◌*◌, ◌/◌, ◌%◌, ◌^◌, ◌<◌, ◌≡◌, ◌≢◌, refl, arith, Option, none, some, ◌==◌, if◌then◌else◌,
  inl, inr, eq-cases, eq→==, ne→==,
}
use os.Base.Masks.{bit_and-mod, bit_and-page, bit_or-page}
use os.Pmm.{Pmm}
use os.Pmm.Frames.{IsValid as IsPmmValid}
use os.Pmm.Owners.{IsHeld}
use os.Vmm.{Vmm, store_word, map_entry}

-- The entry of the directory for an address, and the address of a page that an entry holds.
abbrev pub entry_of : (ℕ → ℕ) → (dir v : ℕ) → ℕ
entry_of m dir v = m (dir + 4 * (v / 2 ^ 22))

abbrev pub page_of : ℕ → ℕ
page_of e = e / 4096 * 4096

-- The page table entry for the address `v`, if both levels are present.
unfoldable pub walk : (ℕ → ℕ) → (dir v : ℕ) → Option ℕ
walk m dir v =
    let pde = entry_of m dir v in
    if pde % 2 == 0
    then none
    else let pte = m (page_of pde + 4 * (v / 2 ^ 12 % 1024)) in
      if pte % 2 == 0 then none else some pte

-- The directory and the present tables are distinct used frames.
pub record IsSpace (p : Pmm) (m : ℕ → ℕ) (dir : ℕ) : Type 0 where
  pub pmm_valid : IsPmmValid p
  pub dir_held : IsHeld p dir
  pub word : (i : ℕ) → i < 1024 → m (dir + 4 * i) < 2 ^ 32
  pub held : (i : ℕ) → i < 1024 → m (dir + 4 * i) % 2 ≡ 1 → IsHeld p (page_of (m (dir + 4 * i)))
  pub not_dir : (i : ℕ) → i < 1024 → m (dir + 4 * i) % 2 ≡ 1 → page_of (m (dir + 4 * i)) ≢ dir
  pub distinct :
      (i j : ℕ)
      → i < 1024
      → j < 1024
      → m (dir + 4 * i) % 2 ≡ 1
      → m (dir + 4 * j) % 2 ≡ 1
      → i ≢ j
      → page_of (m (dir + 4 * i)) ≢ page_of (m (dir + 4 * j))

-- What an entry for `phys` with `flags` looks like to the processor.
unfoldable pub entry_for : (phys flags : ℕ) → Option ℕ
entry_for phys flags = if flags % 2 == 0 then none else some (page_of phys + flags % 8)

module _ (virt phys flags : ℕ) (s : Vmm) (sp : IsSpace s.pmm s.mem s.page_directory)
    (hv : virt < 2 ^ 32) (hp : phys < 2 ^ 32)
    (present : entry_of s.mem s.page_directory virt % 2 ≡ 1) where
  abbrev slot : ℕ
  slot = page_of (entry_of s.mem s.page_directory virt) + 4 * (virt / 2 ^ 12 % 1024)

  map_entry_mem :
      (map_entry virt phys flags s).mem ≡ store_word s.mem slot (page_of phys + flags % 8)
  unfolding map_entry
  map_entry_mem =
      let a =
        bit_and-page (entry_of s.mem s.page_directory virt)
          (sp.word (virt / 2 ^ 22) (omega arith)) in
      let b = bit_and-mod 10 (virt / 2 ^ 12) (omega arith) in
      let c = bit_and-page phys hp in
      let d = bit_and-mod 3 flags (omega arith) in
      let e = bit_or-page (page_of phys) (flags % 8) (omega arith) (omega arith) in
      rw (a, b, c, d, e) refl

  -- The write of the entry does not touch the directory.
  map_entry_dir :
      (i : ℕ)
      → i < 1024
      → (map_entry virt phys flags s).mem (s.page_directory + 4 * i)
        ≡ s.mem (s.page_directory + 4 * i)
  map_entry_dir i h =
      let (aligned, lt, u) = sp.dir_held in
      let ne = sp.not_dir (virt / 2 ^ 22) (omega arith) present in
      let far : s.page_directory + 4 * i ≢ slot = omega arith in rw map_entry_mem (ground arith)

  pub map_entry-walk :
      (v : ℕ)
      → v < 2 ^ 32
      → walk (map_entry virt phys flags s).mem s.page_directory v
        ≡ (if v / 4096 == virt / 4096 then entry_for phys flags else walk s.mem s.page_directory v)
  unfolding walk entry_for
  map_entry-walk v h =
      let dir_same = map_entry_dir (v / 2 ^ 22) (omega arith) in
      elim (eq-cases (v / 4096) (virt / 4096)) [
        | inl e ↦
            let e1 : v / 2 ^ 22 ≡ virt / 2 ^ 22 = omega arith in
            let e2 : v / 2 ^ 12 % 1024 ≡ virt / 2 ^ 12 % 1024 = omega arith in
            rw (eq→== _ _ e, dir_same, e1, e2, present, map_entry_mem) (ground arith)
        | inr ne ↦ elim (eq-cases (entry_of s.mem s.page_directory v % 2) 1) [
          | inl there ↦
              let apart : page_of (entry_of s.mem s.page_directory v) + 4 * (v / 2 ^ 12 % 1024)
                  ≢ slot =
                (elim (eq-cases (v / 2 ^ 22) (virt / 2 ^ 22)) [
                  | inl e1 ↦ rw e1 (omega arith)
                  | inr ne1 ↦
                      let other =
                        sp.distinct (v / 2 ^ 22) (virt / 2 ^ 22) (omega arith) (omega arith) there
                          present ne1 in
                      omega arith
                ]) in
              rw (ne→== _ _ ne, dir_same, there, map_entry_mem, ne→== _ _ apart) refl
          | inr not_there ↦
              let off : entry_of s.mem s.page_directory v % 2 ≡ 0 = omega arith in
              rw (ne→== _ _ ne, dir_same, off) refl
        ]
      ]

  pub map_entry-IsSpace : IsSpace s.pmm (map_entry virt phys flags s).mem s.page_directory
  map_entry-IsSpace = record {
    pmm_valid = sp.pmm_valid;
    dir_held = sp.dir_held;
    word = λ i h. ground (arith, map_entry_dir i h, sp.word i h);
    held = λ i h e. rw (map_entry_dir i h) (sp.held i h (rw⁻¹ (map_entry_dir i h) e));
    not_dir = λ i h e. rw (map_entry_dir i h) (sp.not_dir i h (rw⁻¹ (map_entry_dir i h) e));
    distinct = λ i j hi hj ei ej ne.
        rw (map_entry_dir i hi, map_entry_dir j hj)
          (sp.distinct i j hi hj (rw⁻¹ (map_entry_dir i hi) ei) (rw⁻¹ (map_entry_dir j hj) ej) ne);
  }
