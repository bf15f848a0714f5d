-- ===== src/Vmm/Identity.antt =====
-- vmm.c: the identity mapping of the first 4 MB that paging is switched on with.
use os.Base.{
  ℕ, zero, suc, ◌+◌, ◌*◌, ◌/◌, ◌%◌, ◌^◌, ◌≤◌, ◌<◌, ◌≡◌, ◌≢◌, refl, ◌∙◌, arith, none, some, bit_or,
  ltb, ◌==◌, if◌then◌else◌, inl, inr, ◌⊎◌, eq-cases,
}
use os.Base.Masks.{bit_or-page, bit_or-flag}
use os.Pmm.Frames.{IsValid as IsPmmValid}
use os.Pmm.Owners.{IsHeld}
use os.Vmm.{Vmm, identity_loop, vmm_identity_map_first_4mb}
use os.Vmm.Walk.{page_of, walk, IsSpace}

-- an aligned address with the flags `PAGE_PRESENT | PAGE_RW`
present_rw : (a : ℕ) → a % 4096 ≡ 0 → bit_or (bit_or a 1) 2 ≡ a + 3
present_rw a h =
    let one = bit_or-page a 1 h (omega arith) in
    let two = bit_or-flag 1 (a + 1) (omega arith) in rw one (omega arith)

identity_loop-out :
    (n i table : ℕ) (m : ℕ → ℕ) (p : ℕ)
    → (p < table + 4 * i) ⊎ (table + 4 * (i + n) ≤ p)
    → identity_loop n i table m p ≡ m p
unfolding identity_loop
identity_loop-out zero i table m p h = refl
identity_loop-out (suc n) i table m p h =
    identity_loop-out n (i + 1) table _ p (omega arith) ∙ ground arith

identity_loop-in :
    (n i table : ℕ) (m : ℕ → ℕ) (j : ℕ)
    → i ≤ j
    → j < i + n
    → identity_loop n i table m (table + 4 * j) ≡ j * 4096 + 3
unfolding identity_loop
identity_loop-in zero i table m j le lt = absurd (omega arith)
identity_loop-in (suc n) i table m j le lt = elim (eq-cases j i) [
  | inl same ↦
      identity_loop-out n (i + 1) table _ (table + 4 * j) (omega arith)
      ∙ ground (arith, present_rw (i * 4096))
  | inr ne ↦ identity_loop-in n (i + 1) table _ j (omega arith) (omega arith)
]

-- Before: the two arrays are distinct used frames, and the directory is empty, as the C language
-- leaves a static array.
pub record IsFresh (s : Vmm) : Type 0 where
  pub pmm_valid : IsPmmValid s.pmm
  pub dir_held : IsHeld s.pmm s.page_directory
  pub table_held : IsHeld s.pmm s.first_page_table
  pub apart : s.first_page_table ≢ s.page_directory
  pub empty : (i : ℕ) → i < 1024 → s.mem (s.page_directory + 4 * i) ≡ 0

module _ (s : Vmm) (f : IsFresh s) where
  abbrev mem' : ℕ → ℕ
  mem' = (vmm_identity_map_first_4mb s).mem

  mem_lem :
      (p : ℕ)
      → mem' p ≡ (
          if p == s.page_directory
          then s.first_page_table + 3
          else identity_loop 1024 0 s.first_page_table s.mem p)
  unfolding vmm_identity_map_first_4mb
  mem_lem p = let (aligned, lt, u) = f.table_held in ground (arith, present_rw s.first_page_table)

  dir_entry :
      (i : ℕ)
      → i < 1024
      → mem' (s.page_directory + 4 * i) ≡ (if i == 0 then s.first_page_table + 3 else 0)
  dir_entry i h =
      let (aligned, lt, u) = f.table_held in
      let (dir_aligned, dir_lt, dir_u) = f.dir_held in
      let out =
        identity_loop-out 1024 0 s.first_page_table s.mem (s.page_directory + 4 * i)
          (omega (arith, f.apart)) in
      ground (arith, mem_lem (s.page_directory + 4 * i), f.empty i h)

  table_entry : (j : ℕ) → j < 1024 → mem' (s.first_page_table + 4 * j) ≡ j * 4096 + 3
  table_entry j h =
      let (aligned, lt, u) = f.table_held in
      let (dir_aligned, dir_lt, dir_u) = f.dir_held in
      let apart : s.first_page_table + 4 * j ≢ s.page_directory = omega (arith, f.apart) in
      let inside = identity_loop-in 1024 0 s.first_page_table s.mem j (omega arith) (omega arith) in
      ground (arith, mem_lem (s.first_page_table + 4 * j))

  identity_walk :
      (v : ℕ)
      → v < 2 ^ 32
      → walk mem' s.page_directory v ≡ (if ltb v 0x40_0000 then some (page_of v + 3) else none)
  unfolding walk
  identity_walk v h =
      let (aligned, lt, u) = f.table_held in
      let entry = dir_entry (v / 2 ^ 22) (omega arith) in
      elim (eq-cases (v / 2 ^ 22) 0) [
        | inl z ↦
            let here : mem' (s.page_directory + 4 * (v / 2 ^ 22)) ≡ s.first_page_table + 3 =
              ground arith in
            let odd : (s.first_page_table + 3) % 2 ≡ 1 = omega arith in
            let page : page_of (s.first_page_table + 3) ≡ s.first_page_table = omega arith in
            let pte = table_entry (v / 2 ^ 12 % 1024) (omega arith) in
            let odd' : (v / 2 ^ 12 % 1024 * 4096 + 3) % 2 ≡ 1 = omega arith in
            let same : v / 2 ^ 12 % 1024 * 4096 + 3 ≡ page_of v + 3 = omega arith in
            rw (here, odd, page, pte, odd', same) (ground arith)
        | inr nz ↦
            let here : mem' (s.page_directory + 4 * (v / 2 ^ 22)) ≡ 0 = ground arith in
            rw here (ground arith)
      ]

  identity-IsSpace : IsSpace s.pmm mem' s.page_directory
  identity-IsSpace =
      let (aligned, lt, u) = f.table_held in
      let page : page_of (s.first_page_table + 3) ≡ s.first_page_table = omega arith in
      record {
        pmm_valid = f.pmm_valid;
        dir_held = f.dir_held;
        word = λ i h. ground (arith, dir_entry i h, f.pmm_valid.fits);
        held = λ i h e.
            let is : mem' (s.page_directory + 4 * i) ≡ s.first_page_table + 3 =
              ground (arith, dir_entry i h) in
            rw (is, page) f.table_held;
        not_dir = λ i h e.
            let is : mem' (s.page_directory + 4 * i) ≡ s.first_page_table + 3 =
              ground (arith, dir_entry i h) in
            rw (is, page) f.apart;
        distinct = λ i j hi hj ei ej ne. absurd (ground (arith, dir_entry i hi, dir_entry j hj));
      }

  -- From an empty directory, `vmm_identity_map_first_4mb` maps each page below 4 MB to itself,
  -- present and writable, and no other page, and the tables are as `vmm_map_page` needs them.
  pub vmm_identity_map_first_4mb_lem :
      IsSpace s.pmm mem' s.page_directory
      × ((v : ℕ)
          → v < 2 ^ 32
          → walk mem' s.page_directory v ≡ (if ltb v 0x40_0000 then some (page_of v + 3) else none))
  vmm_identity_map_first_4mb_lem = (identity-IsSpace, identity_walk)
