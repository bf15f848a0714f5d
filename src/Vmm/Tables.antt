-- ===== src/Vmm/Tables.antt =====
-- vmm.c: a new page table, on a frame that was free, changes no translation.
use os.Base.{
  ℕ, zero, suc, ◌+◌, ◌-◌, ◌*◌, ◌/◌, ◌%◌, ◌^◌, ◌≤◌, ◌<◌, ◌≡◌, ◌≢◌, refl, sym, ◌∙◌, arith, ◌==◌,
  if◌then◌else◌, inl, inr, ◌⊎◌, eq-cases, ne→==,
}
use os.Base.Masks.{bit_or-page, bit_or-flag}
use os.Pmm.{Pmm}
use os.Pmm.Alloc.{Allocated}
use os.Pmm.Owners.{IsHeld, IsHeld-ne, IsHeld-alloc}
use os.Vmm.{Vmm, store_word, clear_words, add_table}
use os.Vmm.Walk.{entry_of, page_of, walk, IsSpace}

pub clear_words-out :
    (n a : ℕ) (m : ℕ → ℕ) (p : ℕ) → (p < a) ⊎ (a + 4 * n ≤ p) → clear_words n a m p ≡ m p
unfolding clear_words
clear_words-out zero a m p h = refl
clear_words-out (suc n) a m p h =
    clear_words-out n (a + 4) (store_word m a 0) p (omega arith) ∙ ground arith

pub clear_words-in :
    (n a : ℕ) (m : ℕ → ℕ) (p : ℕ)
    → a ≤ p
    → p < a + 4 * n
    → (p - a) % 4 ≡ 0
    → clear_words n a m p ≡ 0
unfolding clear_words
clear_words-in zero a m p le lt e = absurd (omega arith)
clear_words-in (suc n) a m p le lt e = elim (eq-cases p a) [
  | inl same ↦ clear_words-out n (a + 4) (store_word m a 0) p (omega arith) ∙ ground arith
  | inr ne ↦ clear_words-in n (a + 4) (store_word m a 0) p (omega arith) (omega arith) (omega arith)
]

-- The frame `a` was free in `p`, and is used in `q`.
module _ (virt a : ℕ) (p q : Pmm) (s : Vmm) (sp : IsSpace p s.mem s.page_directory)
    (al : Allocated p a q) (hv : virt < 2 ^ 32)
    (absent : entry_of s.mem s.page_directory virt % 2 ≡ 0) where
  abbrev dir : ℕ
  dir = s.page_directory

  abbrev mem' : ℕ → ℕ
  mem' = (add_table virt a s).mem

  add_table_mem : mem' ≡ store_word (clear_words 1024 a s.mem) (dir + 4 * (virt / 2 ^ 22)) (a + 7)
  unfolding add_table
  add_table_mem =
      let one = bit_or-page a 1 (omega (arith, al.aligned)) (omega arith) in
      let two = bit_or-flag 1 (a + 1) (omega (arith, al.aligned)) in
      let three = bit_or-flag 2 (a + 1 + 2) (omega (arith, al.aligned)) in
      let sum : a + 1 + 2 + 4 ≡ a + 7 = omega arith in rw (one, two, three, sum) refl

  -- The entries of the directory.
  add_table_dir :
      (i : ℕ)
      → i < 1024
      → mem' (dir + 4 * i) ≡ (if i == virt / 2 ^ 22 then a + 7 else s.mem (dir + 4 * i))
  add_table_dir i h =
      let (aligned, lt, u) = sp.dir_held in
      let ne = IsHeld-ne dir al sp.dir_held in
      let out = clear_words-out 1024 a s.mem (dir + 4 * i) (omega (arith, al.aligned)) in
      rw add_table_mem (ground arith)

  -- The present tables are as before.
  add_table_old :
      (i j : ℕ)
      → i < 1024
      → j < 1024
      → s.mem (dir + 4 * i) % 2 ≡ 1
      → mem' (page_of (s.mem (dir + 4 * i)) + 4 * j) ≡ s.mem (page_of (s.mem (dir + 4 * i)) + 4 * j)
  add_table_old i j hi hj e =
      let t = page_of (s.mem (dir + 4 * i)) in
      let (aligned, lt, u) = sp.held i hi e in
      let (dir_aligned, dir_lt, dir_u) = sp.dir_held in
      let ne = IsHeld-ne t al (sp.held i hi e) in
      let ne' = sp.not_dir i hi e in
      let out = clear_words-out 1024 a s.mem (t + 4 * j) (omega (arith, al.aligned)) in
      let apart : t + 4 * j ≢ dir + 4 * (virt / 2 ^ 22) = omega arith in
      rw (add_table_mem, ne→== _ _ apart) out

  -- The new table is empty.
  add_table_new : (j : ℕ) → j < 1024 → mem' (a + 4 * j) ≡ 0
  add_table_new j h =
      let (dir_aligned, dir_lt, dir_u) = sp.dir_held in
      let ne = IsHeld-ne dir al sp.dir_held in
      let apart : a + 4 * j ≢ dir + 4 * (virt / 2 ^ 22) = omega (arith, al.aligned) in
      rw (add_table_mem, ne→== _ _ apart)
        (clear_words-in 1024 a s.mem (a + 4 * j) (omega arith) (omega arith) (omega arith))

  pub add_table-walk : (v : ℕ) → v < 2 ^ 32 → walk mem' dir v ≡ walk s.mem dir v
  unfolding walk
  add_table-walk v h =
      let i = v / 2 ^ 22 in
      let entry = add_table_dir i (omega arith) in
      elim (eq-cases i (virt / 2 ^ 22)) [
        | inl e ↦
            let none_before : s.mem (dir + 4 * i) % 2 ≡ 0 = rw e absent in
            let entry' : mem' (dir + 4 * i) ≡ a + 7 = ground arith in
            let new = add_table_new (v / 2 ^ 12 % 1024) (omega arith) in
            let odd : (a + 7) % 2 ≡ 1 = omega (arith, al.aligned) in
            let page : page_of (a + 7) ≡ a = omega (arith, al.aligned) in
            rw (entry', odd, page, new, none_before) refl
        | inr ne ↦
            let same : mem' (dir + 4 * i) ≡ s.mem (dir + 4 * i) = ground arith in
            elim (eq-cases (s.mem (dir + 4 * i) % 2) 1) [
              | inl there ↦
                  rw (same, add_table_old i (v / 2 ^ 12 % 1024) (omega arith) (omega arith) there)
                    refl
              | inr not_there ↦
                  let off : s.mem (dir + 4 * i) % 2 ≡ 0 = omega arith in rw (same, off) refl
            ]
      ]

  pub add_table_present : entry_of mem' dir virt % 2 ≡ 1
  add_table_present = ground (arith, add_table_dir (virt / 2 ^ 22), al.aligned)

  small : a + 7 < 2 ^ 32
  small = omega (arith, al.aligned, al.in_range, sp.pmm_valid.fits)

  IsHeld-new : IsHeld q a
  IsHeld-new =
      (al.aligned, omega (arith, al.total, al.in_range), ground (arith, al.marks (a / 4096)))

  -- A present entry is the new one, with the new table, or an old one.
  entries :
      (i : ℕ)
      → i < 1024
      → mem' (dir + 4 * i) % 2 ≡ 1
      → ((i ≡ virt / 2 ^ 22) × (page_of (mem' (dir + 4 * i)) ≡ a))
        ⊎ ((i ≢ virt / 2 ^ 22)
            × (page_of (mem' (dir + 4 * i)) ≡ page_of (s.mem (dir + 4 * i)))
            × (s.mem (dir + 4 * i) % 2 ≡ 1))
  entries i h e =
      let entry = add_table_dir i h in
      elim (eq-cases i (virt / 2 ^ 22)) [
        | inl at ↦
            let is : mem' (dir + 4 * i) ≡ a + 7 = ground arith in
            inl (at, omega (arith, al.aligned))
        | inr ne ↦
            let is : mem' (dir + 4 * i) ≡ s.mem (dir + 4 * i) = ground arith in
            inr (ne, omega arith, omega arith)
      ]

  pub add_table-IsSpace : IsSpace q mem' dir
  add_table-IsSpace = record {
    pmm_valid = al.valid;
    dir_held = IsHeld-alloc dir al sp.dir_held;
    word = λ i h. ground (arith, add_table_dir i h, sp.word i h, small);
    held = λ i h e. elim (entries i h e) [
      | inl (at, is) ↦ rw is IsHeld-new
      | inr (ne, is, e') ↦ rw is (IsHeld-alloc _ al (sp.held i h e'))
    ];
    not_dir = λ i h e. elim (entries i h e) [
      | inl (at, is) ↦ rw is (λ same. IsHeld-ne dir al sp.dir_held (sym same))
      | inr (ne, is, e') ↦ rw is (sp.not_dir i h e')
    ];
    distinct = λ i j hi hj ei ej ne. elim (entries i hi ei) [
      | inl (at, is) ↦ elim (entries j hj ej) [
        | inl (at', is') ↦ absurd (omega arith)
        | inr (ne', is', e') ↦ rw (is, is') (λ same. IsHeld-ne _ al (sp.held j hj e') (sym same))
      ]
      | inr (ne', is, e') ↦ elim (entries j hj ej) [
        | inl (at, is') ↦ rw (is, is') (IsHeld-ne _ al (sp.held i hi e'))
        | inr (ne'', is', e'') ↦ rw (is, is') (sp.distinct i j hi hj e' e'' ne)
      ]
    ];
  }
