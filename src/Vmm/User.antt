-- ===== src/Vmm/User.antt =====
-- vmm.c: the directory of a new address space.
use os.Base.{
  leb, Bool-cases, ℕ, zero, suc, ◌+◌, ◌-◌, ◌*◌, ◌/◌, ◌%◌, ◌^◌, ◌≤◌, ◌<◌, ◌≡◌, ◌≢◌, refl, ◌∙◌, true,
  arith, none, bit_or, inl, inr, ◌⊎◌, eq-cases, ne→==,
}
use os.Base.Run.{done, halt}
use os.Base.Masks.{bit_or-page}
use os.Pmm.{Pmm}
use os.Pmm.Alloc.{used, Allocated, pmm_alloc_frame_lem}
use os.Pmm.Owners.{IsHeld, IsHeld-ne}
use os.Vmm.{Vmm, store_word, clear_words, copy_words, vmm_create_user_directory}
use os.Vmm.Walk.{walk, IsSpace}
use os.Vmm.Tables.{clear_words-in, clear_words-out}

copy_words-out :
    (n dest src : ℕ) (m : ℕ → ℕ) (p : ℕ)
    → (p < dest) ⊎ (dest + 4 * n ≤ p)
    → copy_words n dest src m p ≡ m p
unfolding copy_words
copy_words-out zero dest src m p h = refl
copy_words-out (suc n) dest src m p h =
    copy_words-out n (dest + 4) (src + 4) _ p (omega arith) ∙ ground arith

copy_words-in :
    (n dest src : ℕ) (m : ℕ → ℕ) (j : ℕ)
    → (dest + 4 * n ≤ src) ⊎ (src + 4 * n ≤ dest)
    → j < n
    → copy_words n dest src m (dest + 4 * j) ≡ m (src + 4 * j)
unfolding copy_words
copy_words-in zero dest src m j far lt = absurd (omega arith)
copy_words-in (suc n) dest src m zero far lt =
    copy_words-out n (dest + 4) (src + 4) _ (dest + 0) (omega arith) ∙ ground arith
copy_words-in (suc n) dest src m (suc j) far lt =
    let rest =
      copy_words-in n (dest + 4) (src + 4) (store_word m dest (m src)) j (omega arith)
        (omega arith) in
    let at_dest : dest + 4 + 4 * j ≡ dest + 4 * suc j = omega arith in
    let at_src : src + 4 + 4 * j ≡ src + 4 * suc j = omega arith in
    let rest' = rw (at_dest, at_src) at rest in rest' ∙ ground arith

-- What the processor finds with the new directory `a`: nothing in the user half, what the current
-- one has in the kernel's part, and `a` itself as the last table.
pub record Created (cr3 : ℕ) (s : Vmm) (a : ℕ) (t : Vmm) : Type 0 where
  pub allocated : Allocated s.pmm a t.pmm
  pub user : (v : ℕ) → v < 0xC000_0000 → walk t.mem a v ≡ none
  pub kernel : (v : ℕ) → 0xC000_0000 ≤ v → v < 0xFFC0_0000 → walk t.mem a v ≡ walk s.mem cr3 v
  pub self_map : t.mem (a + 4 * 1023) ≡ a + 7
  pub current : (v : ℕ) → v < 2 ^ 32 → walk t.mem cr3 v ≡ walk s.mem cr3 v

module _ (cr3 a : ℕ) (p q : Pmm) (m : ℕ → ℕ) (sp : IsSpace p m cr3) (al : Allocated p a q) where
  abbrev new_mem : ℕ → ℕ
  new_mem =
      store_word (copy_words 256 (a + 4 * 768) (cr3 + 4 * 768) (clear_words 1024 a m))
        (a + 4 * 1023) (bit_or a 0x7)

  -- Pages other than the new one are as before.
  elsewhere : (f : ℕ) → IsHeld p f → (j : ℕ) → j < 1024 → new_mem (f + 4 * j) ≡ m (f + 4 * j)
  elsewhere f held j h =
      let (aligned, lt, u) = held in
      let ne = IsHeld-ne f al held in
      let one =
        copy_words-out 256 (a + 4 * 768) (cr3 + 4 * 768) (clear_words 1024 a m) (f + 4 * j)
          (omega (arith, al.aligned)) in
      let two = clear_words-out 1024 a m (f + 4 * j) (omega (arith, al.aligned)) in
      let apart : f + 4 * j ≢ a + 4 * 1023 = omega (arith, al.aligned) in
      rw (ne→== _ _ apart, one, two) refl

  low_entry : (i : ℕ) → i < 768 → new_mem (a + 4 * i) ≡ 0
  low_entry i h =
      let one =
        copy_words-out 256 (a + 4 * 768) (cr3 + 4 * 768) (clear_words 1024 a m) (a + 4 * i)
          (omega arith) in
      let two = clear_words-in 1024 a m (a + 4 * i) (omega arith) (omega arith) (omega arith) in
      let apart : a + 4 * i ≢ a + 4 * 1023 = omega arith in rw (ne→== _ _ apart, one, two) refl

  high_entry : (i : ℕ) → 768 ≤ i → i < 1023 → new_mem (a + 4 * i) ≡ m (cr3 + 4 * i)
  high_entry i le h =
      let (aligned, lt, u) = sp.dir_held in
      let ne = IsHeld-ne cr3 al sp.dir_held in
      let one =
        copy_words-in 256 (a + 4 * 768) (cr3 + 4 * 768) (clear_words 1024 a m) (i - 768)
          (omega (arith, al.aligned)) (omega arith) in
      let at_dest : a + 4 * 768 + 4 * (i - 768) ≡ a + 4 * i = omega arith in
      let at_src : cr3 + 4 * 768 + 4 * (i - 768) ≡ cr3 + 4 * i = omega arith in
      let one' = rw (at_dest, at_src) at one in
      let two = clear_words-out 1024 a m (cr3 + 4 * i) (omega (arith, al.aligned)) in
      let apart : a + 4 * i ≢ a + 4 * 1023 = omega arith in rw (ne→== _ _ apart, one', two) refl

  user_walk : (v : ℕ) → v < 0xC000_0000 → walk new_mem a v ≡ none
  unfolding walk
  user_walk v h = let entry = low_entry (v / 2 ^ 22) (omega arith) in rw entry refl

  kernel_walk : (v : ℕ) → 0xC000_0000 ≤ v → v < 0xFFC0_0000 → walk new_mem a v ≡ walk m cr3 v
  unfolding walk
  kernel_walk v le h =
      let i = v / 2 ^ 22 in
      let entry = high_entry i (omega arith) (omega arith) in
      elim (eq-cases (m (cr3 + 4 * i) % 2) 1) [
        | inl there ↦
            let same =
              elsewhere _ (sp.held i (omega arith) there) (v / 2 ^ 12 % 1024) (omega arith) in
            rw (entry, same) refl
        | inr not_there ↦ let off : m (cr3 + 4 * i) % 2 ≡ 0 = omega arith in rw (entry, off) refl
      ]

  current_walk : (v : ℕ) → v < 2 ^ 32 → walk new_mem cr3 v ≡ walk m cr3 v
  unfolding walk
  current_walk v h =
      let i = v / 2 ^ 22 in
      let entry = elsewhere cr3 sp.dir_held i (omega arith) in
      elim (eq-cases (m (cr3 + 4 * i) % 2) 1) [
        | inl there ↦
            let same =
              elsewhere _ (sp.held i (omega arith) there) (v / 2 ^ 12 % 1024) (omega arith) in
            rw (entry, same) refl
        | inr not_there ↦ let off : m (cr3 + 4 * i) % 2 ≡ 0 = omega arith in rw (entry, off) refl
      ]

-- With a valid directory in `cr3`, `vmm_create_user_directory` makes on a new frame a directory
-- with nothing in the user half, the current mappings in the kernel's part and itself as the last
-- table, and leaves the current address space as it is; or every frame is used and it panics; or the
-- frame lies past the memory that the kernel reaches.
pub vmm_create_user_directory_lem :
    (cr3 : ℕ) (s : Vmm)
    → IsSpace s.pmm s.mem cr3
    → ((a : ℕ) × (t : Vmm) × (vmm_create_user_directory cr3 s ≡ done (a, t)) × Created cr3 s a t)
      ⊎ (((((j : ℕ) → j < s.pmm.total_frames → used s.pmm j ≡ true))
            ⊎ ((a : ℕ) × (q : Pmm) × Allocated s.pmm a q × (s.reach ≤ a)))
          × (vmm_create_user_directory cr3 s ≡ halt))
unfolding vmm_create_user_directory
vmm_create_user_directory_lem cr3 s sp = elim (pmm_alloc_frame_lem s.pmm sp.pmm_valid) [
  | inl (a, q, e, al) ↦ elim (Bool-cases (leb s.reach a)) [
    | inl far ↦ inr (inr (a, q, al, ground arith), rw (e, far) refl)
    | inr near ↦ inl (
      a,
      record s { mem = new_mem cr3 a s.pmm q s.mem sp al; pmm = q },
      rw (e, near) refl,
      record {
        allocated = al;
        user = user_walk cr3 a s.pmm q s.mem sp al;
        kernel = kernel_walk cr3 a s.pmm q s.mem sp al;
        self_map =
            let seven = bit_or-page a 7 (omega (arith, al.aligned)) (omega arith) in ground arith;
        current = current_walk cr3 a s.pmm q s.mem sp al;
      },
    )
  ]
  | inr (all, e) ↦ inr (inl all, rw e refl)
]
