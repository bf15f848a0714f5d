-- ===== src/Vmm/Map.antt =====
-- vmm.c: `vmm_map_page` against the walk that the processor makes.
use os.Base.{
  ℕ, ◌+◌, ◌*◌, ◌/◌, ◌%◌, ◌^◌, ◌<◌, ◌≤◌, ◌≢◌, ◌≡◌, refl, Bool, true, false, not, ◌&&◌, ◌||◌, arith,
  Option, none, some, bit_and, ltb, leb, ◌==◌, ◌!=◌, if◌then◌else◌, inl, inr, eq-cases, eq→==,
  ne→==, Bool-cases,
}
use os.Base.Run.{Run, done, halt, ◌>>=◌}
use os.Base.Masks.{bit_and-mod, bit_and-page}
use os.Pmm.{Pmm, pmm_alloc_frame}
use os.Pmm.Alloc.{used, Allocated, pmm_alloc_frame_lem}
use os.Vmm.{Vmm, map_entry, add_table, vmm_map_page}
use os.Vmm.Walk.{entry_of, page_of, walk, IsSpace, entry_for, map_entry-walk, map_entry-IsSpace}
use os.Vmm.Tables.{add_table-walk, add_table_present, add_table-IsSpace}

abbrev pub Space : Vmm → Type 0
Space s = IsSpace s.pmm s.mem s.page_directory

abbrev pub pte_of : Vmm → ℕ → Option ℕ
pte_of s v = walk s.mem s.page_directory v

-- What `vmm_map_page` refuses: the rest of the first page, and physical addresses in the first page.
abbrev pub refused : (virt phys : ℕ) → Bool
refused virt phys = (ltb virt 0x1000 && virt != 0) || ltb phys 0x1000

-- The page of `virt` is mapped to the page of `phys`, and every other translation is as before.
pub record Mapped (virt phys flags : ℕ) (s t : Vmm) : Type 0 where
  pub valid : Space t
  pub maps :
      (v : ℕ)
      → v < 2 ^ 32
      → pte_of t v ≡ (if v / 4096 == virt / 4096 then entry_for phys flags else pte_of s v)

-- The directory has a table for the page, and its address.
abbrev pub has_table : ℕ → Vmm → Bool
has_table virt s = not (entry_of s.mem s.page_directory virt % 2 == 0)

abbrev pub table_of : ℕ → Vmm → ℕ
table_of virt s = page_of (entry_of s.mem s.page_directory virt)

-- What `vmm_map_page` comes to.
pub data Outcome (virt phys flags : ℕ) (s : Vmm) : Run (ℕ × Vmm) → Type 0 where
  invalid : refused virt phys ≡ true → Outcome virt phys flags s (done (2, s))
  double_map :
      (e : ℕ)
      → refused virt phys ≡ false
      → pte_of s virt ≡ some e
      → Outcome virt phys flags s (done (1, s))
  mapped :
      (t : Vmm)
      → refused virt phys ≡ false
      → pte_of s virt ≡ none
      → Mapped virt phys flags s t
      → Outcome virt phys flags s (done (0, t))
  no_memory :
      (q : Pmm)
      → refused virt phys ≡ false
      → has_table virt s ≡ false
      → Allocated s.pmm 0 q
      → Outcome virt phys flags s (done (3, record s { pmm = q }))
  panic :
      refused virt phys ≡ false
      → has_table virt s ≡ false
      → ((j : ℕ) → j < s.pmm.total_frames → used s.pmm j ≡ true)
      → Outcome virt phys flags s halt
  far_table :
      refused virt phys ≡ false
      → has_table virt s ≡ true
      → s.reach ≤ table_of virt s
      → Outcome virt phys flags s halt
  far_frame :
      (a : ℕ) (q : Pmm)
      → refused virt phys ≡ false
      → has_table virt s ≡ false
      → Allocated s.pmm a q
      → s.reach ≤ a
      → Outcome virt phys flags s halt

module _ (virt phys flags : ℕ) (s : Vmm) (sp : Space s) (hv : virt < 2 ^ 32)
    (hp : phys < 2 ^ 32) where
  pde : ℕ
  pde = entry_of s.mem s.page_directory virt

  pte : ℕ
  pte = s.mem (page_of pde + 4 * (virt / 2 ^ 12 % 1024))

  -- The tests of the code, as the processor makes them.
  pde_test : (bit_and pde 1 != 0) ≡ not (pde % 2 == 0)
  pde_test = let mask : bit_and pde 1 ≡ pde % 2 = bit_and-mod 1 pde (omega arith) in ground arith

  pte_test :
      (bit_and (s.mem (bit_and pde 0xFFFF_F000 + 4 * bit_and (virt / 2 ^ 12) 0x3FF)) 1 != 0)
      ≡ not (pte % 2 == 0)
  unfolding pde pte
  pte_test =
      let page : bit_and pde 0xFFFF_F000 ≡ page_of pde =
        bit_and-page pde (sp.word (virt / 2 ^ 22) (omega arith)) in
      let index : bit_and (virt / 2 ^ 12) 0x3FF ≡ virt / 2 ^ 12 % 1024 =
        bit_and-mod 10 (virt / 2 ^ 12) (omega arith) in
      let mask : bit_and pte 1 ≡ pte % 2 = bit_and-mod 1 pte (omega arith) in
      rw (page, index) (ground arith)

  walk_absent : pde % 2 ≡ 0 → pte_of s virt ≡ none
  unfolding pde walk
  walk_absent e = rw e refl

  page_test : bit_and pde 0xFFFF_F000 ≡ page_of pde
  unfolding pde
  page_test = bit_and-page pde (sp.word (virt / 2 ^ 22) (omega arith))

  no_table : pde % 2 ≡ 0 → has_table virt s ≡ false
  unfolding pde
  no_table z = ground arith

  -- The table is there, and in reach.
  in_near_table :
      pde % 2 ≡ 1
      → refused virt phys ≡ false
      → Outcome virt phys flags s
          (if not (pte % 2 == 0) then done (1, s) else done (0, map_entry virt phys flags s))
  unfolding pde pte walk map_entry
  in_near_table present fine = elim (eq-cases (pte % 2) 0) [
    | inl z ↦ rw (eq→== _ _ z) (
        mapped _ fine (rw (present, z) refl) (record {
          valid = map_entry-IsSpace virt phys flags s sp hv hp present;
          maps = map_entry-walk virt phys flags s sp hv hp present;
        }))
    | inr nz ↦ rw (ne→== _ _ nz) (double_map pte fine (rw (present, ne→== _ _ nz) refl))
  ]

  -- The table is there.
  in_table :
      pde % 2 ≡ 1
      → refused virt phys ≡ false
      → Outcome virt phys flags s (
          if leb s.reach (page_of pde)
          then halt
          else if not (pte % 2 == 0)
          then done (1, s)
          else done (0, map_entry virt phys flags s))
  unfolding pde pte walk map_entry
  in_table present fine = elim (Bool-cases (leb s.reach (page_of pde))) [
    | inl far ↦ rw far (far_table fine (ground arith) (ground arith))
    | inr near ↦ rw near (in_near_table present fine)
  ]

  -- The table is made, on the frame `a`.
  new_table :
      (a : ℕ) (q : Pmm)
      → Allocated s.pmm a q
      → pde % 2 ≡ 0
      → Mapped virt phys flags s
          (map_entry virt phys flags (add_table virt a (record s { pmm = q })))
  unfolding pde add_table map_entry
  new_table a q al absent =
      let t = record s { pmm = q } in
      let u = add_table virt a t in
      let spu = add_table-IsSpace virt a s.pmm q t sp al hv absent in
      let here = add_table_present virt a s.pmm q t sp al hv absent in
      record {
        valid = map_entry-IsSpace virt phys flags u spu hv hp here;
        maps = λ v h.
            rw (← add_table-walk virt a s.pmm q t sp al hv absent v h)
              (map_entry-walk virt phys flags u spu hv hp here v h);
      }

  new_entry :
      (a : ℕ) (q : Pmm)
      → refused virt phys ≡ false
      → Allocated s.pmm a q
      → pde % 2 ≡ 0
      → a ≢ 0
      → Outcome virt phys flags s (
          if leb s.reach a
          then halt
          else done (0, map_entry virt phys flags (add_table virt a (record s { pmm = q }))))
  unfolding pde
  new_entry a q fine al absent ne = elim (Bool-cases (leb s.reach a)) [
    | inl far ↦ rw far (far_frame a q fine (ground arith) al (ground arith))
    | inr near ↦ rw near (mapped _ fine (walk_absent absent) (new_table a q al absent))
  ]

  valid_request :
      refused virt phys ≡ false
      → Outcome virt phys flags s (
          if bit_and pde 1 != 0
          then (if leb s.reach (bit_and pde 0xFFFF_F000)
              then halt
              else if bit_and
                    (s.mem (bit_and pde 0xFFFF_F000 + 4 * bit_and (virt / 2 ^ 12) 0x3FF))
                    1
                  != 0
              then done (1, s)
              else done (0, map_entry virt phys flags s))
          else pmm_alloc_frame s.pmm >>= λ r.
              let t = record s { pmm = r.1 } in
              if r.0 == 0
              then done (3, t)
              else if leb s.reach r.0
              then halt
              else done (0, map_entry virt phys flags (add_table virt r.0 t)))
  unfolding pde
  valid_request fine = elim (eq-cases (pde % 2) 0) [
    | inl z ↦ elim (pmm_alloc_frame_lem s.pmm sp.pmm_valid) [
      | inl (a, q, e, al) ↦ elim (eq-cases a 0) [
        | inl zero_frame ↦
            rw (pde_test, eq→== _ _ z, e, eq→== _ _ zero_frame)
              (no_memory q fine (no_table z) (rw zero_frame at al))
        | inr ne ↦ rw (pde_test, eq→== _ _ z, e, ne→== _ _ ne) (new_entry a q fine al z ne)
      ]
      | inr (all, e) ↦ rw (pde_test, eq→== _ _ z, e) (panic fine (no_table z) all)
    ]
    | inr nz ↦ rw (pde_test, pte_test, page_test, ne→== _ _ nz) (in_table (omega arith) fine)
  ]

  -- On a directory whose tables are distinct used frames, with an address and a physical address of 32
  -- bits, `vmm_map_page` refuses an invalid address, or a page that is mapped, both with nothing changed;
  -- or it maps that page and changes no other translation; or the page has no table, and the frame for
  -- one is frame 0, which it takes and reports as no memory, or there is none, and it panics; or the
  -- table, the one that the directory has or the new frame, lies past the memory that the kernel reaches.
  pub vmm_map_page_lem : Outcome virt phys flags s (vmm_map_page virt phys flags s)
  unfolding vmm_map_page pde
  vmm_map_page_lem = elim (Bool-cases (ltb virt 0x1000 && virt != 0)) [
    | inl e ↦ rw e (invalid (ground arith))
    | inr e ↦ elim (Bool-cases (ltb phys 0x1000)) [
      | inl f ↦
          let g : (ltb phys 0x1000 && not (leb 0x100000 phys && ltb phys 0x200000)) ≡ true =
            ground arith in
          rw (e, g) (invalid (ground arith))
      | inr f ↦ rw (e, f) (valid_request (ground arith))
    ]
  ]
