-- ===== src/Vmm/Frames.antt =====
-- vmm.c: the frames that `vmm_map_page` takes, and none that it gives back.
use os.Base.{
  ℕ, ◌+◌, ◌*◌, ◌≡◌, refl, ◌⊎◌, true, not, ◌&&◌, arith, bit_and, ltb, leb, ◌==◌, ◌!=◌, if◌then◌else◌,
  Bool-cases, inl, inr,
}
use os.Base.Word.{not32}
use os.Base.Run.{done, halt, Ends, Ends-bind, Ends-mono, Run-cases}
use os.Pmm.{Pmm, pmm_alloc_frame}
use os.Pmm.Frames.{IsValid}
use os.Pmm.Alloc.{used, Allocated, Allocated-of_done}
use os.Vmm.{Vmm, vmm_map_page, map_entry, add_table, page_present, page_dir_index, page_table_index}

-- Every frame that `p` uses is used in `q`.
abbrev pub StaysUsed : Pmm → Pmm → Type 0
StaysUsed p q = (j : ℕ) → used p j ≡ true → used q j ≡ true

pub alloc-StaysUsed : {p q : Pmm} {a : ℕ} → Allocated p a q → StaysUsed p q
alloc-StaysUsed al j h = ground (arith, al.marks j)

pub pmm_alloc_frame-Ends :
    (p : Pmm) → IsValid p → Ends (λ r. Allocated p r.0 r.1) (pmm_alloc_frame p)
pmm_alloc_frame-Ends p v = elim (Run-cases (pmm_alloc_frame p)) [
  | inl stuck ↦ rw stuck tt
  | inr (r, e) ↦ rw e (Allocated-of_done v e)
]

-- At most one frame is taken.
abbrev pub TakesOne : Pmm → Pmm → Type 0
TakesOne p q = (q ≡ p) ⊎ ((a : ℕ) × Allocated p a q)

-- A new table takes one frame, or none is left but frame 0.
new_table_frames :
    (virt phys flags a : ℕ) (q : Pmm) (s : Vmm)
    → Allocated s.pmm a q
    → Ends {A = ℕ × Vmm}
        (λ r. TakesOne s.pmm r.1.pmm)
        (let t = record s { pmm = q } in
          if a == 0
          then done (3, t)
          else if leb s.reach a
          then halt
          else done (0, map_entry virt phys flags (add_table virt a t)))
unfolding map_entry add_table
new_table_frames virt phys flags a q s al = elim (Bool-cases (a == 0)) [
  | inl z ↦ rw z (inr (a, al))
  | inr nz ↦ elim (Bool-cases (leb s.reach a)) [
    | inl far ↦ rw (nz, far) tt
    | inr near ↦ rw (nz, near) (inr (a, al))
  ]
]

pub vmm_map_page-TakesOne :
    (virt phys flags : ℕ) (s : Vmm)
    → IsValid s.pmm
    → Ends (λ r. TakesOne s.pmm r.1.pmm) (vmm_map_page virt phys flags s)
unfolding vmm_map_page map_entry
vmm_map_page-TakesOne virt phys flags s v =
    let pde = s.mem (s.page_directory + 4 * page_dir_index virt) in
    let page_table = bit_and pde (not32 0xFFF) in
    elim (Bool-cases (ltb virt 0x1000 && virt != 0)) [
      | inl e ↦ rw e (inl refl)
      | inr e ↦
          elim (Bool-cases (ltb phys 0x1000 && not (leb 0x100000 phys && ltb phys 0x200000))) [
            | inl f ↦ rw (e, f) (inl refl)
            | inr f ↦ elim (Bool-cases (bit_and pde page_present != 0)) [
              | inl g ↦ elim (Bool-cases (leb s.reach page_table)) [
                | inl far ↦ rw (e, f, g, far) tt
                | inr near ↦
                    elim (Bool-cases (
                      bit_and (s.mem (page_table + 4 * page_table_index virt)) page_present != 0)) [
                        | inl k ↦ rw (e, f, g, near, k) (inl refl)
                        | inr k ↦ rw (e, f, g, near, k) (inl refl)
                      ]
              ]
              | inr g ↦
                  rw (e, f, g)
                    (Ends-bind (λ r. Allocated s.pmm r.0 r.1) (λ r. TakesOne s.pmm r.1.pmm)
                      (pmm_alloc_frame s.pmm) _ (pmm_alloc_frame-Ends s.pmm v)
                      (λ r al. new_table_frames virt phys flags r.0 r.1 s al))
            ]
          ]
    ]

TakesOne-StaysUsed : {p q : Pmm} → TakesOne p q → StaysUsed p q
TakesOne-StaysUsed (inl same) j h = rw same h
TakesOne-StaysUsed (inr (a, al)) j h = alloc-StaysUsed al j h

pub vmm_map_page-StaysUsed :
    (virt phys flags : ℕ) (s : Vmm)
    → IsValid s.pmm
    → Ends (λ r. StaysUsed s.pmm r.1.pmm) (vmm_map_page virt phys flags s)
vmm_map_page-StaysUsed virt phys flags s v =
    Ends-mono (λ r. TakesOne s.pmm r.1.pmm) (λ r. StaysUsed s.pmm r.1.pmm)
      (vmm_map_page virt phys flags s) (vmm_map_page-TakesOne virt phys flags s v)
      (λ r t. TakesOne-StaysUsed t)
