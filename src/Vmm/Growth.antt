-- ===== src/Vmm/Growth.antt =====
-- vmm.c: an address space that pages and frames are added to, by the kernel or by the loader.
use os.Base.{
  ℕ, zero, suc, ◌/◌, ◌%◌, ◌^◌, ◌<◌, ◌≤◌, ◌≡◌, ◌≢◌, true, arith, none, Option-cases, lt-cases, inl,
  inr,
}
use os.Base.Run.{Run, ◌>>=◌, Ends, Ends-bind, Ends-of_done, Ends-mono, Run-cases}
use os.Pmm.{Pmm, pmm_alloc_frame}
use os.Pmm.Alloc.{used, Allocated}
use os.Vmm.{Vmm, vmm_map_page}
use os.Vmm.Map.{
  Space, pte_of, Outcome, invalid, double_map, mapped, no_memory, panic, far_table, far_frame,
  vmm_map_page_lem,
}
use os.Vmm.Walk.{entry_for}
use os.Vmm.Frames.{StaysUsed, alloc-StaysUsed, pmm_alloc_frame-Ends, vmm_map_page-StaysUsed}
use os.Vmm.Reachable.{Extends, map_page, IsSpace-alloc, Step-Extends}

-- From `s` to `t` pages were mapped and frames taken, and nothing was given back.
pub record Grown (s t : Vmm) : Type 0 where
  pub extends : Extends s t
  pub frames : StaysUsed s.pmm t.pmm

pub Grown-refl : {s : Vmm} → Space s → Grown s s
Grown-refl sp = record { extends = record { valid = sp; keeps = λ v e lt h. h }; frames = λ j h. h }

pub Grown-trans : {s t u : Vmm} → Grown s t → Grown t u → Grown s u
Grown-trans g h = record {
  extends = record {
    valid = h.extends.valid;
    keeps = λ v e lt there. h.extends.keeps v e lt (g.extends.keeps v e lt there);
  };
  frames = λ j u. h.frames j (g.frames j u);
}

-- The frame for a page is taken.
alloc-Grown :
    {s : Vmm} {a : ℕ} {q : Pmm} → Space s → Allocated s.pmm a q → Grown s (record s { pmm = q })
alloc-Grown sp al = record {
  extends = record { valid = IsSpace-alloc sp al; keeps = λ v e lt there. there };
  frames = alloc-StaysUsed al;
}

abbrev pub IsMapped : Vmm → ℕ → Type 0
IsMapped s v = pte_of s v ≢ none

pub IsMapped-Grown : {s t : Vmm} (v : ℕ) → v < 2 ^ 32 → Grown s t → IsMapped s v → IsMapped t v
IsMapped-Grown {s} v lt g h gone = elim (Option-cases (pte_of s v)) [
  | inl absent ↦ h absent
  | inr (e, there) ↦ cc (g.extends.keeps v e lt there)
]

-- The directory stays valid with all that it had, and a page past the first one is mapped, if frame
-- 0 is in use.
abbrev pub Maps : ℕ → Vmm → Vmm → Type 0
Maps virt s t = Grown s t × (4096 ≤ virt → used s.pmm 0 ≡ true → IsMapped t virt)

module _ (flags : ℕ) (odd : flags % 2 ≡ 1) where
  Outcome-IsMapped :
      {virt phys : ℕ} {s : Vmm} {r : Run (ℕ × Vmm)}
      → Outcome virt phys flags s r
      → 4096 ≤ phys
      → virt < 2 ^ 32
      → used s.pmm 0 ≡ true
      → Ends (λ r. 4096 ≤ virt → IsMapped r.1 virt) r
  unfolding entry_for
  Outcome-IsMapped (invalid bad) hp lt zero_used = λ hv. absurd (ground arith)
  Outcome-IsMapped (double_map e fine there) hp lt zero_used = λ hv none_there. cc
  Outcome-IsMapped {virt} (mapped u fine absent m) hp lt zero_used =
      λ hv none_there. ground (arith, m.maps virt lt)
  Outcome-IsMapped (no_memory q fine absent al) hp lt zero_used = λ hv none_there. cc al.was_free
  Outcome-IsMapped (panic fine absent all) hp lt zero_used = tt
  Outcome-IsMapped (far_table fine there far) hp lt zero_used = tt
  Outcome-IsMapped (far_frame a q fine absent al far) hp lt zero_used = tt

  -- One page is mapped to a frame that is past the first one.
  pub vmm_map_page-Maps :
      (virt phys : ℕ) (s : Vmm)
      → Space s
      → virt < 2 ^ 32
      → phys < 2 ^ 32
      → Ends
          (λ r. Grown s r.1 × (4096 ≤ phys → 4096 ≤ virt → used s.pmm 0 ≡ true → IsMapped r.1 virt))
          (vmm_map_page virt phys flags s)
  vmm_map_page-Maps virt phys s sp hv hp =
      let stays = vmm_map_page-StaysUsed virt phys flags s sp.pmm_valid in
      elim (Run-cases (vmm_map_page virt phys flags s)) [
        | inl stuck ↦ rw stuck tt
        | inr ((code, t), e) ↦
            let step = Step-Extends sp (map_page virt phys flags code t hv hp e) in
            let stays' = rw e at stays in
            let here = λ (hf : 4096 ≤ phys) (lt : 4096 ≤ virt) (zero_used : used s.pmm 0 ≡ true).
              Ends-of_done (λ r. 4096 ≤ virt → IsMapped r.1 virt)
                (Outcome-IsMapped (vmm_map_page_lem virt phys flags s sp hv hp) hf hv zero_used) e
                lt in
            rw e (record { extends = step; frames = stays' }, here)
      ]

  frame-ne-zero : {p q : Pmm} {a : ℕ} → Allocated p a q → used p 0 ≡ true → 4096 ≤ a
  frame-ne-zero {p} {a = a} al zero_used = elim (lt-cases a 4096) [
    | inl lt ↦ let first : a / 4096 ≡ 0 = omega arith in let free = rw first at al.was_free in cc
    | inr ge ↦ ge
  ]

  -- The same with a frame that was just allocated.
  pub new_page-Maps :
      (virt a : ℕ) (q : Pmm) (s : Vmm)
      → Space s
      → virt < 2 ^ 32
      → Allocated s.pmm a q
      → Ends (λ r. Maps virt s r.1) (vmm_map_page virt a flags (record s { pmm = q }))
  new_page-Maps virt a q s sp hv al =
      let s' = record s { pmm = q } in
      let ha : a < 2 ^ 32 = omega (arith, al.in_range, sp.pmm_valid.fits) in
      Ends-mono _ (λ r. Maps virt s r.1) (vmm_map_page virt a flags s')
        (vmm_map_page-Maps virt a s' (IsSpace-alloc sp al) hv ha)
        (λ r m. (
          Grown-trans (alloc-Grown sp al) (m.0),
          λ lt zero_used. m.1 (frame-ne-zero al zero_used) lt (alloc-StaysUsed al 0 zero_used),
        ))

-- The pages at the first addresses of a sequence are mapped.
pub record AllMapped (v : ℕ → ℕ) (rounds : ℕ) (s t : Vmm) : Type 0 where
  pub grown : Grown s t
  pub there : (k : ℕ) → k < rounds → 4096 ≤ v k → used s.pmm 0 ≡ true → IsMapped t (v k)

pub AllMapped-zero : (v : ℕ → ℕ) (s : Vmm) → Space s → AllMapped v 0 s s
AllMapped-zero v s sp = record { grown = Grown-refl sp; there = λ k lt. absurd (omega arith) }

AllMapped-suc :
    {s t u : Vmm} (v w : ℕ → ℕ) (a rounds : ℕ)
    → a < 2 ^ 32
    → v 0 ≡ a
    → ((k : ℕ) → v (suc k) ≡ w k)
    → Maps a s t
    → AllMapped w rounds t u
    → AllMapped v (suc rounds) s u
AllMapped-suc {s} {t} {u} v w a rounds hv start next (g, first) m = record {
  grown = Grown-trans g m.grown;
  there = each;
}
  where
    each : (k : ℕ) → k < suc rounds → 4096 ≤ v k → used s.pmm 0 ≡ true → IsMapped u (v k)
    each zero lt le zero_used =
        let le' = rw start at le in rw start (IsMapped-Grown a hv m.grown (first le' zero_used))
    each (suc k) lt le zero_used =
        let le' = rw (next k) at le in
        rw (next k) (m.there k (omega arith) le' (g.frames 0 zero_used))

-- A round of a loop that maps the first page, and goes on with `rest`.
module _ (flags : ℕ) (odd : flags % 2 ≡ 1) (v w : ℕ → ℕ) (a rounds : ℕ) (hv : a < 2 ^ 32)
    (start : v 0 ≡ a) (next : (k : ℕ) → v (suc k) ≡ w k) (rest : Vmm → Run Vmm)
    (after : (t : Vmm) → Space t → Ends (AllMapped w rounds t) (rest t)) (s : Vmm)
    (sp : Space s) where
  round-AllMapped :
      (m : Run (ℕ × Vmm))
      → Ends (λ r. Maps a s r.1) m
      → Ends (AllMapped v (suc rounds) s) (m >>= λ r. rest r.1)
  round-AllMapped m h =
      Ends-bind (λ r. Maps a s r.1) (AllMapped v (suc rounds) s) m (λ r. rest r.1) h
        (λ r here.
          Ends-mono (AllMapped w rounds r.1) (AllMapped v (suc rounds) s) (rest r.1)
            (after r.1 here.0.extends.valid)
            (λ u all. AllMapped-suc v w a rounds hv start next here all))

  -- To a frame that is allocated for it.
  pub new_page-AllMapped : Ends (AllMapped v (suc rounds) s) (
      pmm_alloc_frame s.pmm >>= λ frame.
      vmm_map_page a frame.0 flags (record s { pmm = frame.1 }) >>= λ r. rest r.1)
  new_page-AllMapped =
      Ends-bind (λ r. Allocated s.pmm r.0 r.1) (AllMapped v (suc rounds) s) (pmm_alloc_frame s.pmm)
        _ (pmm_alloc_frame-Ends s.pmm sp.pmm_valid)
        (λ frame al.
          round-AllMapped (vmm_map_page a frame.0 flags (record s { pmm = frame.1 }))
            (new_page-Maps flags odd a frame.0 frame.1 s sp hv al))

  -- To the frame of the same address.
  pub same_page-AllMapped :
      Ends (AllMapped v (suc rounds) s) (vmm_map_page a a flags s >>= λ r. rest r.1)
  same_page-AllMapped = round-AllMapped (vmm_map_page a a flags s) (
      Ends-mono _ (λ r. Maps a s r.1) (vmm_map_page a a flags s)
        (vmm_map_page-Maps flags odd a a s sp hv hv) (λ r m. (m.0, λ le. m.1 le le)))
