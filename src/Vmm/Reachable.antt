-- ===== src/Vmm/Reachable.antt =====
-- vmm.c: any sequence of calls of `vmm_map_page`.
use os.Base.{ℕ, ◌/◌, ◌%◌, ◌^◌, ◌<◌, ◌≡◌, refl, arith, none, some, inl, inr, eq-cases, ne→==}
use os.Base.Run.{Run, done}
use os.Pmm.{Pmm}
use os.Pmm.Alloc.{Allocated}
use os.Pmm.Owners.{IsHeld-alloc}
use os.Vmm.{Vmm, vmm_map_page}
use os.Vmm.Map.{
  Space, pte_of, Outcome, invalid, double_map, mapped, no_memory, panic, far_table, far_frame,
  Mapped, vmm_map_page_lem,
}
use os.Vmm.Walk.{IsSpace, walk}

-- One call, whatever it answers.
pub data Step : Vmm → Vmm → Type 0 where
  map_page :
      {s : Vmm} (virt phys flags code : ℕ) (t : Vmm)
      → virt < 2 ^ 32
      → phys < 2 ^ 32
      → vmm_map_page virt phys flags s ≡ done (code, t)
      → Step s t

pub data Reach (s : Vmm) : Vmm → Type 0 where
  here : Reach s s
  next : {t u : Vmm} → Reach s t → Step t u → Reach s u

pub record Extends (s t : Vmm) : Type 0 where
  pub valid : Space t
  pub keeps : (v e : ℕ) → v < 2 ^ 32 → pte_of s v ≡ some e → pte_of t v ≡ some e

same-Extends : {s : Vmm} → Space s → Extends s s
same-Extends sp = record { valid = sp; keeps = λ v e lt h. h }

-- An allocation leaves a valid directory valid.
pub IsSpace-alloc :
    {p q : Pmm} {m : ℕ → ℕ} {dir a : ℕ} → IsSpace p m dir → Allocated p a q → IsSpace q m dir
IsSpace-alloc {p} {q} {m} {dir} {a} sp al = record {
  pmm_valid = al.valid;
  dir_held = IsHeld-alloc dir al sp.dir_held;
  word = sp.word;
  held = λ i h e. IsHeld-alloc _ al (sp.held i h e);
  not_dir = sp.not_dir;
  distinct = sp.distinct;
}

Mapped-Extends :
    {virt phys flags : ℕ} {s t : Vmm}
    → virt < 2 ^ 32
    → pte_of s virt ≡ none
    → Mapped virt phys flags s t
    → ((v w : ℕ) → v / 4096 ≡ w / 4096 → pte_of s v ≡ pte_of s w)
    → Extends s t
Mapped-Extends {virt} {phys} {flags} {s} {t} hv absent m local = record {
  valid = m.valid;
  keeps = λ v e lt h. elim (eq-cases (v / 4096) (virt / 4096)) [
    | inl same ↦ cc (local v virt same)
    | inr ne ↦ let maps = m.maps v lt in let maps' = rw (ne→== _ _ ne) at maps in cc
  ];
}

-- The addresses of a page have one entry.
pub walk_local : (s : Vmm) (v w : ℕ) → v / 4096 ≡ w / 4096 → pte_of s v ≡ pte_of s w
unfolding walk
walk_local s v w e =
    let e1 : v / 2 ^ 22 ≡ w / 2 ^ 22 = omega arith in
    let e2 : v / 2 ^ 12 % 1024 ≡ w / 2 ^ 12 % 1024 = omega arith in rw (e1, e2) refl

Outcome-Extends :
    {virt phys flags : ℕ} {s : Vmm} {r : Run (ℕ × Vmm)} {code : ℕ} {t : Vmm}
    → virt < 2 ^ 32
    → Space s
    → Outcome virt phys flags s r
    → r ≡ done (code, t)
    → Extends s t
Outcome-Extends {s = s} {t = t} hv sp (invalid bad) h =
    let e : s ≡ t = cc in rw (← e) (same-Extends sp)
Outcome-Extends {s = s} {t = t} hv sp (double_map e fine there) h =
    let e : s ≡ t = cc in rw (← e) (same-Extends sp)
Outcome-Extends {s = s} {t = t} hv sp (mapped u fine absent m) h =
    let e : u ≡ t = cc in rw (← e) (Mapped-Extends hv absent m (walk_local s))
Outcome-Extends {s = s} {t = t} hv sp (no_memory q fine absent al) h =
    let e : record s { pmm = q } ≡ t = cc in
    rw (← e) (record { valid = IsSpace-alloc sp al; keeps = λ v w lt there. there })
Outcome-Extends hv sp (panic fine absent all) h = cc
Outcome-Extends hv sp (far_table fine there far) h = cc
Outcome-Extends hv sp (far_frame a q fine absent al far) h = cc

pub Step-Extends : {s t : Vmm} → Space s → Step s t → Extends s t
Step-Extends {s} sp (map_page virt phys flags code t hv hp run) =
    Outcome-Extends hv sp (vmm_map_page_lem virt phys flags s sp hv hp) run

-- From a directory whose tables are distinct used frames, after any calls of `vmm_map_page`, the
-- tables are distinct used frames and every translation that there was is still there.
pub Reach-Extends : {s t : Vmm} → Space s → Reach s t → Extends s t
Reach-Extends sp here = same-Extends sp
Reach-Extends sp (next r st) =
    let before = Reach-Extends sp r in
    let after = Step-Extends before.valid st in
    record { valid = after.valid; keeps = λ v e lt h. after.keeps v e lt (before.keeps v e lt h) }
