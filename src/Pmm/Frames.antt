-- ===== src/Pmm/Frames.antt =====
-- pmm.c: the frame bitmap as a set of used frames, and the invariant of the allocator.
use os.Base.{
  ℕ, ◌*◌, ◌/◌, ◌%◌, ◌^◌, ◌≤◌, ◌<◌, ◌≡◌, ◌∙◌, true, false, List, arith, ◌⊎◌, inl, inr, ◌==◌,
  if◌then◌else◌, length, get_or, set, length-set, get_or-set_self, get_or-set_ne, get_or-past,
  eq-cases, lt-cases, sym,
}
use os.Base.Word.{
  set_flag, clear_flag, set_flag-lt, clear_flag-lt, has_flag-set_flag, has_flag-clear_flag,
}
use os.Pmm.{Pmm, test_frame, mark_frame, unmark_frame}

-- every element of the bitmap is a `uint32_t`
abbrev pub IsWords : List ℕ → Type 0
IsWords m = (i : ℕ) → get_or m i 0 < 2 ^ 32

pub record IsValid (p : Pmm) : Type 0 where
  pub enough : p.total_frames ≤ 32 * length p.frame_bitmap
  pub words : IsWords p.frame_bitmap
  pub fits : p.total_frames ≤ 2 ^ 20

get_or-set_cases :
    (m : List ℕ) (i j v : ℕ)
    → (get_or (set m i v) j 0 ≡ v) ⊎ (get_or (set m i v) j 0 ≡ get_or m j 0)
get_or-set_cases m i j v = elim (eq-cases i j) [
  | inl e ↦ elim (lt-cases i (length m)) [
    | inl lt ↦ inl (rw (← e) (get_or-set_self m i v 0 lt))
    | inr le ↦ inr (
        get_or-past (set m i v) j 0 (omega (arith, length-set m i v))
        ∙ sym (get_or-past m j 0 (omega arith)))
  ]
  | inr ne ↦ inr (get_or-set_ne m i j v 0 ne)
]

pub IsWords-set : (m : List ℕ) (i v : ℕ) → IsWords m → v < 2 ^ 32 → IsWords (set m i v)
IsWords-set m i v h hv j = elim (get_or-set_cases m i j v) [
  | inl e ↦ omega arith
  | inr e ↦ omega (arith, h j)
]

module _ (m : List ℕ) (words : IsWords m) (i : ℕ) where
  pub mark-IsWords : IsWords (mark_frame m i)
  unfolding mark_frame
  mark-IsWords =
      IsWords-set m (i / 32) _ words (set_flag-lt _ (i % 32) (words (i / 32)) (omega arith))

  pub unmark-IsWords : IsWords (unmark_frame m i)
  unfolding unmark_frame
  unmark-IsWords = IsWords-set m (i / 32) _ words (clear_flag-lt _ (i % 32) (words (i / 32)))

  -- Marking a frame adds it to the set and no other.
  pub test-mark :
      (j : ℕ)
      → i < 32 * length m
      → test_frame (mark_frame m i) j ≡ (if i == j then true else test_frame m j)
  unfolding test_frame mark_frame
  test-mark j h = elim (eq-cases (i / 32) (j / 32)) [
    | inl e ↦ ground (
      arith,
      get_or-set_self m (i / 32) (set_flag (get_or m (i / 32) 0) (i % 32)) 0,
      has_flag-set_flag (get_or m (i / 32) 0) (i % 32) (j % 32),
      words (i / 32),
    )
    | inr ne ↦
        ground
          (arith, get_or-set_ne m (i / 32) (j / 32) (set_flag (get_or m (i / 32) 0) (i % 32)) 0 ne)
  ]

  -- Unmarking a frame takes it from the set and no other.
  pub test-unmark :
      (j : ℕ)
      → i < 32 * length m
      → test_frame (unmark_frame m i) j ≡ (if i == j then false else test_frame m j)
  unfolding test_frame unmark_frame
  test-unmark j h = elim (eq-cases (i / 32) (j / 32)) [
    | inl e ↦ ground (
      arith,
      get_or-set_self m (i / 32) (clear_flag (get_or m (i / 32) 0) (i % 32)) 0,
      has_flag-clear_flag (get_or m (i / 32) 0) (i % 32) (j % 32),
      words (i / 32),
    )
    | inr ne ↦
        ground (
          arith,
          get_or-set_ne m (i / 32) (j / 32) (clear_flag (get_or m (i / 32) 0) (i % 32)) 0 ne,
        )
  ]

pub length-mark : (m : List ℕ) (i : ℕ) → length (mark_frame m i) ≡ length m
unfolding mark_frame
length-mark m i = length-set m (i / 32) _

pub length-unmark : (m : List ℕ) (i : ℕ) → length (unmark_frame m i) ≡ length m
unfolding unmark_frame
length-unmark m i = length-set m (i / 32) _
