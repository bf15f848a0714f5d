-- ===== src/Pmm/Init.antt =====
-- pmm.c: which frames `pmm_init` leaves used.
use os.Base.{
  ℕ, zero, suc, ◌+◌, ◌-◌, ◌*◌, ◌^◌, ◌≤◌, ◌<◌, ◌≡◌, refl, ◌∙◌, Bool, true, false, ◌&&◌, ◌||◌, List,
  arith, inl, inr, ltb, leb, ◌==◌, if◌then◌else◌, length, lt-cases, max, Bool-cases,
}
use os.Pmm.{
  Pmm, MmapEntry, test_frame, unmark_frame, clear_range, start_frame, end_frame, free_entry,
  free_entries, mark_range,
}
use os.Pmm.Frames.{IsWords, IsValid, test-unmark, unmark-IsWords, length-unmark}
use os.Pmm.Alloc.{used, use_frame-IsValid, used-use_frame, total-use_frame}

-- `a ≤ j < b`
abbrev pub within : ℕ → ℕ → ℕ → Bool
within a b j = leb a j && ltb j b

clear_range-IsWords : (n i : ℕ) (m : List ℕ) → IsWords m → IsWords (clear_range n i m)
unfolding clear_range
clear_range-IsWords zero i m w = w
clear_range-IsWords (suc n) i m w =
    clear_range-IsWords n (i + 1) (unmark_frame m i) (unmark-IsWords m w i)

length-clear_range : (n i : ℕ) (m : List ℕ) → length (clear_range n i m) ≡ length m
unfolding clear_range
length-clear_range zero i m = refl
length-clear_range (suc n) i m = length-clear_range n (i + 1) (unmark_frame m i) ∙ length-unmark m i

test-clear_range :
    (n i : ℕ) (m : List ℕ) (j : ℕ)
    → IsWords m
    → i + n ≤ max i (32 * length m)
    → test_frame (clear_range n i m) j ≡ (if within i (i + n) j then false else test_frame m j)
unfolding clear_range
test-clear_range zero i m j w h = ground arith
test-clear_range (suc n) i m j w h = ground (
  arith,
  test-clear_range n (i + 1) (unmark_frame m i) j (unmark-IsWords m w i)
      (omega (arith, length-unmark m i)),
  test-unmark m w i j (omega arith),
)

-- The whole frame `j` lies in the region that the entry describes.
abbrev pub lies_in : MmapEntry → ℕ → Bool
lies_in e j = leb e.addr (j * 0x1000) && leb ((j + 1) * 0x1000) (e.addr + e.len)

abbrev pub is_available : MmapEntry → Bool
is_available e = e.kind == 1

-- The region ends a page below 16 TiB, so that its frame numbers are `uint32_t`s.
abbrev pub IsSmall : MmapEntry → Type 0
IsSmall e = e.addr + e.len + 0xFFF < 2 ^ 44

test-free_entry :
    (total : ℕ) (e : MmapEntry) (m : List ℕ) (j : ℕ)
    → IsWords m
    → total ≤ 32 * length m
    → IsSmall e
    → j < total
    → test_frame (free_entry total e m) j
      ≡ (if is_available e && lies_in e j then false else test_frame m j)
unfolding free_entry
test-free_entry total e m j w h small lt = elim (lt-cases total (end_frame e)) [
  | inl far ↦
      ground (arith, test-clear_range (total - start_frame e) (start_frame e) m j w (omega arith))
  | inr near ↦
      ground
        (arith, test-clear_range (end_frame e - start_frame e) (start_frame e) m j w (omega arith))
]

free_entry-IsWords :
    (total : ℕ) (e : MmapEntry) (m : List ℕ) → IsWords m → IsWords (free_entry total e m)
unfolding free_entry
free_entry-IsWords total e m w = elim (Bool-cases (e.kind == 1)) [
  | inl hit ↦ rw hit (clear_range-IsWords _ (start_frame e) m w)
  | inr miss ↦ rw miss w
]

length-free_entry :
    (total : ℕ) (e : MmapEntry) (m : List ℕ) → length (free_entry total e m) ≡ length m
unfolding free_entry
length-free_entry total e m = elim (Bool-cases (e.kind == 1)) [
  | inl hit ↦ rw hit (length-clear_range _ (start_frame e) m)
  | inr miss ↦ rw miss
]

-- Frame `j` lies whole in an available region, one of the `rounds` from `offset` on.
unfoldable pub in_available : (rounds offset : ℕ) → (ℕ → MmapEntry) → ℕ → Bool
in_available zero offset entry_at j = false
in_available (suc rounds) offset entry_at j =
    is_available (entry_at offset) && lies_in (entry_at offset) j
    || in_available rounds (offset + 24) entry_at j

module _ (total : ℕ) (entry_at : ℕ → MmapEntry) where
  pub free_entries-IsWords :
      (n o : ℕ) (m : List ℕ) → IsWords m → IsWords (free_entries total n o entry_at m)
  unfolding free_entries
  free_entries-IsWords zero o m w = w
  free_entries-IsWords (suc n) o m w =
      free_entries-IsWords n (o + 24) (free_entry total (entry_at o) m)
        (free_entry-IsWords total (entry_at o) m w)

  pub length-free_entries :
      (n o : ℕ) (m : List ℕ) → length (free_entries total n o entry_at m) ≡ length m
  unfolding free_entries
  length-free_entries zero o m = refl
  length-free_entries (suc n) o m =
      length-free_entries n (o + 24) (free_entry total (entry_at o) m)
      ∙ length-free_entry total (entry_at o) m

  pub test-free_entries :
      ((o : ℕ) → IsSmall (entry_at o))
      → (n o : ℕ) (m : List ℕ) (j : ℕ) → IsWords m
      → total ≤ 32 * length m
      → j < total
      → test_frame (free_entries total n o entry_at m) j
        ≡ (if in_available n o entry_at j then false else test_frame m j)
  unfolding free_entries in_available
  test-free_entries small zero o m j w h lt = refl
  test-free_entries small (suc n) o m j w h lt = ground (
    arith,
    test-free_entries small n (o + 24) (free_entry total (entry_at o) m) j
        (free_entry-IsWords total (entry_at o) m w)
        (omega (arith, length-free_entry total (entry_at o) m)) lt,
    test-free_entry total (entry_at o) m j w h (small o) lt,
  )

-- The kernel's frames.
pub mark_range-IsValid : (n i : ℕ) {p : Pmm} → IsValid p → IsValid (mark_range n i p)
unfolding mark_range
mark_range-IsValid zero i v = v
mark_range-IsValid (suc n) i v = mark_range-IsValid n (i + 1) (use_frame-IsValid i v)

pub used-mark_range :
    (n i : ℕ) {p : Pmm} (j : ℕ)
    → IsValid p
    → i + n ≤ max i p.total_frames
    → used (mark_range n i p) j ≡ (if within i (i + n) j then true else used p j)
unfolding mark_range
used-mark_range zero i j v h = ground arith
used-mark_range (suc n) i {p} j v h = ground (
  arith,
  used-mark_range n (i + 1) j (use_frame-IsValid i v) (omega (arith, total-use_frame i p)),
  used-use_frame i v (omega arith) j,
)
