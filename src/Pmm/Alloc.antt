-- ===== src/Pmm/Alloc.antt =====
-- pmm.c: `pmm_alloc_frame` and `pmm_free_frame` against the set of used frames.
use os.Base.{
  ℕ, zero, suc, ◌+◌, ◌*◌, ◌/◌, ◌^◌, ◌≤◌, ◌<◌, ◌≡◌, refl, true, false, arith, ◌⊎◌, inl, inr, ◌==◌,
  if◌then◌else◌, Bool-cases, eq-cases, Bool, lt-cases,
}
use os.Base.Word.{u32, sub32}
use os.Base.Run.{done, halt}
use os.Pmm.{Pmm, test_frame, unmark_frame, use_frame, alloc_loop, pmm_alloc_frame, pmm_free_frame}
use os.Pmm.Frames.{
  IsValid, test-mark, test-unmark, mark-IsWords, unmark-IsWords, length-mark, length-unmark,
}

-- whether the bit of frame `i` is set
abbrev pub used : Pmm → ℕ → Bool
used p i = test_frame p.frame_bitmap i

-- Taking a frame below `total_frames` keeps the invariant and adds that frame to the used ones.
pub use_frame-IsValid : {p : Pmm} (i : ℕ) → IsValid p → IsValid (use_frame i p)
unfolding use_frame
use_frame-IsValid {p} i v = record {
  enough = omega (arith, length-mark p.frame_bitmap i);
  words = mark-IsWords p.frame_bitmap v.words i;
  fits = v.fits;
}

pub total-use_frame : (i : ℕ) (p : Pmm) → (use_frame i p).total_frames ≡ p.total_frames
unfolding use_frame
total-use_frame i p = refl

pub used-use_frame :
    {p : Pmm} (i : ℕ)
    → IsValid p
    → i < p.total_frames
    → (j : ℕ) → used (use_frame i p) j ≡ (if i == j then true else used p j)
unfolding use_frame
used-use_frame {p} i v h j = test-mark p.frame_bitmap v.words i j (omega arith)

-- The first free frame at `i` or behind it, below `i + n`.
record FirstFree (p : Pmm) (i n k : ℕ) : Type 0 where
  from : i ≤ k
  below : k < i + n
  free : used p k ≡ false
  lowest : (j : ℕ) → i ≤ j → j < k → used p j ≡ true

alloc_loop_cases :
    (n i : ℕ) (p : Pmm)
    → ((k : ℕ) × FirstFree p i n k × (alloc_loop n i p ≡ done (u32 (k * 0x1000), use_frame k p)))
      ⊎ (((j : ℕ) → i ≤ j → j < i + n → used p j ≡ true) × (alloc_loop n i p ≡ halt))
unfolding alloc_loop
alloc_loop_cases zero i p = inr (λ j a b. absurd (omega arith), refl)
alloc_loop_cases (suc n) i p = elim (Bool-cases (used p i)) [
  | inl taken ↦ elim (alloc_loop_cases n (i + 1) p) [
    | inl (k, f, e) ↦ inl (
      k,
      record {
        from = omega (arith, f.from);
        below = omega (arith, f.below);
        free = f.free;
        lowest = λ j a b. elim (eq-cases i j) [
          | inl q ↦ rw (← q) taken
          | inr ne ↦ f.lowest j (omega arith) b
        ];
      },
      rw taken e,
    )
    | inr (all, e) ↦ inr (
      λ j a b. elim (eq-cases i j) [
        | inl q ↦ rw (← q) taken
        | inr ne ↦ all j (omega arith) (omega arith)
      ],
      rw taken e,
    )
  ]
  | inr free ↦ inl (
    i,
    record {
      from = omega arith;
      below = omega arith;
      free = free;
      lowest = λ j a b. absurd (omega arith);
    },
    rw free refl,
  )
]

-- What an allocation hands out.
pub record Allocated (p : Pmm) (addr : ℕ) (q : Pmm) : Type 0 where
  pub aligned : addr ≡ addr / 0x1000 * 0x1000
  pub in_range : addr / 0x1000 < p.total_frames
  pub was_free : used p (addr / 0x1000) ≡ false
  pub lowest : (j : ℕ) → j < addr / 0x1000 → used p j ≡ true
  pub marks : (j : ℕ) → used q j ≡ (if addr / 0x1000 == j then true else used p j)
  pub counts : q.used_frames ≡ u32 (p.used_frames + 1)
  pub total : q.total_frames ≡ p.total_frames
  pub valid : IsValid q

use_frame-Allocated :
    {p : Pmm} (k : ℕ)
    → IsValid p
    → FirstFree p 0 p.total_frames k
    → Allocated p (u32 (k * 0x1000)) (use_frame k p)
unfolding use_frame
use_frame-Allocated {p} k v f =
    let below : k < p.total_frames = omega (arith, f.below) in
    let same : u32 (k * 0x1000) / 0x1000 ≡ k = omega (arith, v.fits) in
    record {
      aligned = omega (arith, v.fits);
      in_range = omega arith;
      was_free = rw same f.free;
      lowest = λ j h. f.lowest j (omega arith) (omega arith);
      marks = λ j. rw same (used-use_frame k v below j);
      counts = refl;
      total = refl;
      valid = use_frame-IsValid k v;
    }

-- On a valid state `pmm_alloc_frame` either hands out the lowest free frame and marks it and no
-- other, or every frame is used and it panics.
pub pmm_alloc_frame_lem :
    (p : Pmm)
    → IsValid p
    → ((a : ℕ) × (q : Pmm) × (pmm_alloc_frame p ≡ done (a, q)) × Allocated p a q)
      ⊎ (((j : ℕ) → j < p.total_frames → used p j ≡ true) × (pmm_alloc_frame p ≡ halt))
unfolding pmm_alloc_frame
pmm_alloc_frame_lem p v = elim (alloc_loop_cases p.total_frames 0 p) [
  | inl (k, f, e) ↦ inl (u32 (k * 0x1000), use_frame k p, e, use_frame-Allocated k v f)
  | inr (all, e) ↦ inr (λ j h. all j (omega arith) (omega arith), e)
]

pub Allocated-of_done :
    {p : Pmm} {a : ℕ} {q : Pmm} → IsValid p → pmm_alloc_frame p ≡ done (a, q) → Allocated p a q
Allocated-of_done {p} {a} {q} v h = elim (pmm_alloc_frame_lem p v) [
  | inl (b, r, e, al) ↦ let eb : b ≡ a = cc in let er : r ≡ q = cc in rw (← eb, ← er) al
  | inr (all, e) ↦ cc
]

-- What freeing a frame does.
pub record Freed (p : Pmm) (addr : ℕ) (q : Pmm) : Type 0 where
  pub clears : (j : ℕ) → used q j ≡ (if addr / 0x1000 == j then false else used p j)
  pub counts : q.used_frames ≡ sub32 p.used_frames 1
  pub total : q.total_frames ≡ p.total_frames
  pub valid : IsValid q

-- On a valid state `pmm_free_frame` either clears the bit of the frame that holds the address and
-- no other, or the address lies past the last frame and it panics.
pub pmm_free_frame_lem :
    (a : ℕ) (p : Pmm)
    → IsValid p
    → ((a / 0x1000 < p.total_frames) × ((q : Pmm) × (pmm_free_frame a p ≡ done q) × Freed p a q))
      ⊎ ((p.total_frames ≤ a / 0x1000) × (pmm_free_frame a p ≡ halt))
unfolding pmm_free_frame
pmm_free_frame_lem a p v = elim (lt-cases (a / 0x1000) p.total_frames) [
  | inl lt ↦ inl (
    lt,
    (
      record p {
        frame_bitmap = unmark_frame p.frame_bitmap (a / 0x1000);
        used_frames = sub32 p.used_frames 1;
      },
      ground arith,
      record {
        clears = λ j. test-unmark p.frame_bitmap v.words (a / 0x1000) j (omega (arith, v.enough));
        counts = refl;
        total = refl;
        valid = record {
          enough = omega (arith, v.enough, length-unmark p.frame_bitmap (a / 0x1000));
          words = unmark-IsWords p.frame_bitmap v.words (a / 0x1000);
          fits = v.fits;
        };
      },
    ),
  )
  | inr le ↦ inr (le, ground arith)
]

pub Freed-of_done : (a : ℕ) {p q : Pmm} → IsValid p → pmm_free_frame a p ≡ done q → Freed p a q
Freed-of_done a {p} {q} v h = elim (pmm_free_frame_lem a p v) [
  | inl (lt, (r, e, f)) ↦ let er : r ≡ q = cc in rw (← er) f
  | inr (le, e) ↦ cc
]

-- Where the same frames are used, the same address is handed out.
pmm_alloc_frame_same :
    {p r : Pmm} {a : ℕ} {q : Pmm}
    → IsValid r
    → r.total_frames ≡ p.total_frames
    → ((j : ℕ) → used r j ≡ used p j)
    → Allocated p a q
    → (s : Pmm) × (pmm_alloc_frame r ≡ done (a, s))
pmm_alloc_frame_same {p} {r} {a} v t same got = elim (pmm_alloc_frame_lem r v) [
  | inl (b, s, e, again) ↦
      let eb : b ≡ a = ground (
        arith,
        same (b / 0x1000),
        same (a / 0x1000),
        got.lowest (b / 0x1000),
        again.lowest (a / 0x1000),
        got.was_free,
        again.was_free,
        got.aligned,
        again.aligned,
      ) in
      (s, rw (← eb) e)
  | inr (all, e) ↦
      absurd (ground (arith, all (a / 0x1000), same (a / 0x1000), got.was_free, got.in_range))
]

-- An allocation followed by freeing the frame gives back the set of used frames and the counter,
-- and the next allocation hands out the same frame again.
pub pmm_free_frame-pmm_alloc_frame :
    {p : Pmm} {a : ℕ} {q : Pmm}
    → IsValid p
    → p.used_frames < 2 ^ 32
    → pmm_alloc_frame p ≡ done (a, q)
    → (r : Pmm) × (pmm_free_frame a q ≡ done r)
      × ((j : ℕ) → used r j ≡ used p j)
      × (r.used_frames ≡ p.used_frames)
      × ((s : Pmm) × (pmm_alloc_frame r ≡ done (a, s)))
pmm_free_frame-pmm_alloc_frame {p} {a} {q} v small h =
    let got = Allocated-of_done v h in
    elim (pmm_free_frame_lem a q got.valid) [
      | inr (le, e) ↦ absurd (omega (arith, got.in_range, got.total))
      | inl (lt, (r, e, f)) ↦
          let same : (j : ℕ) → used r j ≡ used p j =
            λ j. ground (arith, got.marks j, f.clears j, got.was_free) in
          (
            r,
            e,
            same,
            omega (arith, got.counts, f.counts),
            pmm_alloc_frame_same f.valid (omega (arith, f.total, got.total)) same got,
          )
    ]
