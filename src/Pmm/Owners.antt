-- ===== src/Pmm/Owners.antt =====
-- pmm.c: a client that allocates frames and frees frames that it holds, in any order.
use os.Base.{
  ℕ, ◌*◌, ◌/◌, ◌<◌, ◌≡◌, ◌≢◌, refl, Bool, true, false, List, [], ◌∷◌, arith, inl, inr, ◌==◌, ◌||◌,
  if◌then◌else◌, eq-cases, eq→==, ne→==,
}
use os.Base.Run.{done}
use os.Pmm.{Pmm, pmm_alloc_frame, pmm_free_frame}
use os.Pmm.Frames.{IsValid}
use os.Pmm.Alloc.{used, Allocated, Allocated-of_done, Freed, Freed-of_done}

abbrev pub has : ℕ → List ℕ → Bool
has a [] = false
has a (x ∷ xs) = (x == a) || has a xs

abbrev pub remove : ℕ → List ℕ → List ℕ
remove a [] = []
remove a (x ∷ xs) = if x == a then xs else x ∷ remove a xs

-- The allocator and the addresses that the client holds.
pub record Client : Type 0 where
  pub pmm : Pmm
  pub held : List ℕ

pub data Step : Client → Client → Type 0 where
  alloc :
      {c : Client} (a : ℕ) (q : Pmm)
      → pmm_alloc_frame c.pmm ≡ done (a, q)
      → Step c (record { pmm = q; held = a ∷ c.held })
  free :
      {c : Client} (a : ℕ) (q : Pmm)
      → has a c.held ≡ true
      → pmm_free_frame a c.pmm ≡ done q
      → Step c (record { pmm = q; held = remove a c.held })

pub data Reach (s : Client) : Client → Type 0 where
  here : Reach s s
  next : {t u : Client} → Reach s t → Step t u → Reach s u

-- `a` is the address of a frame of memory that is marked as used.
abbrev pub IsHeld : Pmm → ℕ → Type 0
IsHeld p a =
    (a ≡ a / 0x1000 * 0x1000) × (a / 0x1000 < p.total_frames) × (used p (a / 0x1000) ≡ true)

-- An allocation keeps every held frame, and hands out one that was not held.
pub IsHeld-alloc : {p q : Pmm} {a : ℕ} (f : ℕ) → Allocated p a q → IsHeld p f → IsHeld q f
IsHeld-alloc f al (aligned, lt, u) =
    (aligned, omega (arith, al.total), ground (arith, al.marks (f / 0x1000)))

pub IsHeld-ne : {p q : Pmm} {a : ℕ} (f : ℕ) → Allocated p a q → IsHeld p f → f ≢ a
IsHeld-ne f al (aligned, lt, u) e = let u' = rw e at u in cc al.was_free

-- The addresses are pairwise distinct, and each is held.
abbrev pub Owns : Pmm → List ℕ → Type 0
Owns p [] = Unit
Owns p (a ∷ xs) = IsHeld p a × (has a xs ≡ false) × Owns p xs

Owns-mono :
    (p q : Pmm) (xs : List ℕ)
    → q.total_frames ≡ p.total_frames
    → ((j : ℕ) → used p j ≡ true → used q j ≡ true)
    → Owns p xs
    → Owns q xs
Owns-mono p q [] t up o = tt
Owns-mono p q (x ∷ xs) t up ((al, lt, u), new, o) =
    ((al, omega arith, up (x / 0x1000) u), new, Owns-mono p q xs t up o)

-- An address that is not marked is not among the held ones.
not-has_of_free :
    (p : Pmm) (a : ℕ) (xs : List ℕ) → used p (a / 0x1000) ≡ false → Owns p xs → has a xs ≡ false
not-has_of_free p a [] f o = refl
not-has_of_free p a (x ∷ xs) f ((al, lt, u), new, o) = elim (eq-cases x a) [
  | inl e ↦ let u' = rw e at u in cc
  | inr ne ↦ ground (arith, not-has_of_free p a xs f o)
]

has-remove : (a b : ℕ) (xs : List ℕ) → has b xs ≡ false → has b (remove a xs) ≡ false
has-remove a b [] h = refl
has-remove a b (x ∷ xs) h = ground (arith, has-remove a b xs)

Owns-free :
    {p q : Pmm} (a : ℕ) (xs : List ℕ)
    → a ≡ a / 0x1000 * 0x1000
    → Freed p a q
    → has a xs ≡ false
    → Owns p xs
    → Owns q xs
Owns-free a [] al f out o = tt
Owns-free a (x ∷ xs) al f out ((alx, lt, u), new, o) =
    let ne : a / 0x1000 ≢ x / 0x1000 = ground arith in
    (
      (alx, omega (arith, f.total), ground (arith, f.clears (x / 0x1000))),
      new,
      Owns-free a xs al f (ground arith) o,
    )

has-aligned :
    (p : Pmm) (a : ℕ) (xs : List ℕ) → Owns p xs → has a xs ≡ true → a ≡ a / 0x1000 * 0x1000
has-aligned p a [] o h = cc
has-aligned p a (x ∷ xs) ((al, lt, u), new, o) h = elim (eq-cases x a) [
  | inl e ↦ rw e at al
  | inr ne ↦ has-aligned p a xs o (ground arith)
]

Owns-remove :
    {p q : Pmm} (a : ℕ) (xs : List ℕ)
    → a ≡ a / 0x1000 * 0x1000
    → Freed p a q
    → Owns p xs
    → Owns q (remove a xs)
Owns-remove a [] al f o = tt
Owns-remove a (x ∷ xs) al f ((alx, lt, u), new, o) = elim (eq-cases x a) [
  | inl e ↦ rw (eq→== x a e) (Owns-free a xs al f (rw e at new) o)
  | inr ne ↦
      let ne' : a / 0x1000 ≢ x / 0x1000 = omega arith in
      rw (ne→== x a ne) (
        (alx, omega (arith, f.total), ground (arith, f.clears (x / 0x1000))),
        has-remove a x xs new,
        Owns-remove a xs al f o,
      )
]

pub record IsExclusive (c : Client) : Type 0 where
  pub valid : IsValid c.pmm
  pub owns : Owns c.pmm c.held

Step-IsExclusive : {c d : Client} → Step c d → IsExclusive c → IsExclusive d
Step-IsExclusive {c} (alloc a q e) s =
    let got = Allocated-of_done s.valid e in
    record {
      valid = got.valid;
      owns = (
        (
          got.aligned,
          omega (arith, got.in_range, got.total),
          ground (arith, got.marks (a / 0x1000)),
        ),
        not-has_of_free c.pmm a c.held got.was_free s.owns,
        Owns-mono c.pmm q c.held got.total (λ j u. ground (arith, got.marks j)) s.owns,
      );
    }
Step-IsExclusive {c} (free a q h e) s =
    let gone = Freed-of_done a s.valid e in
    record {
      valid = gone.valid;
      owns = Owns-remove a c.held (has-aligned c.pmm a c.held s.owns h) gone s.owns;
    }

-- Whatever a client that starts with nothing does, the frames that it holds are pairwise distinct,
-- page-aligned, below `total_frames` and marked as used.
pub Reach-IsExclusive : {c d : Client} → IsExclusive c → Reach c d → IsExclusive d
Reach-IsExclusive s here = s
Reach-IsExclusive s (next r st) = Step-IsExclusive st (Reach-IsExclusive s r)
