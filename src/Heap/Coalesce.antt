-- ===== src/Heap/Coalesce.antt =====
-- heap.c: `kfree` and its loop over the list, step by step.
use os.Base.{
  ℕ, zero, suc, ◌+◌, ◌^◌, ◌≤◌, ◌<◌, ◌≡◌, refl, sym, ap, ◌∙◌, true, false, [], ◌∷◌, arith, inl, inr,
  length, some, ne→==, eq→==, eq-cases, if◌then◌else◌, Bool-cases,
}
use os.Base.Word.{u32}
use os.Heap.{HeapBlock, Memory, header_size, store, ok, load, coalesce_loop}
use os.Heap.Cells.{Cell, Cells, cell, total, release, is_payload, absorb, coalesce}
use os.Heap.Chain.{
  pointer, header, Chain, Chain-store, Chain-total, load-store, load-store_ne, header_next,
}

pub payload-le : (p a : ℕ) (cs : Cells) → is_payload p a cs ≡ true → a + header_size ≤ p
payload-le p a [] h = cc
payload-le p a (c ∷ cs) h = elim (eq-cases (a + header_size) p) [
  | inl e ↦ omega arith
  | inr ne ↦ omega (arith, payload-le p (a + header_size + c.size) cs (ground arith))
]

pub pointer-release : (p a b : ℕ) (cs : Cells) → pointer b cs ≡ pointer b (release p a cs)
pointer-release p a b [] = refl
pointer-release p a b (c ∷ cs) = ground arith

-- The header of the block with payload `p`, and the memory when it is made free.
pub release-Chain :
    (m : Memory) (p r a : ℕ) (cs : Cells) (e : ℕ)
    → p ≡ r + header_size
    → is_payload p a cs ≡ true
    → Chain m a cs e
    → (b : HeapBlock) × (m r ≡ some b)
      × Chain (store m r (record b { free = true })) a (release p a cs) e
release-Chain m p r a [] e is at h = cc
release-Chain m p r a (c ∷ cs) e is at h = elim (eq-cases (a + header_size) p) [
  | inl q ↦
      let here : r ≡ a = omega arith in
      let end = a + header_size + c.size in
      let new = header (cell c.size true) end cs in
      rw (eq→== (a + header_size) p q) (
        header c end cs,
        ap m here ∙ h.0,
        (
          ap (store m r new) (sym here) ∙ load-store m r new,
          Chain-store m end cs e r new (omega arith) h.1,
        ),
      )
  | inr ne ↦
      let end = a + header_size + c.size in
      let later : is_payload p end cs ≡ true = ground arith in
      let below = payload-le p end cs later in
      let (b, found, chain) = release-Chain m p r end cs e is later h.1 in
      rw (ne→== (a + header_size) p ne) (
        b,
        found,
        (
          load-store_ne m r a (record b { free = true }) (omega arith)
              ∙ h.0
              ∙ header_next c (pointer-release p end end cs),
          chain,
        ),
      )
]

-- Two free cells `c` and `d` become one.
abbrev joined : Cell → Cell → Cell
joined c d = cell (c.size + (header_size + d.size)) true

join-Chain :
    (m : Memory) (a : ℕ) (c d : Cell) (ds : Cells) (e : ℕ)
    → Chain m a (c ∷ d ∷ ds) e
    → let b = a + header_size + c.size + header_size + d.size in
      Chain (store m a (header (joined c d) b ds)) a (joined c d ∷ ds) e
join-Chain m a c d ds e h =
    let b : ℕ = a + header_size + c.size + header_size + d.size in
    let end : a + header_size + (c.size + (header_size + d.size)) ≡ b = omega arith in
    rw end (load-store m a _, Chain-store m b ds e a _ (omega arith) h.1.1)

coalesce_loop-nil : (fuel : ℕ) (m : Memory) → 0 < fuel → coalesce_loop fuel 0 m ≡ ok m
unfolding coalesce_loop
coalesce_loop-nil zero m h = absurd (omega arith)
coalesce_loop-nil (suc fuel) m h = refl

pointer-absorb : (b : ℕ) (d : Cell) (ds : Cells) → pointer b (absorb d ds) ≡ b
pointer-absorb b d [] = refl
pointer-absorb b d (x ∷ xs) = ground (arith, pointer-absorb b (joined d x) xs)

-- One round of the loop at the block `b` at `a`, by what its successor is.
module _ (fuel a : ℕ) (m : Memory) (b : HeapBlock) (pos : 0 < a) (at : m a ≡ some b) where
  coalesce_loop_used : b.free ≡ false → coalesce_loop (suc fuel) a m ≡ coalesce_loop fuel b.next m
  unfolding coalesce_loop
  coalesce_loop_used used = rw (ne→== a 0 (omega arith), load, at, used)

  coalesce_loop_last : b.next ≡ 0 → coalesce_loop (suc fuel) a m ≡ coalesce_loop fuel b.next m
  unfolding coalesce_loop
  coalesce_loop_last last = ground arith

  coalesce_loop_next :
      (n : HeapBlock)
      → b.free ≡ true
      → 0 < b.next
      → m b.next ≡ some n
      → coalesce_loop (suc fuel) a m ≡ (
          if n.free
          then coalesce_loop fuel a (
              store m a (record {
                size = u32 (b.size + u32 (header_size + n.size));
                next = n.next;
                free = true;
              }))
          else coalesce_loop fuel b.next m)
  unfolding coalesce_loop
  coalesce_loop_next n free there next =
      rw (ne→== a 0 (omega arith), load, at, free, ne→== b.next 0 (omega arith), load, next)

-- The loop at `a` ends, with the cells `cs` from `a` on and nothing written below.
abbrev Ends : (fuel : ℕ) → Memory → (a : ℕ) → Cells → (e : ℕ) → Type 0
Ends fuel m a cs e =
    (m' : Memory) × (coalesce_loop fuel a m ≡ ok m')
    × Chain m' a cs e
    × ((q : ℕ) → q < a → m' q ≡ m q)

module _ (fuel : ℕ) (m : Memory) (a : ℕ) (c d : Cell) (ds : Cells) (e : ℕ) where
  -- the loop goes on behind `c`
  Ends-keep :
      coalesce_loop (suc fuel) a m ≡ coalesce_loop fuel (a + header_size + c.size) m
      → Chain m a (c ∷ d ∷ ds) e
      → Ends fuel m (a + header_size + c.size) (absorb d ds) e
      → Ends (suc fuel) m a (c ∷ absorb d ds) e
  Ends-keep step h (m', run, chain, same) = (
    m',
    step ∙ run,
    (
      same a (omega arith)
          ∙ h.0
          ∙ header_next c (sym (pointer-absorb (a + header_size + c.size) d ds)),
      chain,
    ),
    λ q lt. same q (omega arith),
  )

  -- `c` takes in `d`
  Ends-join :
      let b = a + header_size + c.size + header_size + d.size in
      let m' = store m a (header (joined c d) b ds) in
      coalesce_loop (suc fuel) a m ≡ coalesce_loop fuel a m'
      → Ends fuel m' a (absorb (joined c d) ds) e
      → Ends (suc fuel) m a (absorb (joined c d) ds) e
  Ends-join step (m', run, chain, same) =
      (m', step ∙ run, chain, λ q lt. same q lt ∙ load-store_ne m a q _ (omega arith))

coalesce_loop-absorb :
    (fuel : ℕ) (m : Memory) (a : ℕ) (c : Cell) (cs : Cells) (e : ℕ)
    → length cs + 1 < fuel
    → 0 < a
    → e < 2 ^ 32
    → Chain m a (c ∷ cs) e
    → Ends fuel m a (absorb c cs) e
coalesce_loop-absorb zero m a c cs e enough pos small h = absurd (omega arith)
coalesce_loop-absorb (suc fuel) m a c [] e enough pos small h = (
  m,
  coalesce_loop_last fuel a m (header c (a + header_size + c.size) []) pos h.0 refl
      ∙ coalesce_loop-nil fuel m (omega arith),
  h,
  λ q lt. refl,
)
coalesce_loop-absorb (suc fuel) m a c (d ∷ ds) e enough pos small h =
    let b : ℕ = a + header_size + c.size in
    let end = Chain-total m a (c ∷ d ∷ ds) e h in
    let block = header c b (d ∷ ds) in
    let next = header d (b + header_size + d.size) ds in
    let whole : u32 (c.size + u32 (header_size + d.size)) ≡ c.size + (header_size + d.size) =
      omega arith in
    let go_on = Ends-keep fuel m a c d ds e in
    let behind = coalesce_loop-absorb fuel m b d ds e (omega arith) (omega arith) small h.1 in
    elim (Bool-cases c.free) [
      | inr used ↦
          rw (used, absorb) (go_on (coalesce_loop_used fuel a m block pos h.0 used) h behind)
      | inl free ↦
          let step = coalesce_loop_next fuel a m block pos h.0 next free (omega arith) h.1.0 in
          elim (Bool-cases d.free) [
            | inr used ↦ rw (free, used, absorb) (go_on (step ∙ rw used) h behind)
            | inl both ↦
                rw (free, both, absorb)
                  (Ends-join fuel m a c d ds e (step ∙ rw (both, whole)) (
                    coalesce_loop-absorb fuel (store m a (header (joined c d) _ ds)) a (joined c d)
                      ds e (omega arith) pos small (join-Chain m a c d ds e h)))
          ]
    ]

pub payload-le-total : (p a : ℕ) (cs : Cells) → is_payload p a cs ≡ true → p ≤ a + total cs
payload-le-total p a [] h = cc
payload-le-total p a (c ∷ cs) h = elim (eq-cases (a + header_size) p) [
  | inl e ↦ omega arith
  | inr ne ↦ omega (arith, payload-le-total p (a + header_size + c.size) cs (ground arith))
]

pub length-release : (p a : ℕ) (cs : Cells) → length (release p a cs) ≡ length cs
length-release p a [] = refl
length-release p a (c ∷ cs) = ground (arith, length-release p (a + header_size + c.size) cs)

pub coalesce_loop-coalesce :
    (fuel : ℕ) (m : Memory) (a : ℕ) (cs : Cells) (e : ℕ)
    → length cs < fuel
    → 0 < a
    → e < 2 ^ 32
    → Chain m a cs e
    → (m' : Memory) × (coalesce_loop fuel (pointer a cs) m ≡ ok m') × Chain m' a (coalesce cs) e
coalesce_loop-coalesce fuel m a [] e enough pos small h =
    (m, coalesce_loop-nil fuel m (omega arith), h)
coalesce_loop-coalesce fuel m a (c ∷ cs) e enough pos small h =
    let (m', run, chain, same) = coalesce_loop-absorb fuel m a c cs e (omega arith) pos small h in
    (m', run, chain)

pub pointer-coalesce : (a : ℕ) (cs : Cells) → pointer a cs ≡ pointer a (coalesce cs)
pointer-coalesce a [] = refl
pointer-coalesce a (c ∷ cs) = sym (pointer-absorb a c cs)
