-- ===== src/Heap/Kmalloc.antt =====
-- heap.c: `kmalloc` is first fit.
use os.Base.{
  ℕ, zero, suc, ◌+◌, ◌-◌, ◌^◌, ◌≤◌, ◌<◌, ◌≡◌, refl, ap, ◌∙◌, true, false, [], ◌∷◌, arith, inl, inr,
  length, ltb, ne→==, Bool-cases, ltb→lt,
}
use os.Base.Word.{u32, sub32}
use os.Heap.{
  HeapBlock, Memory, Heap, header_size, store, rounds, ok, load, take_block, kmalloc_loop, kmalloc,
}
use os.Heap.Cells.{Cell, Cells, cell, fits, taken, allocate, address}
use os.Heap.Chain.{
  pointer, header, Chain, IsHeap, Chain-store, Chain-total, load-store, load-store_ne, header_next,
  length-lt-rounds,
}

-- The memory after the block of cell `c` at `a` is split for `n` bytes.
abbrev split : Memory → (n a : ℕ) → Cell → Cells → Memory
split m n a c cs =
    store
      (store m (a + header_size + n)
        (header (cell (c.size - n - header_size) true) (a + header_size + c.size) cs))
      a (record { size = n; next = a + header_size + n; free = false })

split-Chain :
    (m : Memory) (n a : ℕ) (c : Cell) (cs : Cells) (e : ℕ)
    → n + header_size < c.size
    → Chain m (a + header_size + c.size) cs e
    → Chain (split m n a c cs) a (cell n false ∷ cell (c.size - n - header_size) true ∷ cs) e
split-Chain m n a c cs e large h =
    let b = a + header_size + n in
    let end : b + header_size + (c.size - n - header_size) ≡ a + header_size + c.size =
      omega arith in
    let new = header (cell (c.size - n - header_size) true) (a + header_size + c.size) cs in
    let old = let t : HeapBlock = record { size = n; next = b; free = false } in t in
    (
      load-store (store m b new) a old,
      (
        rw end (load-store_ne (store m b new) a b old (omega arith) ∙ load-store m b new),
        rw end (
            Chain-store (store m b new) (a + header_size + c.size) cs e a old (omega arith)
              (Chain-store m (a + header_size + c.size) cs e b new (omega arith) h)),
      ),
    )

-- Taking the block of the cell `c` at `a`.
take_block-Chain :
    (m : Memory) (n a : ℕ) (c : Cell) (cs : Cells) (e : ℕ)
    → n ≤ c.size
    → e < 2 ^ 32
    → Chain m a (c ∷ cs) e
    → let (p, m') = take_block n a (header c (a + header_size + c.size) cs) m in
      (p ≡ a + header_size) × Chain m' a (taken n c cs) e
unfolding take_block
take_block-Chain m n a c cs e fit small h =
    let end = Chain-total m a (c ∷ cs) e h in
    let e₁ : u32 (n + header_size) ≡ n + header_size = omega arith in
    let e₂ : u32 (a + header_size + n) ≡ a + header_size + n = omega arith in
    (
      omega arith,
      elim (Bool-cases (ltb (n + header_size) c.size)) [
        | inl large ↦
            let lt : n + header_size < c.size = ltb→lt (n + header_size) c.size large in
            let e₃ : sub32 (sub32 c.size n) header_size ≡ c.size - n - header_size = omega arith in
            rw (e₁, e₂, e₃, large) (split-Chain m n a c cs e lt h.1)
        | inr exact ↦
            rw (e₁, exact)
              (
                load-store m a _,
                Chain-store m (a + header_size + c.size) cs e a _ (omega arith) h.1,
              )
      ],
    )

take_block-below :
    (m : Memory) (n a : ℕ) (b : HeapBlock) (q : ℕ)
    → q < a
    → a + header_size + n < 2 ^ 32
    → (take_block n a b m).1 q ≡ m q
unfolding take_block store
take_block-below m n a b q lt small = ground arith

pointer-allocate : (n a : ℕ) (cs : Cells) → pointer a cs ≡ pointer a (allocate n cs)
pointer-allocate n a [] = refl
pointer-allocate n a (c ∷ cs) = ground arith

-- The loop from the block of the first cell.
kmalloc_loop-allocate :
    (fuel n : ℕ) (m : Memory) (a : ℕ) (cs : Cells) (e : ℕ)
    → length cs < fuel
    → 0 < a
    → e < 2 ^ 32
    → Chain m a cs e
    → (m' : Memory) × (kmalloc_loop fuel n (pointer a cs) m ≡ ok (address n a cs, m'))
      × Chain m' a (allocate n cs) e
      × ((q : ℕ) → q < a → m' q ≡ m q)
unfolding kmalloc_loop
kmalloc_loop-allocate zero n m a cs e enough pos small h = absurd (omega arith)
kmalloc_loop-allocate (suc fuel) n m a [] e enough pos small h = (m, refl, h, λ q lt. refl)
kmalloc_loop-allocate (suc fuel) n m a (c ∷ cs) e enough pos small h =
    let end = Chain-total m a (c ∷ cs) e h in
    let b = header c (a + header_size + c.size) cs in
    elim (Bool-cases (fits n c)) [
      | inl hit ↦
          let fit : n ≤ c.size = ground arith in
          let (p, chain) = take_block-Chain m n a c cs e fit small h in
          rw (ne→== a 0 (omega arith), load, h.0, hit)
            (
              (take_block n a b m).1,
              ap (λ r. ok (r, (take_block n a b m).1)) p,
              chain,
              λ q lt. take_block-below m n a b q lt (omega arith),
            )
      | inr miss ↦
          let (m', run, chain, same) =
            kmalloc_loop-allocate fuel n m (a + header_size + c.size) cs e (omega arith)
              (omega arith) small h.1 in
          rw (ne→== a 0 (omega arith), load, h.0, miss)
            (
              m',
              run,
              (
                same a (omega arith)
                    ∙ h.0
                    ∙ header_next c (pointer-allocate n (a + header_size + c.size) cs),
                chain,
              ),
              λ q lt. same q (omega arith),
            )
    ]

-- On a heap of the cells `cs`, `kmalloc` hands out the payload that first fit finds, or `NULL`, and
-- leaves the cells of first fit.
pub kmalloc-allocate :
    {h : Heap} {cs : Cells} (n : ℕ)
    → IsHeap h cs
    → (h' : Heap) × (kmalloc n h ≡ ok (address n h.heap_start cs, h'))
      × IsHeap h' (allocate n cs)
      × (h'.heap_start ≡ h.heap_start)
unfolding kmalloc
kmalloc-allocate {h} {cs} n is =
    let (m', run, chain, same) =
      kmalloc_loop-allocate (rounds h) n h.mem h.heap_start cs h.heap_end (length-lt-rounds cs is)
        is.not_null is.small is.chain in
    (
      record h { mem = m' },
      rw (is.list, run),
      record {
        chain = chain;
        list = is.list ∙ pointer-allocate n h.heap_start cs;
        not_null = is.not_null;
        small = is.small;
      },
      refl,
    )
