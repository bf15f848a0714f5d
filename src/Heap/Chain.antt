-- ===== src/Heap/Chain.antt =====
-- heap.c: the list of headers in memory that stands for a sequence of cells.
use os.Base.{ℕ, ◌+◌, ◌*◌, ◌^◌, ◌≤◌, ◌<◌, ◌≡◌, ◌≢◌, ap, [], ◌∷◌, arith, length, some, Option, ne→==}
use os.Heap.{HeapBlock, Memory, Heap, header_size, store, rounds}
use os.Heap.Cells.{Cell, Cells, total}

-- the pointer to the cells at `a`: `NULL` behind the last one
abbrev pub pointer : ℕ → Cells → ℕ
pointer a [] = 0
pointer a (c ∷ cs) = a

-- the header of a cell that ends at `b`, with `cs` behind it
abbrev pub header : Cell → ℕ → Cells → HeapBlock
header c b cs = record { size = c.size; next = pointer b cs; free = c.free }

pub header_next :
    (c : Cell) {p q : ℕ}
    → p ≡ q
    → ◌≡◌ {A = Option HeapBlock}
        (some (record { size = c.size; next = p; free = c.free }))
        (some (record { size = c.size; next = q; free = c.free }))
header_next c e = ap (λ p. some (record { size = c.size; next = p; free = c.free })) e

-- From address `a` the headers of the cells follow one another up to address `e`.
abbrev pub Chain : Memory → ℕ → Cells → ℕ → Type 0
Chain m a [] e = a ≡ e
Chain m a (c ∷ cs) e =
    (m a ≡ some (header c (a + header_size + c.size) cs)) × Chain m (a + header_size + c.size) cs e

pub record IsHeap (h : Heap) (cs : Cells) : Type 0 where
  pub chain : Chain h.mem h.heap_start cs h.heap_end
  pub list : h.free_list ≡ pointer h.heap_start cs
  pub not_null : 0 < h.heap_start
  pub small : h.heap_end < 2 ^ 32

pub Chain-total : (m : Memory) (a : ℕ) (cs : Cells) (e : ℕ) → Chain m a cs e → a + total cs ≡ e
Chain-total m a [] e h = omega arith
Chain-total m a (c ∷ cs) e h = omega (arith, Chain-total m (a + header_size + c.size) cs e h.1)

-- A write below the cells leaves their headers alone.
pub Chain-store :
    (m : Memory) (a : ℕ) (cs : Cells) (e p : ℕ) (b : HeapBlock)
    → p < a
    → Chain m a cs e
    → Chain (store m p b) a cs e
unfolding store
Chain-store m a [] e p b lt h = h
Chain-store m a (c ∷ cs) e p b lt h = (
  rw (ne→== a p (omega arith)) h.0,
  Chain-store m (a + header_size + c.size) cs e p b (omega arith) h.1,
)

pub load-store : (m : Memory) (p : ℕ) (b : HeapBlock) → store m p b p ≡ some b
unfolding store
load-store m p b = ground arith

pub load-store_ne : (m : Memory) (p q : ℕ) (b : HeapBlock) → q ≢ p → store m p b q ≡ m q
unfolding store
load-store_ne m p q b ne = rw (ne→== q p ne)

-- The fuel of the loops is more than the number of cells.
length-total : (cs : Cells) → header_size * length cs ≤ total cs
length-total [] = omega arith
length-total (c ∷ cs) = omega (arith, length-total cs)

pub length-lt-rounds : {h : Heap} (cs : Cells) → IsHeap h cs → length cs < rounds h
length-lt-rounds {h} cs is =
    omega (arith, length-total cs, Chain-total h.mem h.heap_start cs h.heap_end is.chain)
