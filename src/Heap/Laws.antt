-- ===== src/Heap/Laws.antt =====
-- heap.c: what a caller may rely on.
use os.Base.{
  ℕ, ◌+◌, ◌-◌, ◌≤◌, ◌≡◌, ◌≢◌, refl, true, false, [], ◌∷◌, arith, ◌⊎◌, inl, inr, some, none, Option,
  ◌==◌, ltb, ne→==, eq-cases, if◌then◌else◌, Bool-cases, lt-cases, lt→ltb,
}
use os.Heap.{Heap, header_size, ok, kmalloc}
use os.Heap.Cells.{
  Cell, Cells, cell, total, fits, taken, allocate, address, is_payload, total-allocate,
}
use os.Heap.Chain.{IsHeap}
use os.Heap.Kmalloc.{kmalloc-allocate}
use os.Heap.Coalesce.{payload-le}

-- The cell with its payload at `p`, the first header being at `a`.
abbrev pub cell_at : ℕ → ℕ → Cells → Option Cell
cell_at p a [] = none
cell_at p a (c ∷ cs) =
    if a + header_size == p then some c else cell_at p (a + header_size + c.size) cs

-- No cell can meet a request of `n` bytes.
abbrev pub NoneFits : ℕ → Cells → Type 0
NoneFits n [] = Unit
NoneFits n (c ∷ cs) = (fits n c ≡ false) × NoneFits n cs

address-null : (n a : ℕ) (cs : Cells) → NoneFits n cs → (address n a cs ≡ 0) × (allocate n cs ≡ cs)
address-null n a [] h = (refl, refl)
address-null n a (c ∷ cs) (miss, h) = ground (arith, address-null n (a + header_size + c.size) cs h)

NoneFits-of_null : (n a : ℕ) (cs : Cells) → address n a cs ≡ 0 → NoneFits n cs
NoneFits-of_null n a [] e = tt
NoneFits-of_null n a (c ∷ cs) e = elim (Bool-cases (fits n c)) [
  | inl hit ↦ absurd (ground arith)
  | inr miss ↦ (miss, NoneFits-of_null n (a + header_size + c.size) cs (rw miss at e))
]

-- A payload that is not `NULL` is one of the cells, and is behind the first header.
pub is_payload-address :
    (n a : ℕ) (cs : Cells)
    → address n a cs ≢ 0
    → is_payload (address n a cs) a (allocate n cs) ≡ true
is_payload-address n a [] h = absurd (h refl)
is_payload-address n a (c ∷ cs) h = elim (Bool-cases (fits n c)) [
  | inl hit ↦ ground arith
  | inr miss ↦ ground (arith, is_payload-address n (a + header_size + c.size) cs)
]

pub address-le : (n a : ℕ) (cs : Cells) → address n a cs ≢ 0 → a + header_size ≤ address n a cs
address-le n a cs h = payload-le (address n a cs) a (allocate n cs) (is_payload-address n a cs h)

-- The cell that is handed out is used, and holds `n` bytes and at most a header more.
cell_at-address :
    (n a : ℕ) (cs : Cells)
    → address n a cs ≢ 0
    → (s : ℕ) × (cell_at (address n a cs) a (allocate n cs) ≡ some (cell s false))
      × (n ≤ s)
      × (s ≤ n + header_size)
cell_at-address n a [] h = absurd (h refl)
cell_at-address n a (c ∷ cs) h = elim (Bool-cases (fits n c)) [
  | inl hit ↦ elim (Bool-cases (ltb (n + header_size) c.size)) [
    | inl large ↦ (n, ground arith, ground arith, ground arith)
    | inr exact ↦ (c.size, ground arith, ground arith, ground arith)
  ]
  | inr miss ↦
      let b = a + header_size + c.size in
      let later : address n b cs ≢ 0 = ground arith in
      let (s, at, low, high) = cell_at-address n b cs later in
      (s, ground (arith, address-le n b cs later), low, high)
]

cell_at-le : (q a : ℕ) (cs : Cells) (c : Cell) → cell_at q a cs ≡ some c → a + header_size ≤ q
cell_at-le q a [] d h = cc
cell_at-le q a (c ∷ cs) d h = elim (eq-cases (a + header_size) q) [
  | inl e ↦ omega arith
  | inr ne ↦
      let later : cell_at q (a + header_size + c.size) cs ≡ some d = ground arith in
      omega (arith, cell_at-le q (a + header_size + c.size) cs d later)
]

cell_at-taken :
    (n a q : ℕ) (c : Cell) (cs : Cells) (d : Cell)
    → cell_at q (a + header_size + c.size) cs ≡ some d
    → cell_at q a (taken n c cs) ≡ some d
cell_at-taken n a q c cs d h =
    let b = a + header_size + c.size in
    let le = cell_at-le q b cs d h in
    elim (lt-cases (n + header_size) c.size) [
      | inl lt ↦
          let whole : a + header_size + n + header_size + (c.size - n - header_size) ≡ b =
            omega arith in
          rw
            (
              lt→ltb _ _ lt,
              ne→== (a + header_size) q (omega arith),
              ne→== (a + header_size + n + header_size) q (omega arith),
              whole,
            )
            h
      | inr ge ↦ ground arith
    ]

-- The cells that are used stay where they are, as they are.
cell_at-allocate :
    (n a q : ℕ) (cs : Cells) (s : ℕ)
    → cell_at q a cs ≡ some (cell s false)
    → cell_at q a (allocate n cs) ≡ some (cell s false)
cell_at-allocate n a q [] s h = h
cell_at-allocate n a q (c ∷ cs) s h = elim (eq-cases (a + header_size) q) [
  | inl e ↦ ground arith
  | inr ne ↦
      let later : cell_at q (a + header_size + c.size) cs ≡ some (cell s false) = ground arith in
      ground (
        arith,
        cell_at-taken n a q c cs (cell s false) later,
        cell_at-allocate n (a + header_size + c.size) q cs s later,
      )
]

-- What a successful allocation promises, of the cells before and after.
pub record Handed (n a : ℕ) (cs : Cells) (p : ℕ) (ds : Cells) : Type 0 where
  pub size : ℕ
  pub at : cell_at p a ds ≡ some (cell size false)
  pub enough : n ≤ size
  pub no_more : size ≤ n + header_size
  pub others :
      (q s : ℕ) → cell_at q a cs ≡ some (cell s false) → cell_at q a ds ≡ some (cell s false)
  pub covers : total ds ≡ total cs

-- On a heap, `kmalloc` either hands out a block of at least the size asked for and at most a header
-- more, with the blocks in use left as they are and the same bytes covered, or no block can meet
-- the request, it returns `NULL`, and the blocks are as before.
pub kmalloc_lem :
    {h : Heap} {cs : Cells} (n : ℕ)
    → IsHeap h cs
    → (p : ℕ) × (h' : Heap) × (ds : Cells) × (kmalloc n h ≡ ok (p, h'))
      × IsHeap h' ds
      × ((p ≢ 0) × Handed n h.heap_start cs p ds ⊎ (p ≡ 0) × NoneFits n cs × (ds ≡ cs))
kmalloc_lem {h} {cs} n is =
    let a = h.heap_start in
    let (h', run, is', start) = kmalloc-allocate n is in
    (
      address n a cs,
      h',
      allocate n cs,
      run,
      is',
      elim (eq-cases (address n a cs) 0) [
        | inl null ↦
            let none = NoneFits-of_null n a cs null in
            inr (null, none, (address-null n a cs none).1)
        | inr there ↦
            let (s, at, low, high) = cell_at-address n a cs there in
            inl (
              there,
              record {
                size = s;
                at = at;
                enough = low;
                no_more = high;
                others = λ q s u. cell_at-allocate n a q cs s u;
                covers = total-allocate n cs;
              },
            )
      ],
    )
