-- ===== src/Heap/Cells.antt =====
-- heap.c, the abstract view: the blocks in order, each with the size of its payload and whether it
-- is free; first fit, and joining free neighbours.
use os.Base.{
  ℕ, ◌+◌, ◌-◌, ◌≡◌, refl, Bool, true, false, ◌&&◌, ◌||◌, List, [], ◌∷◌, arith, ltb, leb, ◌==◌,
  if◌then◌else◌, Bool-cases, ap, inl, inr,
}
use os.Heap.{header_size}

pub record Cell : Type 0 where
  pub size : ℕ
  pub free : Bool

abbrev pub cell : ℕ → Bool → Cell
cell s f = record { size = s; free = f }

abbrev pub Cells : Type 0
Cells = List Cell

-- whether a request of `n` bytes can be met by the cell
abbrev pub fits : ℕ → Cell → Bool
fits n c = c.free && leb n c.size

-- The cell taken for `n` bytes: what is left over, if more than a header, becomes a free cell.
abbrev pub taken : ℕ → Cell → Cells → Cells
taken n c cs =
    if ltb (n + header_size) c.size
    then cell n false ∷ cell (c.size - n - header_size) true ∷ cs
    else cell c.size false ∷ cs

-- First fit.
abbrev pub allocate : ℕ → Cells → Cells
allocate n [] = []
allocate n (c ∷ cs) = if fits n c then taken n c cs else c ∷ allocate n cs

-- The payload of the first cell that fits, the first header being at `a`; `NULL` if none does.
abbrev pub address : ℕ → ℕ → Cells → ℕ
address n a [] = 0
address n a (c ∷ cs) = if fits n c then a + header_size else address n (a + header_size + c.size) cs

-- The cell with its payload at `p` made free.
abbrev pub release : ℕ → ℕ → Cells → Cells
release p a [] = []
release p a (c ∷ cs) =
    if a + header_size == p
    then cell c.size true ∷ cs
    else c ∷ release p (a + header_size + c.size) cs

-- whether a cell has its payload at `p`
abbrev pub is_payload : ℕ → ℕ → Cells → Bool
is_payload p a [] = false
is_payload p a (c ∷ cs) = (a + header_size == p) || is_payload p (a + header_size + c.size) cs

-- `c` takes in the free cells behind it while it is free, and so on behind it.
abbrev pub absorb : Cell → Cells → Cells
absorb c [] = c ∷ []
absorb c (d ∷ ds) = elim (c.free && d.free) [
  | true ↦ absorb (cell (c.size + (header_size + d.size)) true) ds
  | false ↦ c ∷ absorb d ds
]

abbrev pub coalesce : Cells → Cells
coalesce [] = []
coalesce (c ∷ cs) = absorb c cs

-- No two neighbours are both free.
abbrev pub IsCoalesced : Cells → Type 0
IsCoalesced [] = Unit
IsCoalesced (c ∷ []) = Unit
IsCoalesced (c ∷ d ∷ ds) = ((c.free && d.free) ≡ false) × IsCoalesced (d ∷ ds)

-- The bytes that the cells cover, headers included.
abbrev pub total : Cells → ℕ
total [] = 0
total (c ∷ cs) = header_size + c.size + total cs

pub total-allocate : (n : ℕ) (cs : Cells) → total (allocate n cs) ≡ total cs
total-allocate n [] = refl
total-allocate n (c ∷ cs) = ground (arith, total-allocate n cs)

pub total-release : (p a : ℕ) (cs : Cells) → total (release p a cs) ≡ total cs
total-release p a [] = refl
total-release p a (c ∷ cs) = ground (arith, total-release p (a + header_size + c.size) cs)

pub total-absorb : (c : Cell) (cs : Cells) → total (absorb c cs) ≡ total (c ∷ cs)
total-absorb c [] = refl
total-absorb c (d ∷ ds) =
    ground (arith, total-absorb d ds, total-absorb (cell (c.size + (header_size + d.size)) true) ds)

pub IsCoalesced-tail : (c : Cell) (cs : Cells) → IsCoalesced (c ∷ cs) → IsCoalesced cs
IsCoalesced-tail c [] h = tt
IsCoalesced-tail c (d ∷ ds) h = h.1

cons_absorb-IsCoalesced :
    (e c : Cell) (cs : Cells) → (e.free && c.free) ≡ false → IsCoalesced (e ∷ absorb c cs)
cons_absorb-IsCoalesced e c [] h = (h, tt)
cons_absorb-IsCoalesced e c (d ∷ ds) h = elim (Bool-cases (c.free && d.free)) [
  | inl both ↦
      rw (both, absorb)
        (cons_absorb-IsCoalesced e (cell (c.size + (header_size + d.size)) true) ds (ground arith))
  | inr apart ↦ rw (apart, absorb) (h, cons_absorb-IsCoalesced c d ds apart)
]

pub coalesce-IsCoalesced : (cs : Cells) → IsCoalesced (coalesce cs)
coalesce-IsCoalesced [] = tt
coalesce-IsCoalesced (c ∷ cs) =
    IsCoalesced-tail (cell 0 false) (absorb c cs) (cons_absorb-IsCoalesced (cell 0 false) c cs refl)

-- Where no two neighbours are free there is nothing to join.
pub absorb_self : (c : Cell) (cs : Cells) → IsCoalesced (c ∷ cs) → absorb c cs ≡ c ∷ cs
absorb_self c [] h = refl
absorb_self c (d ∷ ds) (apart, h) = rw (apart, absorb) (ap (λ r. c ∷ r) (absorb_self d ds h))

pub coalesce_self : (cs : Cells) → IsCoalesced cs → coalesce cs ≡ cs
coalesce_self [] h = refl
coalesce_self (c ∷ cs) h = absorb_self c cs h

-- whether the first cell is free
abbrev pub head_free : Cells → Bool
head_free [] = false
head_free (c ∷ cs) = c.free

pub head_free-absorb : (c : Cell) (cs : Cells) → head_free (absorb c cs) ≡ c.free
head_free-absorb c [] = refl
head_free-absorb c (d ∷ ds) =
    ground (arith, head_free-absorb (cell (c.size + (header_size + d.size)) true) ds)

pub IsCoalesced-head :
    (c : Cell) (cs : Cells) → IsCoalesced (c ∷ cs) → (c.free && head_free cs) ≡ false
IsCoalesced-head c [] h = ground arith
IsCoalesced-head c (d ∷ ds) h = h.0

pub IsCoalesced-cons :
    (c : Cell) (cs : Cells)
    → (c.free && head_free cs) ≡ false
    → IsCoalesced cs
    → IsCoalesced (c ∷ cs)
IsCoalesced-cons c [] apart h = tt
IsCoalesced-cons c (d ∷ ds) apart h = (apart, h)
