-- ===== src/Heap/Reachable.antt =====
-- heap.c: the heap from `heap_init` on, under any sequence of calls.
use os.Base.{
  ℕ, ◌+◌, ◌-◌, ◌^◌, ◌≤◌, ◌<◌, ◌≡◌, refl, Bool, true, false, ◌&&◌, [], ◌∷◌, arith, inl, inr,
  Bool-cases,
}
use os.Heap.{Heap, Memory, header_size, store, ok, heap_init, kmalloc, kfree}
use os.Heap.Cells.{
  Cell, Cells, cell, fits, taken, allocate, release, is_payload, coalesce, IsCoalesced,
  coalesce-IsCoalesced, IsCoalesced-tail, IsCoalesced-cons, IsCoalesced-head, head_free,
}
use os.Heap.Chain.{IsHeap}
use os.Heap.Kmalloc.{kmalloc-allocate}
use os.Heap.Kfree.{kfree-coalesce}

-- `heap_init` of a region of at least a header makes a heap of one free block, which fills it.
pub heap_init-IsHeap :
    (start size : ℕ) (m : Memory)
    → header_size ≤ size
    → 0 < start
    → start + size < 2 ^ 32
    → IsHeap (heap_init start size m) (cell (size - header_size) true ∷ [])
unfolding heap_init store
heap_init-IsHeap start size m fit pos small = record {
  chain = (ground arith, omega arith);
  list = refl;
  not_null = pos;
  small = omega arith;
}

taken-IsCoalesced :
    (n : ℕ) (c : Cell) (cs : Cells)
    → fits n c ≡ true
    → IsCoalesced (c ∷ cs)
    → IsCoalesced (taken n c cs)
taken-IsCoalesced n c [] hit h = ground arith
taken-IsCoalesced n c (d ∷ ds) hit h = ground arith

-- Taking a cell frees no first cell.
head_free-allocate :
    (b : Bool) (n : ℕ) (cs : Cells)
    → (b && head_free cs) ≡ false
    → (b && head_free (allocate n cs)) ≡ false
head_free-allocate b n [] h = h
head_free-allocate b n (c ∷ cs) h = ground arith

allocate-IsCoalesced : (n : ℕ) (cs : Cells) → IsCoalesced cs → IsCoalesced (allocate n cs)
allocate-IsCoalesced n [] h = h
allocate-IsCoalesced n (c ∷ cs) h = elim (Bool-cases (fits n c)) [
  | inl hit ↦ rw (hit, allocate) (taken-IsCoalesced n c cs hit h)
  | inr miss ↦
      rw (miss, allocate)
        (IsCoalesced-cons c (allocate n cs)
          (head_free-allocate c.free n cs (IsCoalesced-head c cs h))
          (allocate-IsCoalesced n cs (IsCoalesced-tail c cs h)))
]

-- A call: an allocation, `kfree` of the payload of a block, or `kfree` of `NULL`.
pub data Step : Heap → Heap → Type 0 where
  malloc : {h h' : Heap} (n p : ℕ) → kmalloc n h ≡ ok (p, h') → Step h h'
  free :
      {h h' : Heap} (p : ℕ) (cs : Cells)
      → IsHeap h cs
      → is_payload p h.heap_start cs ≡ true
      → kfree p h ≡ ok h'
      → Step h h'
  free_null : {h h' : Heap} → kfree 0 h ≡ ok h' → Step h h'

pub data Reach (s : Heap) : Heap → Type 0 where
  here : Reach s s
  next : {t u : Heap} → Reach s t → Step t u → Reach s u

-- The heap stands for cells of which no two neighbours are free.
abbrev pub IsSound : Heap → Type 0
IsSound h = (cs : Cells) × IsHeap h cs × IsCoalesced cs

kfree-null : (h : Heap) → kfree 0 h ≡ ok h
unfolding kfree
kfree-null h = refl

Step-IsSound : {h h' : Heap} → Step h h' → IsSound h → IsSound h'
Step-IsSound {h} {h'} (malloc n p run) (cs, is, joined) =
    let (g, run', is', start) = kmalloc-allocate n is in
    let heap : g ≡ h' = cc in (allocate n cs, rw heap at is', allocate-IsCoalesced n cs joined)
Step-IsSound {h} {h'} (free p cs is at run) s =
    let (g, run', is') = kfree-coalesce p is at in
    let heap : g ≡ h' = cc in
    (
      coalesce (release p h.heap_start cs),
      rw heap at is',
      coalesce-IsCoalesced (release p h.heap_start cs),
    )
Step-IsSound {h} {h'} (free_null run) (cs, is, joined) =
    let heap : h ≡ h' = cc (kfree-null h) in (cs, rw heap at is, joined)

-- From a sound heap every sequence of allocations and of frees of blocks leads to a sound heap.
pub Reach-IsSound : {h h' : Heap} → IsSound h → Reach h h' → IsSound h'
Reach-IsSound s here = s
Reach-IsSound s (next r st) = Step-IsSound st (Reach-IsSound s r)
