-- ===== src/Heap/Roundtrip.antt =====
-- heap.c: freeing what was just allocated gives back the blocks as they were.
use os.Base.{
  ℕ, ◌+◌, ◌-◌, ◌≡◌, ◌≢◌, refl, sym, ap, ◌∙◌, true, false, ◌&&◌, [], ◌∷◌, arith, inl, inr, ltb,
  ltb→lt, ne→==, eq→==, Bool-cases,
}
use os.Heap.{Heap, header_size, ok, kmalloc, kfree}
use os.Heap.Cells.{
  Cell, Cells, cell, fits, taken, allocate, address, release, absorb, coalesce, IsCoalesced,
  absorb_self, IsCoalesced-tail, head_free, head_free-absorb, IsCoalesced-head,
}
use os.Heap.Chain.{IsHeap}
use os.Heap.Kmalloc.{kmalloc-allocate}
use os.Heap.Kfree.{kfree-coalesce}
use os.Heap.Laws.{is_payload-address, address-le}

-- A cell in front of what is joined already stays apart.
absorb-cons :
    (c : Cell) (xs ds : Cells)
    → coalesce xs ≡ ds
    → (c.free && head_free ds) ≡ false
    → absorb c xs ≡ c ∷ ds
absorb-cons c [] ds e apart = ap (λ r. c ∷ r) e
absorb-cons c (x ∷ xs) ds e apart =
    let flag : x.free ≡ head_free ds = sym (head_free-absorb x xs) ∙ ap head_free e in
    let apart' : (c.free && x.free) ≡ false = rw flag apart in
    rw (apart', absorb) (ap (λ r. c ∷ r) e)

release-taken :
    (n a : ℕ) (c : Cell) (cs : Cells)
    → fits n c ≡ true
    → IsCoalesced (c ∷ cs)
    → coalesce (release (a + header_size) a (taken n c cs)) ≡ c ∷ cs
release-taken n a c cs hit joined = elim (Bool-cases (ltb (n + header_size) c.size)) [
  | inl large ↦
      let lt = ltb→lt (n + header_size) c.size large in
      let whole : n + (header_size + (c.size - n - header_size)) ≡ c.size = omega arith in
      let free : c.free ≡ true = ground arith in
      rw (large, eq→== (a + header_size) (a + header_size) refl, absorb, whole)
        (ap (λ b. absorb (cell c.size b) cs) (sym free) ∙ absorb_self c cs joined)
  | inr exact ↦
      let free : c.free ≡ true = ground arith in
      rw (exact, eq→== (a + header_size) (a + header_size) refl)
        (ap (λ b. absorb (cell c.size b) cs) (sym free) ∙ absorb_self c cs joined)
]

coalesce-release-allocate :
    (n a : ℕ) (cs : Cells)
    → IsCoalesced cs
    → address n a cs ≢ 0
    → coalesce (release (address n a cs) a (allocate n cs)) ≡ cs
coalesce-release-allocate n a [] joined there = refl
coalesce-release-allocate n a (c ∷ cs) joined there = elim (Bool-cases (fits n c)) [
  | inl hit ↦ rw hit (release-taken n a c cs hit joined)
  | inr miss ↦
      let b = a + header_size + c.size in
      let later : address n b cs ≢ 0 = ground arith in
      let le = address-le n b cs later in
      rw (miss, ne→== (a + header_size) (address n b cs) (omega arith))
        (absorb-cons c (release (address n b cs) b (allocate n cs)) cs
          (coalesce-release-allocate n b cs (IsCoalesced-tail c cs joined) later)
          (IsCoalesced-head c cs joined))
]

-- On a heap with no two neighbours free, `kfree` of what `kmalloc` has just handed out succeeds and
-- gives back exactly the blocks from before the allocation.
pub kfree-kmalloc :
    {h : Heap} {cs : Cells} (n : ℕ) {p : ℕ} {h' : Heap}
    → IsHeap h cs
    → IsCoalesced cs
    → kmalloc n h ≡ ok (p, h')
    → p ≢ 0
    → (h'' : Heap) × (kfree p h' ≡ ok h'') × IsHeap h'' cs
kfree-kmalloc {h} {cs} n {p} {h'} is joined run there =
    let (g, run', is', start) = kmalloc-allocate n is in
    let same : address n h.heap_start cs ≡ p = cc in
    let heap : g ≡ h' = cc in
    let begin : h'.heap_start ≡ h.heap_start = rw heap at start in
    let ne : address n h.heap_start cs ≢ 0 = rw same there in
    let payload = is_payload-address n h.heap_start cs ne in
    let (h'', freed, held) = kfree-coalesce p (rw heap at is') (rw (begin, ← same) payload) in
    let back = coalesce-release-allocate n h.heap_start cs joined ne in
    (h'', freed, rw (begin, ← same, back) at held)
