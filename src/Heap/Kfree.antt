-- ===== src/Heap/Kfree.antt =====
-- heap.c: `kfree` makes a block free and joins free neighbours.
use os.Base.{ℕ, ◌-◌, ◌<◌, ◌≡◌, ◌∙◌, true, arith, some, ne→==}
use os.Base.Word.{sub32}
use os.Heap.{HeapBlock, Memory, Heap, header_size, store, rounds, ok, load, coalesce_loop, kfree}
use os.Heap.Cells.{Cells, release, is_payload, coalesce}
use os.Heap.Chain.{IsHeap, Chain-total, length-lt-rounds}
use os.Heap.Coalesce.{
  payload-le, payload-le-total, length-release, coalesce_loop-coalesce, pointer-coalesce,
  pointer-release, release-Chain,
}

-- `kfree` of a block that is there, whose loop ends.
kfree-ok :
    (h : Heap) (p r : ℕ) (b : HeapBlock) (m : Memory)
    → 0 < p
    → sub32 p header_size ≡ r
    → h.mem r ≡ some b
    → coalesce_loop (rounds h) h.free_list (store h.mem r (record b { free = true })) ≡ ok m
    → kfree p h ≡ ok (record h { mem = m })
unfolding kfree
kfree-ok h p r b m pos e found run = rw (ne→== p 0 (omega arith), e, load, found, run)

-- On a heap of the cells `cs`, `kfree` of the payload of one of them makes it free and joins all
-- free neighbours.
pub kfree-coalesce :
    {h : Heap} {cs : Cells} (p : ℕ)
    → IsHeap h cs
    → is_payload p h.heap_start cs ≡ true
    → (h' : Heap) × (kfree p h ≡ ok h') × IsHeap h' (coalesce (release p h.heap_start cs))
kfree-coalesce {h} {cs} p is at =
    let a = h.heap_start in
    let low = payload-le p a cs at in
    let high = payload-le-total p a cs at in
    let end = Chain-total h.mem a cs h.heap_end is.chain in
    let small = is.small in
    let r : sub32 p header_size ≡ p - header_size = omega arith in
    let (b, found, chain) =
      release-Chain h.mem p (p - header_size) a cs h.heap_end (omega arith) at is.chain in
    let (m', run, chain') =
      coalesce_loop-coalesce (rounds h) (store h.mem (p - header_size) (record b { free = true })) a
        (release p a cs) h.heap_end (omega (arith, length-release p a cs, length-lt-rounds cs is))
        is.not_null is.small chain in
    (
      record h { mem = m' },
      kfree-ok h p (p - header_size) b m' (omega arith) r found
          (rw (is.list, pointer-release p a a cs) run),
      record {
        chain = chain';
        list = is.list ∙ pointer-release p a a cs ∙ pointer-coalesce a (release p a cs);
        not_null = is.not_null;
        small = is.small;
      },
    )
