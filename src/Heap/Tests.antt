-- ===== src/Heap/Tests.antt =====
-- heap.c at concrete inputs.
use os.Base.{◌≡◌, refl, true, false, [], ◌∷◌, arith, none}
use os.Heap.{
  Heap, Memory, store, ok, fault, heap_init, take_block, kmalloc_loop, kmalloc, coalesce_loop,
  kfree,
}
use os.Heap.Cells.{Cells, cell, coalesce, release}
use os.Heap.Chain.{IsHeap}
use os.Heap.Kmalloc.{kmalloc-allocate}
use os.Heap.Kfree.{kfree-coalesce}
use os.Heap.Roundtrip.{kfree-kmalloc}
use os.Heap.Reachable.{malloc, here, next, IsSound, Reach-IsSound}

abbrev empty : Memory
empty = λ q. none

-- 1000 bytes at 0x1000
abbrev fresh : Heap
fresh = record {
  mem = store empty 0x1000 (record { size = 988; next = 0; free = true });
  free_list = 0x1000;
  heap_start = 0x1000;
  heap_end = 0x13E8;
}

fresh_lem : heap_init 0x1000 1000 empty ≡ fresh
unfolding heap_init
fresh_lem = refl

abbrev whole : Cells
whole = cell 988 true ∷ []

fresh-IsHeap : IsHeap fresh whole
unfolding store
fresh-IsHeap = record {
  chain = (refl, refl);
  list = refl;
  not_null = omega arith;
  small = omega arith;
}

-- the heap after 100 bytes are taken
abbrev after : Heap
after = record fresh {
  mem = (take_block 100 0x1000 (record { size = 988; next = 0; free = true }) fresh.mem).1;
}

kmalloc-fresh : kmalloc 100 fresh ≡ ok (0x100C, after)
unfolding kmalloc kmalloc_loop take_block store
kmalloc-fresh = refl

kmalloc_too_large : kmalloc 989 fresh ≡ ok (0, fresh)
unfolding kmalloc kmalloc_loop take_block store
kmalloc_too_large = refl

-- `kfree` of a pointer that no header stands in front of
kfree_dangling : kfree 0x2000 fresh ≡ fault
unfolding kfree coalesce_loop store
kfree_dangling = refl

abbrev two_cells : Cells
two_cells = cell 100 false ∷ cell 876 true ∷ []

after-IsHeap : IsHeap after two_cells
unfolding store take_block
after-IsHeap = record {
  chain = (refl, (refl, refl));
  list = refl;
  not_null = omega arith;
  small = omega arith;
}

kmalloc-allocate_example :
    (h' : Heap) × (kmalloc 100 fresh ≡ ok (0x100C, h'))
    × IsHeap h' two_cells
    × (h'.heap_start ≡ 0x1000)
kmalloc-allocate_example = kmalloc-allocate 100 fresh-IsHeap

kfree-coalesce_example :
    (h' : Heap) × (kfree 0x100C after ≡ ok h')
    × IsHeap h' (coalesce (release 0x100C 0x1000 two_cells))
kfree-coalesce_example = kfree-coalesce 0x100C after-IsHeap refl

kfree-kmalloc_example : (h'' : Heap) × (kfree 0x100C after ≡ ok h'') × IsHeap h'' whole
kfree-kmalloc_example = kfree-kmalloc 100 fresh-IsHeap tt kmalloc-fresh (omega arith)

Reach-IsSound_example : IsSound after
Reach-IsSound_example =
    Reach-IsSound (whole, fresh-IsHeap, tt) (next here (malloc 100 0x100C kmalloc-fresh))
