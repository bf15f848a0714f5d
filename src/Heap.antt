-- ===== src/Heap.antt =====
-- heap.c, the kernel heap: a linked list of blocks in the order of their addresses, each a header
-- (`heap_block_t`, 12 bytes on i386) in front of its payload. The memory is read and written at the
-- granularity of headers: it holds the header at each address where one was written. What a caller
-- writes to a payload is not modelled.
pub mod Cells
pub mod Chain
pub mod Kmalloc
pub mod Coalesce
pub mod Kfree
pub mod Laws
pub mod Roundtrip
pub mod Reachable
mod Tests
use os.Base.{
  ℕ, zero, suc, ◌+◌, ◌-◌, ◌/◌, ◌%◌, ◌^◌, Bool, true, false, ◌&&◌, not, Option, none, some, ltb, leb,
  ◌==◌, if◌then◌else◌,
}
use os.Base.Word.{u32, sub32}

pub record HeapBlock : Type 0 where
  pub size : ℕ
  pub next : ℕ
  pub free : Bool

-- `sizeof(heap_block_t)`
abbrev pub header_size : ℕ
header_size = 12

abbrev pub Memory : Type 0
Memory = ℕ → Option HeapBlock

-- The memory, and the static variables `free_list`, `heap_start` and `heap_end`.
pub record Heap : Type 0 where
  pub mem : Memory
  pub free_list : ℕ
  pub heap_start : ℕ
  pub heap_end : ℕ

-- A fault is a read of a header where none was written, such as through a dangling pointer.
pub data Outcome (A : Type 0) : Type 0 where
  ok : A → Outcome A
  fault : Outcome A
  out_of_fuel : Outcome A

infixl 5 ◌>>=◌
abbrev pub ◌>>=◌ : {A B : Type 0} → Outcome A → (A → Outcome B) → Outcome B
ok a >>= f = f a
fault >>= f = fault
out_of_fuel >>= f = out_of_fuel

abbrev pub load : Memory → ℕ → Outcome HeapBlock
load m p = elim (m p) [ none ↦ fault | some b ↦ ok b ]

unfoldable pub store : Memory → ℕ → HeapBlock → Memory
store m p b q = if q == p then some b else m q

pub heap_init : (start size : ℕ) → Memory → Heap
heap_init start size m = record {
  mem = store m start (record { size = sub32 size header_size; next = 0; free = true });
  free_list = start;
  heap_start = start;
  heap_end = u32 (start + size);
}

-- The body of the `if` of `kmalloc`: block `curr`, which is `b`, is taken, and split if it is
-- larger by more than a header.
pub take_block : (size curr : ℕ) → HeapBlock → Memory → ℕ × Memory
take_block size curr b m =
    let new_block = u32 (curr + header_size + size) in
    let m' =
      (if ltb (u32 (size + header_size)) b.size
        then store
            (store m new_block
              (record { size = sub32 (sub32 b.size size) header_size; next = b.next; free = true }))
            curr (record { size = size; next = new_block; free = false })
        else store m curr (record b { free = false })) in
    (u32 (curr + header_size), m')

-- The loop of `kmalloc`. The pointer 0 is `NULL`.
pub kmalloc_loop : (fuel size curr : ℕ) → Memory → Outcome (ℕ × Memory)
kmalloc_loop zero size curr m = out_of_fuel
kmalloc_loop (suc fuel) size curr m = if curr == 0 then ok (0, m) else do
  b ← load m curr
  let rest = kmalloc_loop fuel size b.next m
  if b.free && leb size b.size then ok (take_block size curr b m) else rest

-- No list of blocks is longer than this: each block has a header in the heap.
abbrev pub rounds : Heap → ℕ
rounds h = (h.heap_end - h.heap_start) / header_size + 1

pub kmalloc : (size : ℕ) → Heap → Outcome (ℕ × Heap)
kmalloc size h = do
  (p, m) ← kmalloc_loop (rounds h) size h.free_list h.mem
  ok (p, record h { mem = m })

-- The loop of `kfree`: a free block takes in its free successor, and stays the current one.
pub coalesce_loop : (fuel curr : ℕ) → Memory → Outcome Memory
coalesce_loop zero curr m = out_of_fuel
coalesce_loop (suc fuel) curr m = if curr == 0 then ok m else do
  b ← load m curr
  let go_on = coalesce_loop fuel b.next m
  if not b.free then go_on else if b.next == 0 then go_on else do
    n ← load m b.next
    let joined = record b { size = u32 (b.size + u32 (header_size + n.size)); next = n.next }
    let again = coalesce_loop fuel curr (store m curr joined)
    if n.free then again else go_on

pub kfree : (ptr : ℕ) → Heap → Outcome Heap
kfree ptr h = if ptr == 0 then ok h else do
  let block = sub32 ptr header_size
  b ← load h.mem block
  m ← coalesce_loop (rounds h) h.free_list (store h.mem block (record b { free = true }))
  ok (record h { mem = m })
