-- ===== src/Heap.antt =====
-- libc/stdlib/malloc.c as it is built into the kernel, without `CONFIG_DEBUG_MALLOC`. The memory is
-- a function from addresses to bytes; a header of the free list is two little-endian words, `next`
-- and `size`. The locks and the state of the interrupts have no effect here.
pub mod Words
pub mod Backed
pub mod Grow
pub mod Fresh
pub mod Lists
pub mod Release
pub mod FirstFit
pub mod Runs
pub mod Tests
use ikaros.Base.{
  ℕ, zero, suc, ◌+◌, ◌-◌, ◌*◌, ◌/◌, ◌%◌, ◌^◌, bit_xor, Bool, true, false, ◌||◌, Option, none, some,
  List, [], ◌∷◌, ltb, leb, ◌==◌, if◌then◌else◌,
}
use ikaros.Memory.Region.{State, Alloc, page, alloc_page}
use ikaros.Memory.Paging.{Space, Mapping, mapped, mm_map_page}

-- A `uint32_t` of the memory, and the write of one.
unfoldable pub load : (ℕ → ℕ) → ℕ → ℕ
load m a = m a + 256 * (m (a + 1) + 256 * (m (a + 2) + 256 * m (a + 3)))

unfoldable pub store : ℕ → ℕ → (ℕ → ℕ) → ℕ → ℕ
store a v m = λ i.
    if i == a
    then v % 256
    else if i == a + 1
    then v / 256 % 256
    else if i == a + 2
    then v / 256 / 256 % 256
    else if i == a + 3
    then v / 256 / 256 / 256 % 256
    else m i

-- `freelist->next` and `freelist->size`.
abbrev pub next_of : ℕ → (ℕ → ℕ) → ℕ
next_of block m = load m block

abbrev pub size_of : ℕ → (ℕ → ℕ) → ℕ
size_of block m = load m (block + 4)

abbrev pub set_next : ℕ → ℕ → (ℕ → ℕ) → ℕ → ℕ
set_next block v m = store block v m

abbrev pub set_size : ℕ → ℕ → (ℕ → ℕ) → ℕ → ℕ
set_size block v m = store (block + 4) v m

-- `sizeof(malloc_freelist_t)` is 8, which is rounded up to `MALLOC_ALIGN_BYTES`.
abbrev pub header_size : ℕ
header_size = 16

-- `num_bytes_aligned`, in `uintptr_t`.
unfoldable pub aligned : ℕ → ℕ
aligned num_bytes =
    if num_bytes % 16 == 0 then num_bytes else (num_bytes + (16 - num_bytes % 16)) % 2 ^ 32

pub record Heap : Type 0 where
  pub heap_start : ℕ
  pub heap_end : ℕ
  pub heap : ℕ
  pub freelist : ℕ
  pub memory : ℕ → ℕ
  pub space : Space

-- The heap begins at the first page behind the kernel.
unfoldable pub malloc_init : ℕ → (ℕ → ℕ) → Space → Heap
malloc_init kernel_end m sp =
    let start =
      if kernel_end % 4096 == 0
      then kernel_end
      else (kernel_end + (4096 - kernel_end % 4096)) % 2 ^ 32 in
    record {
      heap_start = start;
      heap_end = start;
      heap = start;
      freelist = 0;
      memory = m;
      space = sp;
    }

-- What the code returns: a heap, with 0 or -1 for `heap_grow` and an address or `NULL` for `malloc`.
-- `mm_map_page` may fail on the way, and a walk of the free list may not end.
pub data Grown : Type 0 where
  grown : Heap → Grown
  no_page : Heap → Grown
  uninitialised : Grown
  fault : Grown
  endless : Grown

unfoldable pub map_heap : ℕ → Heap → Mapping → Grown
map_heap end h (mapped sp warned) = grown (record h { heap_end = end; space = sp })
map_heap end h Mapping.uninitialised = Grown.uninitialised
map_heap end h Mapping.fault = Grown.fault

unfoldable pub heap_grow : Heap → Grown
unfolding map_heap
heap_grow h = elim (alloc_page h.space.allocator) [
  | page s p ↦
      map_heap ((h.heap_end + 4096) % 2 ^ 32) h
        (mm_map_page (p * 4096 % 2 ^ 32) h.heap_end 3 (record h.space { allocator = s }))
  | Alloc.minus_one ↦ no_page h
  | Alloc.fault ↦ Grown.fault
]

-- `while(kernel_heap_end - kernel_heap < size)`, on fuel.
unfoldable pub grow_loop : ℕ → ℕ → Heap → Grown
grow_loop zero size h = Grown.endless
grow_loop (suc fuel) size h = elim (ltb ((2 ^ 32 + h.heap_end - h.heap) % 2 ^ 32) size) [
  | true ↦ elim (heap_grow h) [
    | grown h1 ↦ grow_loop fuel size h1
    | no_page h1 ↦ no_page h1
    | Grown.uninitialised ↦ Grown.uninitialised
    | Grown.fault ↦ Grown.fault
    | Grown.endless ↦ Grown.endless
  ]
  | false ↦ grown h
]

-- A page more than the size has is enough.
abbrev pub grow_fuel : ℕ → ℕ
grow_fuel size = suc (size / 4096 + 1)

pub data Malloc : Type 0 where
  returned : Heap → ℕ → Malloc
  null : Heap → Malloc
  uninitialised : Malloc
  fault : Malloc
  endless : Malloc

-- The memory is taken from the heap.
unfoldable pub from_heap : ℕ → Grown → Malloc
from_heap n (grown h) =
    let block = h.heap in
    returned
      (record h {
        heap = (h.heap + (header_size + n)) % 2 ^ 32;
        memory = set_size block n (set_next block 0 h.memory);
      })
      ((block + header_size) % 2 ^ 32)
from_heap n (no_page h) = null h
from_heap n Grown.uninitialised = Malloc.uninitialised
from_heap n Grown.fault = Malloc.fault
from_heap n Grown.endless = Malloc.endless

-- `freelist_prev->next = v`, or `kernel_malloc_freelist = v` where there is no entry before.
unfoldable pub relink : ℕ → ℕ → Heap → Heap
relink prev v h =
    if prev == 0 then record h { freelist = v } else record h { memory = set_next prev v h.memory }

-- The entry is larger than the request: it is split up.
unfoldable pub split : ℕ → ℕ → ℕ → ℕ → Heap → Heap
split n size prev block h =
    let rest = (block + size) % 2 ^ 32 in
    let m1 = set_next rest (next_of block h.memory) h.memory in
    let m2 = set_size rest (size - n - 16) m1 in
    let m3 = set_size block n m2 in relink prev rest (record h { memory = m3 })

-- The entry is taken as it is: only an entry before it is unlinked from it.
unfoldable pub take_whole : ℕ → ℕ → ℕ → Heap → Heap
take_whole n prev block h =
    let h1 =
      if prev == 0
      then h
      else record h { memory = set_next prev (next_of block h.memory) h.memory } in
    record h1 { memory = set_size block n h1.memory }

-- `while(freelist != NULL)`, on fuel: the heap and the entry that is reused.
pub data Reuse : Type 0 where
  reused : Heap → ℕ → Reuse
  none_fits : Reuse
  endless : Reuse

unfoldable pub reuse : ℕ → ℕ → ℕ → ℕ → Heap → Reuse
reuse zero n prev block h = if block == 0 then none_fits else Reuse.endless
reuse (suc fuel) n prev block h =
    let size = bit_xor (size_of block h.memory) 15 in
    let later = reuse fuel n block (next_of block h.memory) h in
    if block == 0
    then none_fits
    else if leb n size
    then (if ltb 16 (size - n)
        then reused (split n size prev block h) block
        else reused (take_whole n prev block h) block)
    else later

unfoldable pub malloc : ℕ → ℕ → Heap → Malloc
malloc fuel num_bytes h =
    let n = aligned num_bytes in
    let size = (header_size + n) % 2 ^ 32 in
    elim (reuse fuel n 0 h.freelist h) [
      | reused h1 block ↦ returned h1 ((block + header_size) % 2 ^ 32)
      | none_fits ↦ from_heap n (grow_loop (grow_fuel size) size h)
      | Reuse.endless ↦ Malloc.endless
    ]

-- The walk of `free` over the list, for the block at `block` of `size` bytes.
pub data Freed : Type 0 where
  freed : Heap → Freed
  endless : Freed

-- `other` begins where the block ends: the block takes its place. And the other way round.
unfoldable pub merge_after : ℕ → ℕ → ℕ → Heap → Heap
merge_after block prev other h =
    let m = h.memory in
    let m1 = set_size block ((size_of block m + (header_size + size_of other m)) % 2 ^ 32) m in
    relink prev block (record h { memory = set_next block (next_of other m1) m1 })

unfoldable pub merge_before : ℕ → ℕ → Heap → Heap
merge_before block other h =
    let m = h.memory in
    record h {
      memory = set_size other ((size_of other m + (header_size + size_of block m)) % 2 ^ 32) m;
    }

-- No entry is next to the block.
unfoldable pub push : ℕ → Heap → Heap
push block h = record h { memory = set_next block h.freelist h.memory; freelist = block }

-- `freelist_end` and `other_end`.
abbrev pub end_of : ℕ → (ℕ → ℕ) → ℕ
end_of block m = (block + size_of block m + header_size) % 2 ^ 32

unfoldable pub free_loop : ℕ → ℕ → ℕ → ℕ → Heap → Freed
free_loop zero block prev other h = if other == 0 then freed (push block h) else Freed.endless
free_loop (suc fuel) block prev other h =
    let later = free_loop fuel block other (next_of other h.memory) h in
    if other == 0
    then freed (push block h)
    else if end_of block h.memory == other
    then freed (merge_after block prev other h)
    else if block == end_of other h.memory
    then freed (merge_before block other h)
    else later

-- A block whose size has one of the low four digits set is left alone.
unfoldable pub free : ℕ → ℕ → Heap → Freed
free fuel mem h =
    let block = (2 ^ 32 + mem - header_size) % 2 ^ 32 in
    if size_of block h.memory % 16 == 0 then free_loop fuel block 0 h.freelist h else freed h
