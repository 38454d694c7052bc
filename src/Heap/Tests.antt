-- ===== src/Heap/Tests.antt =====
-- `malloc` and `free` on small heaps.
use ikaros.Base.{ℕ, some, ◌+◌, ◌≡◌, refl, sym, ◌∙◌, inr, [], ◌∷◌, arith, replicate}
use ikaros.Memory.Region.{State}
use ikaros.Memory.Region.Pages.{IsState}
use ikaros.Memory.Region.Order.{Filled, early_init-Filled}
use ikaros.Heap.{
  grow_loop, from_heap, Heap, load, store, size_of, next_of, aligned, header_size, reuse, malloc,
  returned, freed, free,
}
use ikaros.Heap.Grow.{IsHeap}
use ikaros.Heap.Lists.{Entry, Chain, free_entries}
use ikaros.Heap.Runs.{mallocs, then_block, room_for, RunLem, mallocs-Run}
use ikaros.Heap.Release.{free-free_entries}
use ikaros.Heap.FirstFit.{FitLem, first_fit, reuse-first_fit, malloc_twice}

pages : State
pages = record {
  chain = record { base = 256; length = 64; bitmap = replicate 64 0 } ∷ [];
  last_free = 0;
}

pages-IsState : IsState pages
unfolding pages
pages-IsState = Filled.valid (early_init-Filled 64 256 64 (omega arith) (omega arith))

-- A free entry of 32 bytes and behind it a block of 64 bytes in use.
abbrev bytes : ℕ → ℕ
bytes = store 3222274100 64 (store 3222274052 32 (λ a. 0))

abbrev heap : Heap
heap = record {
  heap_start = 3222274048;
  heap_end = 3222278144;
  heap = 3222274176;
  freelist = 3222274048;
  memory = bytes;
  space = record { entries = λ k. 0; allocator = pages };
}

abbrev entry : Entry
entry = record { at = 3222274048; size = 32 }

abbrev block : Entry
block = record { at = 3222274096; size = 64 }

entry_size : size_of entry.at bytes ≡ 32
unfolding load store
entry_size = refl

entry_next : next_of entry.at bytes ≡ 0
unfolding load store
entry_next = refl

block_size : size_of block.at bytes ≡ 64
unfolding load store
block_size = refl

chain : Chain bytes heap.freelist (entry ∷ [])
chain = (refl, (λ e. absurd (omega (arith, e))), omega arith, entry_size, entry_next)

aligned_100 : aligned 100 ≡ 112
unfolding aligned
aligned_100 = refl

aligned_30 : aligned 30 ≡ 32
unfolding aligned
aligned_30 = refl

free-free_entries_example :
    (h' : Heap) × (free 1 (block.at + header_size) heap ≡ freed h')
    × Chain h'.memory h'.freelist (free_entries block (entry ∷ []))
free-free_entries_example =
    free-free_entries 1 block (entry ∷ []) heap (λ e. absurd (omega (arith, e))) (omega arith)
      block_size refl (omega arith) (inr (omega arith), tt) (tt, tt) chain

reuse-first_fit_example : FitLem (reuse 1 16 0 heap.freelist heap) (first_fit 16 (entry ∷ []))
reuse-first_fit_example =
    reuse-first_fit 1 16 0 heap.freelist (entry ∷ []) heap refl chain (refl, tt) (omega arith)

malloc_twice_example :
    (h' : Heap) × (h'' : Heap) × (malloc 1 30 heap ≡ returned h' (entry.at + header_size))
    × (malloc 1 30 h' ≡ returned h'' (entry.at + header_size))
malloc_twice_example =
    malloc_twice 0 30 entry.at (λ e. absurd (omega (arith, e))) (omega arith) (omega arith) heap
      refl (entry_size ∙ sym aligned_30)

aligned_10 : aligned 10 ≡ 16
unfolding aligned
aligned_10 = refl

-- The heap without the free entry, and behind two calls.
abbrev heap0 : Heap
heap0 = record heap { freelist = 0 }

abbrev heap2 : Heap
heap2 = record heap0 {
  heap = 3222274256;
  memory =
      store 3222274212 32 (store 3222274208 0 (store 3222274180 16 (store 3222274176 0 bytes)));
}

two_calls : mallocs 1 (10 ∷ 20 ∷ []) heap0 ≡ some (heap2, 3222274192 ∷ 3222274224 ∷ [])
unfolding mallocs then_block malloc reuse aligned grow_loop from_heap
two_calls = refl

heap0-IsHeap : IsHeap heap0
heap0-IsHeap = record {
  valid = pages-IsState;
  from_start = omega arith;
  below_end = omega arith;
  end_on_page = omega arith;
  on_16 = omega arith;
  bounded = omega arith;
}

mallocs-Run_example : RunLem heap0 (10 ∷ 5000 ∷ []) (mallocs 1 (10 ∷ 5000 ∷ []) heap0)
mallocs-Run_example =
    mallocs-Run 1 (10 ∷ 5000 ∷ []) heap0 heap0-IsHeap refl (unfold room_for in omega arith)
