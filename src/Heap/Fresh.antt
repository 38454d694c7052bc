-- ===== src/Heap/Fresh.antt =====
-- `malloc` where the free list has no entry for the request: a new block behind all others.
use ikaros.Base.{
  ℕ, zero, suc, ◌+◌, ◌-◌, ◌*◌, ◌/◌, ◌%◌, ◌^◌, ◌≤◌, ◌<◌, ◌≡◌, ◌⊎◌, inl, inr, refl, ◌∙◌, false, arith,
  length, List, [], ◌++◌, ltb, Bool-cases,
}
use ikaros.Memory.Region.{Alloc, alloc_page}
use ikaros.Memory.Region.Supply.{RunsOut, RunsOut-now, RunsOut-more, RunsOut-within}
use ikaros.Heap.{
  Heap, Grown, grown, no_page, heap_grow, grow_loop, Malloc, returned, null, from_heap, aligned,
  header_size, size_of, next_of, reuse, none_fits, malloc,
}
use ikaros.Heap.Words.{load-store, load_apart, store_apart}
use ikaros.Heap.Backed.{Backed, Backed-refl, Backed-trans}
use ikaros.Heap.Grow.{IsHeap, Longer, GrowLem, heap_grow_lem}

Longer-trans : (h h1 h2 : Heap) (k : ℕ) → Longer h 1 h1 → Longer h1 k h2 → Longer h (suc k) h2
Longer-trans h h1 h2 k one more = record {
  is = more.is;
  same_start = more.same_start ∙ one.same_start;
  same_heap = more.same_heap ∙ one.same_heap;
  same_freelist = more.same_freelist ∙ one.same_freelist;
  same_memory = more.same_memory ∙ one.same_memory;
  longer = omega (arith, more.longer, one.longer);
  pages = one.pages ++ more.pages;
  backed =
      Backed-trans h.space h1.space h2.space h.heap_end h1.heap_end h2.heap_end one.pages more.pages
        one.is.bounded one.backed more.backed;
}

-- In at most `n` growths the loop ends with room for the block, or without a page.
abbrev LoopLem : ℕ → Heap → ℕ → Grown → Type 0
LoopLem n h size (grown h') = (k : ℕ) × (k ≤ n) × Longer h k h' × (h.heap + size ≤ h'.heap_end)
LoopLem n h size (no_page h') =
    (k : ℕ) × Longer h k h'
    × (alloc_page h'.space.allocator ≡ Alloc.minus_one)
    × RunsOut (2 * n) h.space.allocator
LoopLem n h size Grown.uninitialised = RunsOut (2 * n) h.space.allocator
LoopLem n h size Grown.fault = ⊥
LoopLem n h size Grown.endless = ⊥

-- A growth, and then `n` more.
RunsOut-Longer :
    (n : ℕ) (h h1 : Heap)
    → Longer h 1 h1
    → RunsOut (2 * n) h1.space.allocator
    → RunsOut (2 * suc n) h.space.allocator
RunsOut-Longer n h h1 one out =
    RunsOut-within (2 * n) (2 * suc n) h.space.allocator h1.space.allocator one.pages
      one.backed.given (omega (arith, one.backed.few, one.longer)) out

then_LoopLem :
    (n : ℕ) (h h1 : Heap) (size : ℕ)
    → Longer h 1 h1
    → (g : Grown) → LoopLem n h1 size g
    → LoopLem (suc n) h size g
then_LoopLem n h h1 size one (grown h2) (k, most, more, room) =
    (suc k, omega arith, Longer-trans h h1 h2 k one more, omega (arith, room, one.same_heap))
then_LoopLem n h h1 size one (no_page h2) (k, more, empty, out) =
    (suc k, Longer-trans h h1 h2 k one more, empty, RunsOut-Longer n h h1 one out)
then_LoopLem n h h1 size one Grown.uninitialised out = RunsOut-Longer n h h1 one out
then_LoopLem n h h1 size one Grown.fault lem = lem
then_LoopLem n h h1 size one Grown.endless lem = lem

module _ (h : Heap) (is : IsHeap h) where
  same_Longer : Longer h 0 h
  same_Longer = record {
    is = is;
    same_start = refl;
    same_heap = refl;
    same_freelist = refl;
    same_memory = refl;
    longer = omega arith;
    pages = [];
    backed = Backed-refl h.space h.heap_end;
  }

  step_LoopLem :
      (n fuel size : ℕ)
      → ((h1 : Heap) → Longer h 1 h1 → LoopLem n h1 size (grow_loop fuel size h1))
      → (g : Grown) → GrowLem h g
      → LoopLem (suc n) h size (elim g [
        | grown h1 ↦ grow_loop fuel size h1
        | no_page h1 ↦ no_page h1
        | Grown.uninitialised ↦ Grown.uninitialised
        | Grown.fault ↦ Grown.fault
        | Grown.endless ↦ Grown.endless
      ])
  step_LoopLem n fuel size later (grown h1) one = then_LoopLem n h h1 size one _ (later h1 one)
  step_LoopLem n fuel size later (no_page h1) (same, empty) =
      let e : 2 * suc n ≡ suc (2 * n + 1) = omega arith in
      (
        0,
        rw same same_Longer,
        rw same empty,
        rw e (RunsOut-now (2 * n + 1) h.space.allocator empty),
      )
  step_LoopLem n fuel size later Grown.uninitialised out =
      let e : 2 * suc n ≡ 2 + 2 * n = omega arith in
      rw e (RunsOut-more 2 (2 * n) h.space.allocator out)
  step_LoopLem n fuel size later Grown.fault lem = absurd lem
  step_LoopLem n fuel size later Grown.endless lem = absurd lem

grow_loop_lem :
    (fuel size : ℕ) (h : Heap)
    → IsHeap h
    → h.heap + size ≤ h.heap_end + fuel * 4096
    → h.heap + size + 4096 ≤ 1023 * 2 ^ 22
    → LoopLem fuel h size (grow_loop (suc fuel) size h)
unfolding grow_loop
grow_loop_lem zero size h is enough room =
    let rest : (2 ^ 32 + h.heap_end - h.heap) % 2 ^ 32 ≡ h.heap_end - h.heap =
      omega (arith, is.below_end, is.bounded) in
    let long : ltb (h.heap_end - h.heap) size ≡ false = ground (arith, is.below_end) in
    rw (rest, long, grow_loop) (0, omega arith, same_Longer h is, omega arith)
grow_loop_lem (suc fuel) size h is enough room =
    let rest : (2 ^ 32 + h.heap_end - h.heap) % 2 ^ 32 ≡ h.heap_end - h.heap =
      omega (arith, is.below_end, is.bounded) in
    elim (Bool-cases (ltb (h.heap_end - h.heap) size)) [
      | inl short ↦
          rw (rest, short, grow_loop)
            (step_LoopLem h is fuel (suc fuel) size
              (λ h1 one.
                grow_loop_lem fuel size h1 one.is (omega (arith, one.same_heap, one.longer))
                  (omega (arith, one.same_heap)))
              (heap_grow h) (heap_grow_lem h is (ground (arith, short, is.below_end))))
      | inr long ↦
          rw (rest, long, grow_loop)
            (0, omega arith, same_Longer h is, ground (arith, long, is.below_end))
    ]

-- The most pages that a block of `n` bytes and the tables for it take.
abbrev pub pages_for : ℕ → ℕ
pages_for n = 2 * ((header_size + n) / 4096 + 1)

-- A block of `n` bytes behind the pointer of `h`, and nothing else written but its header. Where the
-- end of the heap moved, the addresses in between are read in pages that the allocator gave.
pub record Fresh (h : Heap) (n : ℕ) (h' : Heap) (a : ℕ) : Type 0 where
  pub is : IsHeap h'
  pub address : a ≡ h.heap + header_size
  pub pointer : h'.heap ≡ a + n
  pub sized : size_of h.heap h'.memory ≡ n
  pub unlinked : next_of h.heap h'.memory ≡ 0
  pub elsewhere : (i : ℕ) → (i < h.heap) ⊎ (h.heap + 8 ≤ i) → h'.memory i ≡ h.memory i
  pub same_start : h'.heap_start ≡ h.heap_start
  pub same_freelist : h'.freelist ≡ h.freelist
  pub pages : List ℕ
  pub few : length pages ≤ pages_for n
  pub backed : Backed h.space h.heap_end h'.heap_end pages h'.space

abbrev pub FreshLem : Heap → ℕ → Malloc → Type 0
FreshLem h n (returned h' a) = Fresh h n h' a
FreshLem h n (null h') =
    (k : ℕ) × Longer h k h'
    × (alloc_page h'.space.allocator ≡ Alloc.minus_one)
    × RunsOut (pages_for n) h.space.allocator
FreshLem h n Malloc.uninitialised = RunsOut (pages_for n) h.space.allocator
FreshLem h n Malloc.fault = ⊥
FreshLem h n Malloc.endless = ⊥

from_heap_lem :
    (h : Heap) (n : ℕ)
    → n % 16 ≡ 0
    → h.heap + (header_size + n) + 4096 ≤ 1023 * 2 ^ 22
    → (g : Grown) → LoopLem ((header_size + n) / 4096 + 1) h (header_size + n) g
    → FreshLem h n (from_heap n g)
unfolding from_heap
from_heap_lem h n whole room (grown h1) (k, most, more, enough) = record {
  is = record {
    valid = more.is.valid;
    from_start = omega (arith, more.is.from_start, more.same_heap);
    below_end = omega (arith, enough, more.same_heap);
    end_on_page = more.is.end_on_page;
    on_16 = omega (arith, more.is.on_16, whole, more.same_heap);
    bounded = more.is.bounded;
  };
  address = omega (arith, more.same_heap);
  pointer = omega (arith, more.same_heap);
  sized = rw more.same_heap (load-store (h.heap + 4) n _ (omega arith));
  unlinked = rw more.same_heap (
      load_apart (h.heap + 4) h.heap n _ (inl (omega arith))
      ∙ load-store h.heap 0 h1.memory (omega arith));
  elsewhere = λ i apart.
      rw (more.same_heap, more.same_memory)
        (store_apart (h.heap + 4) i n _ (ground (arith, apart))
          ∙ store_apart h.heap i 0 h.memory (ground (arith, apart)));
  same_start = more.same_start;
  same_freelist = more.same_freelist;
  pages = more.pages;
  few = omega (arith, more.backed.few, more.longer, most);
  backed = more.backed;
}
from_heap_lem h n whole room (no_page h1) lem = lem
from_heap_lem h n whole room Grown.uninitialised lem = lem
from_heap_lem h n whole room Grown.fault lem = lem
from_heap_lem h n whole room Grown.endless lem = lem

pub aligned_lem :
    (num_bytes : ℕ) → num_bytes + 16 ≤ 2 ^ 32 → aligned num_bytes ≡ (num_bytes + 15) / 16 * 16
unfolding aligned
aligned_lem num_bytes h = ground arith

pub malloc-Fresh :
    (fuel num_bytes : ℕ) (h : Heap)
    → IsHeap h
    → h.heap + num_bytes + 8192 ≤ 1023 * 2 ^ 22
    → reuse fuel (aligned num_bytes) 0 h.freelist h ≡ none_fits
    → FreshLem h ((num_bytes + 15) / 16 * 16) (malloc fuel num_bytes h)
unfolding malloc
malloc-Fresh fuel num_bytes h is room unused =
    let n = (num_bytes + 15) / 16 * 16 in
    let e = aligned_lem num_bytes (omega (arith, room)) in
    let sum : (header_size + n) % 2 ^ 32 ≡ header_size + n = omega (arith, room) in
    rw (unused, malloc)
      (rw (e, sum)
        (from_heap_lem h n (omega arith) (omega (arith, room)) _ (
          grow_loop_lem ((header_size + n) / 4096 + 1) (header_size + n) h is
            (omega (arith, is.below_end)) (omega (arith, room)))))
