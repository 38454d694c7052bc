-- ===== src/Heap/Grow.antt =====
-- `malloc` where the free list has no entry for it: the heap grows page by page, and the block is
-- taken from its end.
use ikaros.Base.{ℕ, ◌+◌, ◌*◌, ◌%◌, ◌^◌, ◌≤◌, ◌≡◌, refl, List, [], ◌∷◌, arith}
use ikaros.Memory.Region.{State, Alloc, page, alloc_page}
use ikaros.Memory.Region.Pages.{IsState, AllocLem, alloc_page_lem}
use ikaros.Memory.Region.Supply.{RunsOut, RunsOut-now, RunsOut-within}
use ikaros.Memory.Paging.{Mapping, mapped, mm_map_page}
use ikaros.Memory.Paging.Mapped.{MappingLem, mm_map_page_lem}
use ikaros.Heap.Backed.{Backed, MappingLem-Backed}
use ikaros.Heap.{Heap, Grown, grown, no_page, map_heap, heap_grow}

-- The pointers of the heap.
pub record IsHeap (h : Heap) : Type 0 where
  pub valid : IsState h.space.allocator
  pub from_start : h.heap_start ≤ h.heap
  pub below_end : h.heap ≤ h.heap_end
  pub end_on_page : h.heap_end % 4096 ≡ 0
  pub on_16 : h.heap % 16 ≡ 0
  pub bounded : h.heap_end ≤ 1023 * 2 ^ 22

-- `h'` is `h` with `k` pages more, which are mapped to pages that the allocator gave.
pub record Longer (h : Heap) (k : ℕ) (h' : Heap) : Type 0 where
  pub is : IsHeap h'
  pub same_start : h'.heap_start ≡ h.heap_start
  pub same_heap : h'.heap ≡ h.heap
  pub same_freelist : h'.freelist ≡ h.freelist
  pub same_memory : h'.memory ≡ h.memory
  pub longer : h'.heap_end ≡ h.heap_end + k * 4096
  pub pages : List ℕ
  pub backed : Backed h.space h.heap_end h'.heap_end pages h'.space

-- A growth takes a page, and one for a table.
abbrev pub GrowLem : Heap → Grown → Type 0
GrowLem h (grown h') = Longer h 1 h'
GrowLem h (no_page h') = (h' ≡ h) × (alloc_page h.space.allocator ≡ Alloc.minus_one)
GrowLem h Grown.uninitialised = RunsOut 2 h.space.allocator
GrowLem h Grown.fault = ⊥
GrowLem h Grown.endless = ⊥

module _ (h : Heap) (is : IsHeap h) (room : h.heap_end + 4096 ≤ 1023 * 2 ^ 22) where
  map_heap_lem :
      (s : State) (p : ℕ)
      → alloc_page h.space.allocator ≡ page s p
      → (m : Mapping) → MappingLem (p % 2 ^ 20) h.heap_end (record h.space { allocator = s }) m
      → GrowLem h (map_heap ((h.heap_end + 4096) % 2 ^ 32) h m)
  unfolding map_heap
  map_heap_lem s p run (mapped sp warned) lem =
      let (pages, backed) =
        MappingLem-Backed h.space sp s p h.heap_end warned run is.end_on_page lem in
      let end : (h.heap_end + 4096) % 2 ^ 32 ≡ h.heap_end + 4096 = omega arith in
      record {
        is = record {
          valid = lem.0;
          from_start = is.from_start;
          below_end = omega (arith, is.below_end);
          end_on_page = omega (arith, is.end_on_page);
          on_16 = is.on_16;
          bounded = omega arith;
        };
        same_start = refl;
        same_heap = refl;
        same_freelist = refl;
        same_memory = refl;
        longer = omega arith;
        pages = pages;
        backed = rw end backed;
      }
  map_heap_lem s p run Mapping.uninitialised lem =
      RunsOut-within 1 2 h.space.allocator s (p ∷ []) (s, run, refl) (omega arith)
        (RunsOut-now 0 s lem.1)
  map_heap_lem s p run Mapping.fault lem = lem

  pub heap_grow_lem : GrowLem h (heap_grow h)
  unfolding heap_grow
  heap_grow_lem = go (alloc_page h.space.allocator) refl (alloc_page_lem h.space.allocator is.valid)
    where
      go :
          (a : Alloc)
          → alloc_page h.space.allocator ≡ a
          → AllocLem h.space.allocator a
          → GrowLem h (elim a [
            | page s p ↦
                map_heap
                  ((h.heap_end + 4096) % 2 ^ 32)
                  h
                  (mm_map_page (p * 4096 % 2 ^ 32) h.heap_end 3 (record h.space { allocator = s }))
            | Alloc.minus_one ↦ no_page h
            | Alloc.fault ↦ Grown.fault
          ])
      go (page s p) run lem =
          let e : p * 4096 % 2 ^ 32 ≡ p % 2 ^ 20 * 4096 = omega arith in
          rw e (
            map_heap_lem s p run _ (
              mm_map_page_lem (p % 2 ^ 20) h.heap_end 3 (record h.space { allocator = s })
                (omega arith) (omega arith) lem.1))
      go Alloc.minus_one run lem = (refl, run)
      go Alloc.fault run lem = lem
