-- ===== src/Heap/Runs.antt =====
-- Several calls of `malloc` in a row, on a heap without free entries.
use ikaros.Base.{
  ℕ, zero, suc, ◌+◌, ◌*◌, ◌/◌, ◌^◌, ◌≤◌, ◌<◌, ◌≡◌, inl, refl, sym, ◌∙◌, subst, Option, none, some,
  List, [], ◌∷◌, ◌++◌, arith,
}
use ikaros.Heap.{Heap, Malloc, returned, null, aligned, header_size, reuse, none_fits, malloc}
use ikaros.Memory.Region.Supply.{RunsOut, RunsOut-more, RunsOut-within}
use ikaros.Heap.Backed.{Backed, Backed-refl, Backed-trans}
use ikaros.Heap.Grow.{IsHeap}
use ikaros.Heap.Fresh.{Fresh, FreshLem, pages_for, malloc-Fresh}

unfoldable pub then_block : ℕ → Option (Heap × List ℕ) → Option (Heap × List ℕ)
then_block a none = none
then_block a (some (h, blocks)) = some (h, a ∷ blocks)

-- The blocks for the requests, `none` if a call returns none.
unfoldable pub mallocs : ℕ → List ℕ → Heap → Option (Heap × List ℕ)
mallocs fuel [] h = some (h, [])
mallocs fuel (n ∷ ns) h = elim (malloc fuel n h) [
  | returned h1 a ↦ then_block a (mallocs fuel ns h1)
  | null h1 ↦ none
  | Malloc.uninitialised ↦ none
  | Malloc.fault ↦ none
  | Malloc.endless ↦ none
]

-- A request rounded up.
abbrev pub rounded : ℕ → ℕ
rounded n = (n + 15) / 16 * 16

-- Room for the requests, each with a header and a page.
unfoldable pub room_for : List ℕ → ℕ
room_for [] = 0
room_for (n ∷ ns) = n + 8192 + room_for ns

-- From `start` on, the blocks lie one behind the other, each behind its header, up to `end`.
abbrev pub Laid : ℕ → List ℕ → List ℕ → ℕ → Type 0
Laid start [] [] end = start ≡ end
Laid start [] (a ∷ blocks) end = ⊥
Laid start (n ∷ ns) [] end = ⊥
Laid start (n ∷ ns) (a ∷ blocks) end =
    (a ≡ start + header_size) × Laid (a + rounded n) ns blocks end

-- What the run leaves: the blocks, the memory below the old pointer as it was, and the addresses by
-- which the heap is longer in pages that the allocator gave.
pub record Run (h : Heap) (ns : List ℕ) (h' : Heap) (blocks : List ℕ) : Type 0 where
  pub is : IsHeap h'
  pub laid : Laid h.heap ns blocks h'.heap
  pub below : (i : ℕ) → i < h.heap → h'.memory i ≡ h.memory i
  pub farther : h.heap ≤ h'.heap
  pub pages : List ℕ
  pub backed : Backed h.space h.heap_end h'.heap_end pages h'.space

reuse-nothing : (fuel n : ℕ) (h : Heap) → reuse fuel n 0 0 h ≡ none_fits
unfolding reuse
reuse-nothing zero n h = refl
reuse-nothing (suc fuel) n h = refl

Run-cons :
    (h h1 h' : Heap) (n a : ℕ) (ns blocks : List ℕ)
    → Fresh h (rounded n) h1 a
    → Run h1 ns h' blocks
    → Run h (n ∷ ns) h' (a ∷ blocks)
Run-cons h h1 h' n a ns blocks f r = record {
  is = r.is;
  laid = (f.address, subst (λ x. Laid x ns blocks h'.heap) f.pointer r.laid);
  below = λ i hi. r.below i (omega (arith, f.address, f.pointer)) ∙ f.elsewhere i (inl hi);
  farther = omega (arith, r.farther, f.address, f.pointer);
  pages = f.pages ++ r.pages;
  backed =
      Backed-trans h.space h1.space h'.space h.heap_end h1.heap_end h'.heap_end f.pages r.pages
        f.is.bounded f.backed r.backed;
}

-- The most pages that the blocks and the tables for them take.
unfoldable pub pages_for_all : List ℕ → ℕ
pages_for_all [] = 0
pages_for_all (n ∷ ns) = pages_for (rounded n) + pages_for_all ns

-- What a run comes to: all blocks, or an allocator that cannot give the pages for them.
abbrev pub RunLem : Heap → List ℕ → Option (Heap × List ℕ) → Type 0
RunLem h ns (some (h', blocks)) = Run h ns h' blocks
RunLem h ns none = RunsOut (pages_for_all ns) h.space.allocator

module _ (h : Heap) (n : ℕ) (ns : List ℕ) where
  then_RunLem :
      (h1 : Heap) (a : ℕ)
      → Fresh h (rounded n) h1 a
      → (o : Option (Heap × List ℕ)) → RunLem h1 ns o
      → RunLem h (n ∷ ns) (then_block a o)
  unfolding then_block pages_for_all
  then_RunLem h1 a f none out =
      RunsOut-within (pages_for_all ns) (pages_for (rounded n) + pages_for_all ns) h.space.allocator
        h1.space.allocator f.pages f.backed.given (omega (arith, f.few)) out
  then_RunLem h1 a f (some (h2, blocks)) r = Run-cons h h1 h2 n a ns blocks f r

  step_RunLem :
      (fuel : ℕ)
      → ((h1 : Heap) (a : ℕ) → Fresh h (rounded n) h1 a → RunLem h1 ns (mallocs fuel ns h1))
      → (m : Malloc) → FreshLem h (rounded n) m
      → RunLem h (n ∷ ns) (elim m [
        | returned h1 a ↦ then_block a (mallocs fuel ns h1)
        | null h1 ↦ none
        | Malloc.uninitialised ↦ none
        | Malloc.fault ↦ none
        | Malloc.endless ↦ none
      ])
  unfolding pages_for_all
  step_RunLem fuel later (returned h1 a) f = then_RunLem h1 a f _ (later h1 a f)
  step_RunLem fuel later (null h1) (_, _, _, out) =
      RunsOut-more (pages_for (rounded n)) (pages_for_all ns) h.space.allocator out
  step_RunLem fuel later Malloc.uninitialised out =
      RunsOut-more (pages_for (rounded n)) (pages_for_all ns) h.space.allocator out
  step_RunLem fuel later Malloc.fault f = absurd f
  step_RunLem fuel later Malloc.endless f = absurd f

-- A run of calls on a heap without free entries, with room below the window of the page tables: either
-- every call returns a block, or the allocator cannot give the pages for the blocks and their tables
-- in a row. In the first case the heap stays well formed, the blocks lie one behind the other and do
-- not overlap, up to the new pointer, no byte below the old pointer is changed, so that each call
-- leaves the blocks of the earlier ones alone, and the addresses by which the heap is longer are read
-- in pages that the allocator gave.
pub mallocs-Run :
    (fuel : ℕ) (ns : List ℕ) (h : Heap)
    → IsHeap h
    → h.freelist ≡ 0
    → h.heap + room_for ns ≤ 1023 * 2 ^ 22
    → RunLem h ns (mallocs fuel ns h)
unfolding mallocs room_for
mallocs-Run fuel [] h is empty room = record {
  is = is;
  laid = refl;
  below = λ i hi. refl;
  farther = omega arith;
  pages = [];
  backed = Backed-refl h.space h.heap_end;
}
mallocs-Run fuel (n ∷ ns) h is empty room =
    let unused : reuse fuel (aligned n) 0 h.freelist h ≡ none_fits =
      subst (λ x. reuse fuel (aligned n) 0 x h ≡ none_fits) (sym empty)
        (reuse-nothing fuel (aligned n) h) in
    step_RunLem h n ns fuel
      (λ h1 a f.
        mallocs-Run fuel ns h1 f.is (f.same_freelist ∙ empty)
          (omega (arith, room, f.address, f.pointer)))
      (malloc fuel n h) (malloc-Fresh fuel n h is (omega (arith, room)) unused)
