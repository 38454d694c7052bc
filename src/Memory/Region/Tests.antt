-- ===== src/Memory/Region/Tests.antt =====
-- The page allocator at small regions.
use ikaros.Base.{
  ℕ, zero, suc, get_or, ◌/◌, ◌%◌, ◌<◌, ◌≡◌, ◌≢◌, refl, true, false, some, [], ◌∷◌, arith, All,
}
use ikaros.Base.Bits.{test_bit}
use ikaros.Memory.Region.{
  Region, State, ffs, scan, find_and_set, setbit, getbit, bit, early_init, page, alloc_page,
  dealloc_page, word, store_word, write_bit,
}
use ikaros.Memory.Region.FirstFit.{Full}
use ikaros.Memory.Region.Walk.{IsRegion}
use ikaros.Memory.Region.Digits.{Covers}
use ikaros.Memory.Region.Pages.{IsState, AllocLem, alloc_page_lem}
use ikaros.Memory.Region.Order.{alloc_pages, pages_from, alloc_pages-early_init}
use ikaros.Memory.Region.Release.{dealloc_page-alloc_page}

-- Pages 8 to 39, with pages 8, 9 and 11 taken.
abbrev region : Region
region = record { base = 8; length = 32; bitmap = 11 ∷ 0 ∷ 0 ∷ 0 ∷ [] }

abbrev state : State
state = record { chain = region ∷ []; last_free = 0 }

-- The same with page 10 taken, and then page 12.
abbrev state1 : State
state1 = record { chain = record region { bitmap = 15 ∷ 0 ∷ 0 ∷ 0 ∷ [] } ∷ []; last_free = 0 }

abbrev state2 : State
state2 = record { chain = record region { bitmap = 31 ∷ 0 ∷ 0 ∷ 0 ∷ [] } ∷ []; last_free = 0 }

region-IsRegion : IsRegion region
region-IsRegion = record {
  bytes = (omega arith, (omega arith, (omega arith, (omega arith, tt))));
  room = omega arith;
  bounded = omega arith;
}

state-IsState : IsState state
state-IsState = record { regions = (region-IsRegion, tt); points = omega arith }

taken : alloc_page state ≡ page state1 10
unfolding alloc_page find_and_set scan word ffs store_word
taken = refl

taken_again : alloc_page state1 ≡ page state2 12
unfolding alloc_page find_and_set scan word ffs store_word
taken_again = refl

given_back : dealloc_page state1 10 ≡ some state
unfolding dealloc_page setbit write_bit
given_back = refl

alloc_page_lem_example : AllocLem state (alloc_page state)
alloc_page_lem_example = alloc_page_lem state state-IsState

alloc_pages-early_init_example : alloc_pages 3 (early_init 256 64) ≡ some (pages_from 256 3)
alloc_pages-early_init_example =
    alloc_pages-early_init 3 256 64 (omega arith) (omega arith) (omega arith)

dealloc_page-alloc_page_example :
    (t : State) × (dealloc_page state1 10 ≡ some t)
    × All IsRegion t.chain
    × ((q : ℕ) → q ≢ 10 → getbit t.chain q ≡ getbit state1.chain q)
    × (Covers 1 state1.chain 10 → getbit t.chain 10 ≡ bit false)
dealloc_page-alloc_page_example =
    dealloc_page-alloc_page state state1 10 state-IsState taken (tt, tt)

ones : (k : ℕ) → k < 8 → test_bit 255 k ≡ true
unfolding test_bit
ones zero h = refl
ones (suc zero) h = refl
ones (suc (suc zero)) h = refl
ones (suc (suc (suc zero))) h = refl
ones (suc (suc (suc (suc zero)))) h = refl
ones (suc (suc (suc (suc (suc zero))))) h = refl
ones (suc (suc (suc (suc (suc (suc zero)))))) h = refl
ones (suc (suc (suc (suc (suc (suc (suc zero))))))) h = refl
ones (suc (suc (suc (suc (suc (suc (suc (suc k)))))))) h = absurd (omega arith)

full_bytes : (i : ℕ) → i < 4 → get_or {A = ℕ} (255 ∷ 255 ∷ 255 ∷ 255 ∷ []) i 0 ≡ 255
full_bytes zero h = refl
full_bytes (suc zero) h = refl
full_bytes (suc (suc zero)) h = refl
full_bytes (suc (suc (suc zero))) h = refl
full_bytes (suc (suc (suc (suc i)))) h = absurd (omega arith)

Full-word : Full (255 ∷ 255 ∷ 255 ∷ 255 ∷ []) 0 32
Full-word p lo hi = rw (full_bytes (p / 8) (omega arith)) (ones (p % 8) (omega arith))
