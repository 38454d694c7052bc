-- ===== src/Heap/Words.antt =====
-- Words of the memory after a write.
use ikaros.Base.{ℕ, ◌+◌, ◌^◌, ◌≤◌, ◌<◌, ◌≡◌, ◌⊎◌, arith}
use ikaros.Heap.{load, store}

pub load-store : (a v : ℕ) (m : ℕ → ℕ) → v < 2 ^ 32 → load (store a v m) a ≡ v
unfolding load store
load-store a v m h = ground arith

pub load_apart :
    (a b v : ℕ) (m : ℕ → ℕ) → (b + 4 ≤ a) ⊎ (a + 4 ≤ b) → load (store a v m) b ≡ load m b
unfolding load store
load_apart a b v m apart = ground arith

pub store_apart : (a i v : ℕ) (m : ℕ → ℕ) → (i < a) ⊎ (a + 4 ≤ i) → store a v m i ≡ m i
unfolding store
store_apart a i v m apart = ground arith
