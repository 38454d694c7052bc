-- ===== src/Heap/FirstFit.antt =====
-- `malloc` where the free list has entries: which one it takes, and what becomes of the list.
use ikaros.Base.{
  ℕ, zero, suc, ◌+◌, ◌-◌, ◌*◌, ◌/◌, ◌%◌, ◌^◌, ◌≤◌, ◌<◌, ◌≡◌, ◌≢◌, inl, inr, refl, sym, bit_xor,
  subst, true, false, Option, none, some, List, [], ◌∷◌, arith, ltb, leb, ◌==◌, if◌then◌else◌,
  Bool-cases, All, length,
}
use ikaros.Base.Fields.{bit_xor_add}
use ikaros.Heap.{
  Heap, size_of, next_of, header_size, relink, split, take_whole, Reuse, reused, none_fits, reuse,
  returned, aligned, malloc,
}
use ikaros.Heap.Words.{load-store}
use ikaros.Heap.Lists.{Entry, Chain}

-- `freelist->size ^ 0xF`, for a multiple of 16.
xor_size : (size : ℕ) → size % 16 ≡ 0 → bit_xor size 15 ≡ size + 15
xor_size size whole =
    let e : size ≡ size / 16 * 2 ^ 4 = omega (arith, whole) in
    subst (λ s. bit_xor s 15 ≡ s + 15) (sym e) (bit_xor_add 4 (size / 16) 15 (omega arith))

-- The sizes of the entries are multiples of 16.
abbrev pub AreWhole : List Entry → Type 0
AreWhole = All (λ e. e.size % 16 ≡ 0)

-- The first entry with `n` bytes.
unfoldable pub first_fit : ℕ → List Entry → Option Entry
first_fit n [] = none
first_fit n (e ∷ es) = if leb n e.size then some e else first_fit n es

abbrev pub FitLem : Reuse → Option Entry → Type 0
FitLem r none = r ≡ none_fits
FitLem r (some e) = (h' : Heap) × (r ≡ reused h' e.at)

-- The walk over a list of entries with sizes that are multiples of 16 ends after one round for
-- each entry, and takes the first entry that has the bytes, if there is one.
pub reuse-first_fit :
    (fuel n prev block : ℕ) (es : List Entry) (h : Heap)
    → n % 16 ≡ 0
    → Chain h.memory block es
    → AreWhole es
    → length es ≤ fuel
    → FitLem (reuse fuel n prev block h) (first_fit n es)
unfolding reuse first_fit
reuse-first_fit zero n prev block [] h by16 last whole enough = rw last refl
reuse-first_fit (suc fuel) n prev block [] h by16 last whole enough = rw (last, reuse) refl
reuse-first_fit zero n prev block (e ∷ es) h by16 chain whole enough = absurd (omega arith)
reuse-first_fit (suc fuel) n prev block (e ∷ es) h by16 (here, real, below, sized, rest)
      (whole, wholes) enough =
    let some : (e.at == 0) ≡ false = ground (arith, real) in
    let size = xor_size e.size whole in
    elim (Bool-cases (leb n e.size)) [
      | inl fits ↦
          let fits' : leb n (e.size + 15) ≡ true = ground (arith, fits) in
          elim (Bool-cases (ltb 16 (e.size + 15 - n))) [
            | inl large ↦ rw (here, some, sized, size, fits', large, fits) (_, refl)
            | inr close ↦ rw (here, some, sized, size, fits', close, fits) (_, refl)
          ]
      | inr small ↦
          let small' : leb n (e.size + 15) ≡ false = ground (arith, small, whole, by16) in
          rw (here, some, sized, size, small', small)
            (reuse-first_fit fuel n e.at (next_of e.at h.memory) es h by16 rest wholes
              (omega arith))
    ]

aligned-whole : (num_bytes : ℕ) → aligned num_bytes % 16 ≡ 0
unfolding aligned
aligned-whole num_bytes = ground arith

aligned-bound : (num_bytes : ℕ) → num_bytes + 16 ≤ 2 ^ 32 → aligned num_bytes < 2 ^ 32
unfolding aligned
aligned-bound num_bytes small = ground arith

module _ (fuel num_bytes at : ℕ) (real : at ≢ 0) (below : at + header_size < 2 ^ 32)
    (small : num_bytes + 16 ≤ 2 ^ 32) where
  malloc_front :
      (h h' : Heap)
      → h.freelist ≡ at
      → reuse (suc fuel) (aligned num_bytes) 0 at h ≡ reused h' at
      → malloc (suc fuel) num_bytes h ≡ returned h' (at + header_size)
  unfolding malloc
  malloc_front h h' front run =
      let plain : (at + header_size) % 2 ^ 32 ≡ at + header_size = omega (arith, below) in
      let run' =
        subst (λ x. reuse (suc fuel) (aligned num_bytes) 0 x h ≡ reused h' at) (sym front) run in
      rw (run', malloc) (rw plain refl)

  abbrev taken : Heap → Heap
  taken h = take_whole (aligned num_bytes) 0 at h

  reuse_exact :
      (h : Heap)
      → size_of at h.memory ≡ aligned num_bytes
      → reuse (suc fuel) (aligned num_bytes) 0 at h ≡ reused (taken h) at
  unfolding reuse
  reuse_exact h sized =
      let some : (at == 0) ≡ false = ground (arith, real) in
      let size = xor_size (aligned num_bytes) (aligned-whole num_bytes) in
      let fits : leb (aligned num_bytes) (aligned num_bytes + 15) ≡ true = ground arith in
      let close : ltb 16 (aligned num_bytes + 15 - aligned num_bytes) ≡ false = ground arith in
      rw (some, sized, size, fits, close) refl

  -- The first entry has just the bytes: `malloc` returns it, and it stays the first entry, so that
  -- the next `malloc` of as many bytes returns it again.
  pub malloc_twice :
      (h : Heap)
      → h.freelist ≡ at
      → size_of at h.memory ≡ aligned num_bytes
      → (h' : Heap) × (h'' : Heap) × (malloc (suc fuel) num_bytes h
          ≡ returned h' (at + header_size))
        × (malloc (suc fuel) num_bytes h' ≡ returned h'' (at + header_size))
  unfolding take_whole
  malloc_twice h front sized =
      let n = aligned num_bytes in
      let still : size_of at (taken h).memory ≡ n =
        load-store (at + 4) n h.memory (aligned-bound num_bytes small) in
      (
        taken h,
        taken (taken h),
        malloc_front h (taken h) front (reuse_exact h sized),
        malloc_front (taken h) (taken (taken h)) front (reuse_exact (taken h) still),
      )

  -- The first entry is larger by 16 bytes or more: `malloc` returns it, and puts the rest on the
  -- list at the last byte of the entry.
  pub malloc-split :
      (h : Heap) (size : ℕ)
      → h.freelist ≡ at
      → size_of at h.memory ≡ size
      → size % 16 ≡ 0
      → at + size + header_size < 2 ^ 32
      → aligned num_bytes + 16 ≤ size
      → (h' : Heap) × (malloc (suc fuel) num_bytes h ≡ returned h' (at + header_size))
        × (h'.freelist + 1 ≡ at + header_size + size)
  unfolding reuse split relink
  malloc-split h size front sized whole bound larger =
      let n = aligned num_bytes in
      let some : (at == 0) ≡ false = ground (arith, real) in
      let xor = xor_size size whole in
      let fits : leb n (size + 15) ≡ true = ground (arith, larger) in
      let large : ltb 16 (size + 15 - n) ≡ true = ground (arith, larger) in
      let run : reuse (suc fuel) n 0 at h ≡ reused (split n (size + 15) 0 at h) at =
        rw (some, sized, xor, fits, large) refl in
      (split n (size + 15) 0 at h, malloc_front h _ front run, omega (arith, bound))
