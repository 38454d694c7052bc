-- ===== src/Memory/Region/Digits.antt =====
-- `memory_region_setbit` and `memory_region_getbit` as a store of digits.
use ikaros.Base.{
  ℕ, ◌+◌, ◌-◌, ◌*◌, ◌/◌, ◌%◌, ◌^◌, ◌≤◌, ◌<◌, ◌≡◌, ◌≢◌, Bool, true, false, ◌⊎◌, inl, inr, some, List,
  [], ◌∷◌, arith, ◌==◌, if◌then◌else◌, length, All, get_or, set, bit_and, bit_or, lt→ltb,
  length-set,
}
use ikaros.Base.Bits.{
  test_bit, test_bit-bit_or, test_bit-bit_and, test_bit-pow, test_bit-complement, bit_and_pow,
}
use native.Mathlib.Nat.{one-le-pow, pow-le-pow_right}
use ikaros.Memory.Region.{Region, complement, write_bit, setbit, bit, minus_one, read_bit, getbit}
use ikaros.Memory.Region.Words.{bit_at, AreBytes, get_or-set, test_bit-mod_byte, set-AreBytes}
use ikaros.Memory.Region.Walk.{IsRegion}

-- The written byte: digit `k` of it, for the digit `j` that is written.
byte_digit :
    (byte j k : ℕ) (value : Bool)
    → j < 8
    → k < 8
    → test_bit
        (if value then bit_or byte (2 ^ j) % 256 else bit_and byte (complement (2 ^ j)) % 256)
        k
      ≡ (if k == j then value else test_bit byte k)
byte_digit byte j k true hj hk = ground (
  arith,
  test_bit-mod_byte (bit_or byte (2 ^ j)) k,
  test_bit-bit_or byte (2 ^ j) k,
  test_bit-pow j k,
)
byte_digit byte j k false hj hk = ground (
  arith,
  test_bit-mod_byte (bit_and byte (complement (2 ^ j))) k,
  test_bit-bit_and byte (complement (2 ^ j)) k,
  test_bit-complement 32 (2 ^ j) k
      (omega (arith, pow-le-pow_right {n = 2} (omega arith) {i = j} {j = 8} (omega arith)))
      (omega arith),
  test_bit-pow j k,
)

-- The write of one digit of a bitmap.
pub write_bit_lem :
    (bitmap : List ℕ) (offset : ℕ) (value : Bool)
    → AreBytes bitmap
    → offset < 8 * length bitmap
    → (bitmap' : List ℕ) × (write_bit bitmap offset value ≡ some bitmap')
      × ((p : ℕ) → bit_at bitmap' p ≡ (if p == offset then value else bit_at bitmap p))
      × AreBytes bitmap'
      × (length bitmap' ≡ length bitmap)
unfolding write_bit
write_bit_lem bitmap offset value bytes h =
    let byte = get_or bitmap (offset / 8) 0 in
    let j = offset - offset / 8 * 8 in
    let new =
      if value then bit_or byte (2 ^ j) % 256 else bit_and byte (complement (2 ^ j)) % 256 in
    (
      set bitmap (offset / 8) new,
      rw (lt→ltb (offset / 8) (length bitmap) (omega arith)),
      λ p. ground (
        arith,
        get_or-set bitmap (offset / 8) (p / 8) new (omega arith),
        byte_digit byte j (p % 8) value (omega arith) (omega arith),
      ),
      set-AreBytes bitmap (offset / 8) new bytes (ground arith),
      length-set bitmap (offset / 8) new,
    )

-- The read of one digit.
pub read_bit_lem :
    (bitmap : List ℕ) (offset : ℕ)
    → offset < 8 * length bitmap
    → read_bit bitmap offset ≡ bit (bit_at bitmap offset)
unfolding read_bit
read_bit_lem bitmap offset h =
    let j = offset - offset / 8 * 8 in
    let e : j ≡ offset % 8 = omega arith in
    rw (lt→ltb (offset / 8) (length bitmap) (omega arith), e)
      (ground (
        arith,
        bit_and_pow (get_or bitmap (offset / 8) 0) (offset % 8),
        one-le-pow (offset % 8) 2 (omega arith),
      ))

-- `page` lies in a region of the chain, at least `gap` pages behind its base, and the walk of
-- `setbit` and `getbit` stops at that region.
abbrev pub Covers : ℕ → List Region → ℕ → Type 0
Covers gap [] page = ⊥
Covers gap (r ∷ rs) page =
    (r.base + gap ≤ page) × (page < r.base + r.length)
    ⊎ (r.base + r.length ≤ page) × Covers gap rs page

-- The chain `new` is `old` with the digit of `page` set to `value`.
pub record Written (old : List Region) (page : ℕ) (value : Bool) (new : List Region) : Type 0 where
  pub done : setbit old page value ≡ some new
  pub regions : All IsRegion new
  pub others : (q : ℕ) → q ≢ page → getbit new q ≡ getbit old q
  pub reads : Covers 1 old page → getbit new page ≡ bit value

module _ (r : Region) (rs : List Region) (page : ℕ) (value : Bool) (is : IsRegion r)
    (rest : All IsRegion rs) where
  Written-here :
      r.base ≤ page
      → page < r.base + r.length
      → (new : List Region) × Written (r ∷ rs) page value new
  unfolding setbit getbit
  Written-here lo hi =
      let (bitmap', run, digit, bytes, same) =
        write_bit_lem r.bitmap (page - r.base) value is.bytes (omega (arith, is.room)) in
      let r' : Region = record r { bitmap = bitmap' } in
      (
        r' ∷ rs,
        record {
          done = ground (arith, is.bounded, run);
          regions = (
            record { bytes = bytes; room = omega (arith, same, is.room); bounded = is.bounded },
            rest,
          );
          others = λ q ne. ground (
            arith,
            is.bounded,
            is.room,
            same,
            digit (q - r.base),
            read_bit_lem bitmap' (q - r.base),
            read_bit_lem r.bitmap (q - r.base),
          );
          reads = λ c. ground (
            arith,
            is.bounded,
            is.room,
            same,
            digit (page - r.base),
            read_bit_lem bitmap' (page - r.base),
          );
        },
      )

  Written-behind :
      r.base + r.length ≤ page
      → (new : List Region) → Written rs page value new
      → Written (r ∷ rs) page value (r ∷ new)
  unfolding setbit getbit
  Written-behind past new w = record {
    done = ground (arith, is.bounded, w.done);
    regions = (is, w.regions);
    others = λ q ne. ground (arith, w.others q ne);
    reads = λ c. ground (arith, is.bounded, w.reads);
  }

-- In a chain of well-formed regions that cover `page`, the write of its digit succeeds and leaves the
-- regions well formed; every other page reads as before, and `page` reads as the value unless it is
-- the first page of its region.
pub setbit-Written :
    (chain : List Region) (page : ℕ) (value : Bool)
    → All IsRegion chain
    → Covers 0 chain page
    → (new : List Region) × Written chain page value new
setbit-Written [] page value is c = absurd c
setbit-Written (r ∷ rs) page value (is, rest) (inl (lo, hi)) =
    Written-here r rs page value is rest (omega arith) hi
setbit-Written (r ∷ rs) page value (is, rest) (inr (past, c)) =
    let (new, w) = setbit-Written rs page value rest c in
    (r ∷ new, Written-behind r rs page value is rest past new w)

-- In a chain of well-formed regions, the first one not empty, the write of the first page of the
-- first region succeeds, and that page then reads as -1, whatever was written.
pub getbit_at_base :
    (r : Region) (rs : List Region) (value : Bool)
    → IsRegion r
    → All IsRegion rs
    → 0 < r.length
    → (new : List Region) × (setbit (r ∷ rs) r.base value ≡ some new)
      × (getbit new r.base ≡ minus_one)
unfolding setbit getbit
getbit_at_base r rs value is rest h =
    let (bitmap', run, _, _, _) =
      write_bit_lem r.bitmap (r.base - r.base) value is.bytes (omega (arith, is.room)) in
    (
      record r { bitmap = bitmap' } ∷ rs,
      ground (arith, is.bounded, run),
      ground (arith, is.bounded),
    )
