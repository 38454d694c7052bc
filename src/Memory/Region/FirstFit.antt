-- ===== src/Memory/Region/FirstFit.antt =====
-- The loop of `memory_region_find_and_set` over one bitmap, with `ffs`.
use ikaros.Base.{
  ℕ, zero, suc, ◌+◌, ◌-◌, ◌*◌, ◌/◌, ◌%◌, ◌^◌, ◌≤◌, ◌<◌, ◌≡◌, ◌≢◌, refl, true, false, not, inl, inr,
  some, List, arith, ltb, ◌==◌, Bool-cases, ltb→lt, lt→ltb, ap, length, bit_or,
}
use ikaros.Base.Bits.{
  test_bit, zero-test_bit, test_bit-bit_or, test_bit-pow, test_bit-complement, bit_and_pow,
}
use native.Mathlib.Nat.{pow-suc, one-le-pow, pow-le-pow_right}
use ikaros.Memory.Region.{complement, ffs_loop, ffs, word, store_word, Scan, hit, miss, wild, scan}
use ikaros.Memory.Region.Words.{
  bit_at, AreBytes, word-lt, test_bit-word, bit_at-store_word, length-store_word,
  store_word-AreBytes,
}

-- What `ffs` finds: the lowest digit, counted from 1.
pub record Lowest (x r : ℕ) : Type 0 where
  pub counted : 1 ≤ r
  pub one : test_bit x (r - 1) ≡ true
  pub zeros : (k : ℕ) → k < r - 1 → test_bit x k ≡ false

-- `t <<= 1` while the mask is below the sign digit.
double_mask : (j : ℕ) → j < 31 → 2 ^ j * 2 % 2 ^ 32 ≡ 2 ^ suc j
double_mask j h =
    omega (arith, pow-suc 2 j, pow-le-pow_right {n = 2} (omega arith) {i = suc j} {j = 31} h)

abbrev Finds : ℕ → ℕ → ℕ → ℕ → Type 0
Finds fuel x t s = (r : ℕ) × (ffs_loop fuel x t s ≡ some r) × Lowest x r × (r ≤ 32)

ffs_loop-Lowest :
    (fuel x j m : ℕ)
    → j + fuel ≡ 32
    → ((k : ℕ) → k < j → test_bit x k ≡ false)
    → j ≤ m
    → m < 32
    → test_bit x m ≡ true
    → Finds fuel x (2 ^ j) (j + 1)
unfolding ffs_loop
ffs_loop-Lowest zero x j m e low jm hm one = absurd (omega arith)
ffs_loop-Lowest (suc fuel) x j m e low jm hm one = elim (Bool-cases (test_bit x j)) [
  | inl here ↦
      let back : j + 1 - 1 ≡ j = omega arith in
      (
        j + 1,
        ground (arith, bit_and_pow x j, one-le-pow j 2 (omega arith)),
        record { counted = omega arith; one = rw back here; zeros = λ k hk. low k (omega arith) },
        omega arith,
      )
  | inr gone ↦
      let below : j < m = ground arith in
      let grown : (k : ℕ) → k < suc j → test_bit x k ≡ false = λ k hk. ground (arith, low k) in
      let (r, run, lowest, small) =
        ffs_loop-Lowest fuel x (suc j) m (omega arith) grown below hm one in
      (r, ground (arith, bit_and_pow x j, double_mask j (omega arith), run), lowest, small)
]

-- With a digit set below 32, `ffs` ends within its 32 rounds and finds the lowest one.
pub ffs-Lowest :
    (x m : ℕ) → m < 32 → test_bit x m ≡ true → (r : ℕ) × (ffs x ≡ some r) × Lowest x r × (r ≤ 32)
unfolding ffs
ffs-Lowest x m hm one = ffs_loop-Lowest 32 x 0 m refl (λ k hk. elim hk [ ]) (omega arith) hm one

-- A word that is not zero has a digit.
some_digit : (n x : ℕ) → x < 2 ^ n → x ≢ 0 → (m : ℕ) × (m < n) × (test_bit x m ≡ true)
unfolding test_bit
some_digit zero x h ne = absurd (ne (omega arith))
some_digit (suc n) x h ne = elim (Bool-cases (x % 2 == 1)) [
  | inl odd ↦ (0, omega arith, odd)
  | inr even ↦
      let (m, hm, e) = some_digit n (x / 2) (omega (arith, pow-suc 2 n)) (ground arith) in
      (suc m, omega arith, e)
]

-- The effect of one hit: digit `off` was clear and is set, and no other digit changed.
pub record Takes (bitmap bitmap' : List ℕ) (off : ℕ) : Type 0 where
  pub was_clear : bit_at bitmap off ≡ false
  pub now_set : bit_at bitmap' off ≡ true
  pub others : (p : ℕ) → p ≢ off → bit_at bitmap' p ≡ bit_at bitmap p
  pub bytes : AreBytes bitmap'
  pub same_length : length bitmap' ≡ length bitmap

-- Digits `lo` to `hi` are all set.
abbrev pub Full : List ℕ → ℕ → ℕ → Type 0
Full bitmap lo hi = (p : ℕ) → lo ≤ p → p < hi → bit_at bitmap p ≡ true

-- The outcome of looking at `n` words from word `i` on.
abbrev pub ScanLem : List ℕ → ℕ → ℕ → Scan → Type 0
ScanLem bitmap n i (hit bitmap' off) =
    Takes bitmap bitmap' off × (off < (i + n) * 32) × Full bitmap (i * 32) off
ScanLem bitmap n i miss = Full bitmap (i * 32) ((i + n) * 32)
ScanLem bitmap n i wild = ⊥

module _ (bitmap : List ℕ) (i : ℕ) (bytes : AreBytes bitmap) where
  -- `~bitmap[i]` shows the clear digits.
  pub complement_digit :
      (k : ℕ) → k < 32 → test_bit (complement (word bitmap i)) k ≡ not (bit_at bitmap (i * 32 + k))
  complement_digit k h =
      rw (test_bit-complement 32 (word bitmap i) k (word-lt bitmap i bytes) h)
        (ap not (test_bit-word bitmap i k bytes h))

  set_of_zero :
      (k lo : ℕ)
      → k < 32
      → lo ≡ i * 32 + k
      → test_bit (complement (word bitmap i)) k ≡ false
      → bit_at bitmap lo ≡ true
  set_of_zero k lo h e off = rw e (ground (arith, complement_digit k h))

  -- A word whose complement is zero is full.
  Full-word : complement (word bitmap i) ≡ 0 → Full bitmap (i * 32) ((i + 1) * 32)
  Full-word e p lo hi =
      set_of_zero (p - i * 32) p (omega arith) (omega arith) (rw e (zero-test_bit (p - i * 32)))

  clear_digit :
      (r : ℕ)
      → Lowest (complement (word bitmap i)) r
      → r ≤ 32
      → (bit_at bitmap (i * 32 + (r - 1)) ≡ false) × Full bitmap (i * 32) (i * 32 + (r - 1))
  clear_digit r low small = (
    ground (arith, low.counted, low.one, complement_digit (r - 1)),
    λ p lo hi.
        set_of_zero (p - i * 32) p (omega (arith, low.counted)) (omega arith)
          (low.zeros (p - i * 32) (omega arith)),
  )

  take_bit-Takes :
      (r : ℕ)
      → Lowest (complement (word bitmap i)) r
      → r ≤ 32
      → 4 * i + 3 < length bitmap
      → Takes bitmap (store_word bitmap i (bit_or (word bitmap i) (2 ^ (r - 1)))) (i * 32 + (r - 1))
  take_bit-Takes r low small fits =
      let y = r - 1 in
      let w = bit_or (word bitmap i) (2 ^ y) in
      record {
        was_clear = (clear_digit r low small).0;
        now_set = ground (
          arith,
          low.counted,
          bit_at-store_word bitmap i w (i * 32 + y) fits,
          test_bit-bit_or (word bitmap i) (2 ^ y) y,
          test_bit-pow y y,
        );
        others = λ p ne. ground (
          arith,
          low.counted,
          bit_at-store_word bitmap i w p fits,
          test_bit-bit_or (word bitmap i) (2 ^ y) (p % 32),
          test_bit-pow y (p % 32),
          test_bit-word bitmap i (p % 32) bytes,
        );
        bytes = store_word-AreBytes bitmap i w bytes;
        same_length = length-store_word bitmap i w;
      }

Full-append : (bitmap : List ℕ) (a b c : ℕ) → Full bitmap a b → Full bitmap b c → Full bitmap a c
Full-append bitmap a b c f g p lo hi = elim (Bool-cases (ltb p b)) [
  | inl below ↦ f p lo (ltb→lt p b below)
  | inr above ↦ g p (ground arith) hi
]

ScanLem-later :
    (bitmap : List ℕ) (n i : ℕ) (s : Scan)
    → Full bitmap (i * 32) ((i + 1) * 32)
    → ScanLem bitmap n (i + 1) s
    → ScanLem bitmap (suc n) i s
ScanLem-later bitmap n i (hit bitmap' off) full (takes, below, before) =
    (takes, omega arith, Full-append bitmap (i * 32) ((i + 1) * 32) off full before)
ScanLem-later bitmap n i miss full all = λ p lo hi.
    Full-append bitmap (i * 32) ((i + 1) * 32) ((i + 1 + n) * 32) full all p lo (omega arith)
ScanLem-later bitmap n i wild full never = never

-- The scan of words inside the bitmap takes the lowest clear digit, or all of them are set.
pub scan_lem :
    (n i : ℕ) (bitmap : List ℕ)
    → AreBytes bitmap
    → 4 * (i + n) ≤ length bitmap
    → ScanLem bitmap n i (scan n i bitmap)
unfolding scan
scan_lem zero i bitmap bytes fits = λ p lo hi. absurd (omega arith)
scan_lem (suc n) i bitmap bytes fits =
    rw (lt→ltb (4 * i + 3) (length bitmap) (omega arith))
      (elim (Bool-cases (complement (word bitmap i) == 0)) [
        | inl zero_word ↦ rw zero_word (
            ScanLem-later bitmap n i (scan n (i + 1) bitmap)
              (Full-word bitmap i bytes (ground arith))
              (scan_lem n (i + 1) bitmap bytes (omega arith)))
        | inr nonzero ↦
            let x = complement (word bitmap i) in
            let (m, hm, one) = some_digit 32 x (omega arith) (ground arith) in
            let (r, run, low, small) = ffs-Lowest x m hm one in
            rw (nonzero, run)
              (
                take_bit-Takes bitmap i bytes r low small (omega arith),
                omega arith,
                (clear_digit bitmap i bytes r low small).1,
              )
      ])
