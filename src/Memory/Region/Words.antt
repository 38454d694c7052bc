-- ===== src/Memory/Region/Words.antt =====
-- The bitmap as digits: its bytes and its 32-bit words show the same ones.
use ikaros.Base.{
  ℕ, zero, suc, ◌+◌, ◌-◌, ◌*◌, ◌/◌, ◌%◌, ◌^◌, ◌<◌, ◌≡◌, refl, Bool, List, [], ◌∷◌, arith, ltb, ◌==◌,
  if◌then◌else◌, length, get_or, set, All, length-set,
}
use ikaros.Base.Bits.{test_bit, test_bit-add_byte}
use ikaros.Memory.Region.{word, store_word}

-- Digit `p` of a bitmap.
abbrev pub bit_at : List ℕ → ℕ → Bool
bit_at bitmap p = test_bit (get_or bitmap (p / 8) 0) (p % 8)

abbrev pub AreBytes : List ℕ → Type 0
AreBytes = All (λ b. b < 256)

pub get_or-lt : (bitmap : List ℕ) (i : ℕ) → AreBytes bitmap → get_or bitmap i 0 < 256
get_or-lt [] i h = omega arith
get_or-lt (x ∷ xs) zero h = h.0
get_or-lt (x ∷ xs) (suc i) h = get_or-lt xs i h.1

pub set-AreBytes :
    (bitmap : List ℕ) (i v : ℕ) → AreBytes bitmap → v < 256 → AreBytes (set bitmap i v)
set-AreBytes [] i v h lt = tt
set-AreBytes (x ∷ xs) zero v h lt = (lt, h.1)
set-AreBytes (x ∷ xs) (suc i) v h lt = (h.0, set-AreBytes xs i v h.1 lt)

pub word-lt : (bitmap : List ℕ) (i : ℕ) → AreBytes bitmap → word bitmap i < 2 ^ 32
unfolding word
word-lt bitmap i h = omega (
  arith,
  get_or-lt bitmap (4 * i) h,
  get_or-lt bitmap (4 * i + 1) h,
  get_or-lt bitmap (4 * i + 2) h,
  get_or-lt bitmap (4 * i + 3) h,
)

-- Digit `k` of four bytes.
four_bytes :
    (a b c d k : ℕ)
    → a < 256
    → b < 256
    → c < 256
    → test_bit (a + 256 * (b + 256 * (c + 256 * d))) k ≡ (
        if ltb k 8
        then test_bit a k
        else if ltb k 16
        then test_bit b (k - 8)
        else if ltb k 24
        then test_bit c (k - 16)
        else test_bit d (k - 24))
four_bytes a b c d k ha hb hc = ground (
  arith,
  test_bit-add_byte a (b + 256 * (c + 256 * d)) k ha,
  test_bit-add_byte b (c + 256 * d) (k - 8) hb,
  test_bit-add_byte c d (k - 8 - 8) hc,
)

pub test_bit-word :
    (bitmap : List ℕ) (i k : ℕ)
    → AreBytes bitmap
    → k < 32
    → test_bit (word bitmap i) k ≡ bit_at bitmap (i * 32 + k)
unfolding word
test_bit-word bitmap i k h hk = ground (
  arith,
  four_bytes (get_or bitmap (4 * i) 0) (get_or bitmap (4 * i + 1) 0) (get_or bitmap (4 * i + 2) 0)
      (get_or bitmap (4 * i + 3) 0) k (get_or-lt bitmap (4 * i) h) (get_or-lt bitmap (4 * i + 1) h)
      (get_or-lt bitmap (4 * i + 2) h),
)

-- A byte of the low part of a word.
pub test_bit-mod_byte : (x k : ℕ) → k < 8 → test_bit (x % 256) k ≡ test_bit x k
test_bit-mod_byte x k h = ground (arith, test_bit-add_byte (x % 256) (x / 256) k)

pub test_bit-shift : (x k : ℕ) → test_bit (x / 256) k ≡ test_bit x (k + 8)
test_bit-shift x k = ground (arith, test_bit-add_byte (x % 256) (x / 256) (k + 8))

pub get_or-set :
    (xs : List ℕ) (i j v : ℕ)
    → i < length xs
    → get_or (set xs i v) j 0 ≡ (if i == j then v else get_or xs j 0)
get_or-set [] i j v h = elim h [ ]
get_or-set (x ∷ xs) zero zero v h = refl
get_or-set (x ∷ xs) zero (suc j) v h = ground arith
get_or-set (x ∷ xs) (suc i) zero v h = ground arith
get_or-set (x ∷ xs) (suc i) (suc j) v h = ground (arith, get_or-set xs i j v (omega arith))

-- The byte of index `j` after the write of word `i`.
get_or-store_word :
    (bitmap : List ℕ) (i w j : ℕ)
    → 4 * i + 3 < length bitmap
    → get_or (store_word bitmap i w) j 0 ≡ (
        if 4 * i + 3 == j
        then w / 256 / 256 / 256 % 256
        else if 4 * i + 2 == j
        then w / 256 / 256 % 256
        else if 4 * i + 1 == j
        then w / 256 % 256
        else if 4 * i == j
        then w % 256
        else get_or bitmap j 0)
unfolding store_word
get_or-store_word bitmap i w j h =
    let b0 = w % 256 in
    let b1 = w / 256 % 256 in
    let b2 = w / 256 / 256 % 256 in
    let b3 = w / 256 / 256 / 256 % 256 in
    let s0 = set bitmap (4 * i) b0 in
    let s1 = set s0 (4 * i + 1) b1 in
    let s2 = set s1 (4 * i + 2) b2 in
    let l0 = length-set bitmap (4 * i) b0 in
    let l1 = length-set s0 (4 * i + 1) b1 in
    let l2 = length-set s1 (4 * i + 2) b2 in
    rw (
      get_or-set s2 (4 * i + 3) j b3 (omega (arith, l0, l1, l2)),
      get_or-set s1 (4 * i + 2) j b2 (omega (arith, l0, l1, l2)),
      get_or-set s0 (4 * i + 1) j b1 (omega (arith, l0, l1, l2)),
      get_or-set bitmap (4 * i) j b0 (omega (arith, l0, l1, l2)),
    )

pub length-store_word : (bitmap : List ℕ) (i w : ℕ) → length (store_word bitmap i w) ≡ length bitmap
unfolding store_word
length-store_word bitmap i w = simp length-set

pub store_word-AreBytes :
    (bitmap : List ℕ) (i w : ℕ) → AreBytes bitmap → AreBytes (store_word bitmap i w)
unfolding store_word
store_word-AreBytes bitmap i w h =
    set-AreBytes _ _ _
      (set-AreBytes _ _ _
        (set-AreBytes _ _ _ (set-AreBytes bitmap _ _ h (omega arith)) (omega arith)) (omega arith))
      (omega arith)

-- The write of a word changes the 32 digits of that word, and nothing else.
pub bit_at-store_word :
    (bitmap : List ℕ) (i w p : ℕ)
    → 4 * i + 3 < length bitmap
    → bit_at (store_word bitmap i w) p
      ≡ (if p / 32 == i then test_bit w (p % 32) else bit_at bitmap p)
bit_at-store_word bitmap i w p h = ground (
  arith,
  get_or-store_word bitmap i w (p / 8) h,
  test_bit-mod_byte w (p % 8),
  test_bit-mod_byte (w / 256) (p % 8),
  test_bit-mod_byte (w / 256 / 256) (p % 8),
  test_bit-mod_byte (w / 256 / 256 / 256) (p % 8),
  test_bit-shift w (p % 8),
  test_bit-shift (w / 256) (p % 8),
  test_bit-shift w (p % 8 + 8),
  test_bit-shift (w / 256 / 256) (p % 8),
  test_bit-shift (w / 256) (p % 8 + 8),
  test_bit-shift w (p % 8 + 8 + 8),
)
