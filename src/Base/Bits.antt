-- ===== src/Base/Bits.antt =====
-- Binary digits of native numbers: the bitwise operators of the source read off digit by digit.
use Prim.Native.Nat.{
  ℕ, zero, suc, ◌+◌, ◌-◌, ◌*◌, ◌/◌, ◌%◌, ◌^◌, ◌≤◌, ◌<◌, min, max, digits, bit_and, bit_or,
}
use Prim.Native.Nat.{bit_and-bitwise, bit_or-bitwise}
use mathlib.Core.Path.{◌≡◌, refl}
use mathlib.Core.Bool.{Bool, false, not, ◌&&◌, ◌||◌}
use native.Mathlib.Omega.{arith}
use native.Mathlib.Nat.{pow-suc, le_refl}
use ikaros.Base.Tests.{ltb, ◌==◌, if◌then◌else◌}

-- Binary digit `k` of `a`.
unfoldable pub test_bit : ℕ → ℕ → Bool
test_bit a zero = (a % 2) == 1
test_bit a (suc k) = test_bit (a / 2) k

pub zero-test_bit : (k : ℕ) → test_bit 0 k ≡ false
unfolding test_bit
zero-test_bit zero = refl
zero-test_bit (suc k) = zero-test_bit k

half : (d m : ℕ) → m < 2 → (d * 2 + m) / 2 ≡ d
half d m h = omega arith

or_digits :
    (n a b k : ℕ) → a ≤ n → test_bit (digits (λ y. y) max n a b) k ≡ (test_bit a k || test_bit b k)
unfolding test_bit
or_digits zero zero b k h = ground (arith, zero-test_bit k)
or_digits zero (suc a) b k h = absurd (omega arith)
or_digits (suc n) zero b k h = ground (arith, zero-test_bit k)
or_digits (suc n) (suc a) b zero h = ground arith
or_digits (suc n) (suc a) b (suc k) h =
    rw (half (digits (λ y. y) max n (suc a / 2) (b / 2)) (max (suc a % 2) (b % 2)) (omega arith))
      (or_digits n (suc a / 2) (b / 2) k (omega arith))

-- `|` digit by digit.
pub test_bit-bit_or : (a b k : ℕ) → test_bit (bit_or a b) k ≡ (test_bit a k || test_bit b k)
test_bit-bit_or a b k = rw bit_or-bitwise (or_digits a a b k (le_refl a))

and_digits :
    (n a b k : ℕ) → a ≤ n → test_bit (digits (λ y. 0) min n a b) k ≡ (test_bit a k && test_bit b k)
unfolding test_bit
and_digits zero zero b k h = ground (arith, zero-test_bit k)
and_digits zero (suc a) b k h = absurd (omega arith)
and_digits (suc n) zero b k h = ground (arith, zero-test_bit k)
and_digits (suc n) (suc a) b zero h = ground arith
and_digits (suc n) (suc a) b (suc k) h =
    rw (half (digits (λ y. 0) min n (suc a / 2) (b / 2)) (min (suc a % 2) (b % 2)) (omega arith))
      (and_digits n (suc a / 2) (b / 2) k (omega arith))

-- `&` digit by digit.
pub test_bit-bit_and : (a b k : ℕ) → test_bit (bit_and a b) k ≡ (test_bit a k && test_bit b k)
test_bit-bit_and a b k = rw bit_and-bitwise (and_digits a a b k (le_refl a))

and_zero_digits : (n a : ℕ) → digits (λ y. 0) min n a 0 ≡ 0
and_zero_digits zero a = refl
and_zero_digits (suc n) zero = refl
and_zero_digits (suc n) (suc a) = omega (arith, and_zero_digits n (suc a / 2))

mask_digits :
    (n a j : ℕ) → a ≤ n → digits (λ y. 0) min n a (2 ^ j) ≡ (if test_bit a j then 2 ^ j else 0)
unfolding test_bit
mask_digits zero zero j h = ground (arith, zero-test_bit j)
mask_digits zero (suc a) j h = absurd (omega arith)
mask_digits (suc n) zero j h = ground (arith, zero-test_bit j)
mask_digits (suc n) (suc a) zero h = ground (arith, and_zero_digits n (suc a / 2))
mask_digits (suc n) (suc a) (suc j) h =
    let ih = mask_digits n (suc a / 2) j (omega arith) in
    let e : 2 ^ suc j / 2 ≡ 2 ^ j = omega (arith, pow-suc 2 j) in
    rw e (ground (arith, pow-suc 2 j, ih))

-- A mask of one digit leaves that digit.
pub bit_and_pow : (a j : ℕ) → bit_and a (2 ^ j) ≡ (if test_bit a j then 2 ^ j else 0)
bit_and_pow a j = rw bit_and-bitwise (mask_digits a a j (le_refl a))

pub test_bit-pow : (j k : ℕ) → test_bit (2 ^ j) k ≡ (k == j)
unfolding test_bit
test_bit-pow zero zero = refl
test_bit-pow zero (suc k) = ground (arith, zero-test_bit k)
test_bit-pow (suc j) zero = ground (arith, pow-suc 2 j)
test_bit-pow (suc j) (suc k) =
    let e : 2 ^ suc j / 2 ≡ 2 ^ j = omega (arith, pow-suc 2 j) in
    rw e (ground (arith, test_bit-pow j k))

-- The digits of `~x` in a word of `n` digits.
pub test_bit-complement :
    (n x k : ℕ) → x < 2 ^ n → k < n → test_bit (2 ^ n - 1 - x) k ≡ not (test_bit x k)
unfolding test_bit
test_bit-complement zero x k hx hk = elim hk [ ]
test_bit-complement (suc n) x zero hx hk = ground (arith, pow-suc 2 n)
test_bit-complement (suc n) x (suc k) hx hk =
    let e : (2 ^ suc n - 1 - x) / 2 ≡ 2 ^ n - 1 - x / 2 = omega (arith, pow-suc 2 n) in
    rw e (test_bit-complement n (x / 2) k (omega (arith, pow-suc 2 n)) (omega arith))

-- A byte below the rest of a word.
pub test_bit-add_byte :
    (x y k : ℕ)
    → x < 256
    → test_bit (x + 256 * y) k ≡ (if ltb k 8 then test_bit x k else test_bit y (k - 8))
unfolding test_bit
test_bit-add_byte x y zero h = ground arith
test_bit-add_byte x y (suc zero) h = ground arith
test_bit-add_byte x y (suc (suc zero)) h = ground arith
test_bit-add_byte x y (suc (suc (suc zero))) h = ground arith
test_bit-add_byte x y (suc (suc (suc (suc zero)))) h = ground arith
test_bit-add_byte x y (suc (suc (suc (suc (suc zero))))) h = ground arith
test_bit-add_byte x y (suc (suc (suc (suc (suc (suc zero)))))) h = ground arith
test_bit-add_byte x y (suc (suc (suc (suc (suc (suc (suc zero))))))) h = ground arith
test_bit-add_byte x y (suc (suc (suc (suc (suc (suc (suc (suc k)))))))) h =
    let e : (x + 256 * y) / 2 / 2 / 2 / 2 / 2 / 2 / 2 / 2 ≡ y = omega arith in
    let e' : suc (suc (suc (suc (suc (suc (suc (suc k))))))) - 8 ≡ k = omega arith in
    rw (e, e') (ground arith)

-- All digits zero: the number is zero.
pub eq_zero_of_bits : (n x : ℕ) → x < 2 ^ n → ((k : ℕ) → k < n → test_bit x k ≡ false) → x ≡ 0
unfolding test_bit
eq_zero_of_bits zero x h all = omega arith
eq_zero_of_bits (suc n) x h all =
    let low = all 0 (omega arith) in
    let ih =
      eq_zero_of_bits n (x / 2) (omega (arith, pow-suc 2 n)) (λ k hk. all (suc k) (omega arith)) in
    ground arith
