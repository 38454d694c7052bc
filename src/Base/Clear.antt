-- ===== src/Base/Clear.antt =====
-- `& ~` with a mask of one digit.
use Prim.Native.Nat.{ℕ, zero, suc, ◌+◌, ◌-◌, ◌*◌, ◌/◌, ◌%◌, ◌^◌, ◌≤◌, ◌<◌, min, digits, bit_and}
use Prim.Native.Nat.{bit_and-bitwise}
use mathlib.Core.Path.{◌≡◌, refl}
use native.Mathlib.Omega.{arith}
use native.Mathlib.Nat.{pow-suc, le_refl, pow-le-pow_right, one-le-pow}
use ikaros.Base.Tests.{if◌then◌else◌, ◌==◌, Bool-cases}
use ikaros.Base.Bits.{test_bit, zero-test_bit}
use mathlib.Core.Logic.{inl, inr}

ones_digits : (n a w : ℕ) → a ≤ n → a < 2 ^ w → digits (λ y. 0) min n a (2 ^ w - 1) ≡ a
ones_digits zero zero w h low = refl
ones_digits zero (suc a) w h low = absurd (omega arith)
ones_digits (suc n) zero w h low = refl
ones_digits (suc n) (suc a) zero h low = absurd (omega arith)
ones_digits (suc n) (suc a) (suc w) h low =
    let double = pow-suc 2 w in
    let half : (2 ^ suc w - 1) / 2 ≡ 2 ^ w - 1 = omega (arith, double) in
    let odd : (2 ^ suc w - 1) % 2 ≡ 1 = omega (arith, double) in
    rw (half, odd)
      (omega (arith, ones_digits n (suc a / 2) w (omega arith) (omega (arith, double))))

clear_digits :
    (n a s w : ℕ)
    → a ≤ n
    → a < 2 ^ w
    → s < w
    → digits (λ y. 0) min n a (2 ^ w - 1 - 2 ^ s) + (if test_bit a s then 2 ^ s else 0) ≡ a
unfolding test_bit
clear_digits zero zero s w h low lt = rw (zero-test_bit s) refl
clear_digits zero (suc a) s w h low lt = absurd (omega arith)
clear_digits (suc n) zero s w h low lt = rw (zero-test_bit s) refl
clear_digits (suc n) (suc a) s zero h low lt = absurd (omega arith)
clear_digits (suc n) (suc a) zero (suc w) h low lt =
    let double = pow-suc 2 w in
    let half : (2 ^ suc w - 1 - 1) / 2 ≡ 2 ^ w - 1 = omega (arith, double) in
    let even : (2 ^ suc w - 1 - 1) % 2 ≡ 0 = omega (arith, double) in
    rw (half, even)
      (ground (arith, ones_digits n (suc a / 2) w (omega arith) (omega (arith, double))))
clear_digits (suc n) (suc a) (suc s) (suc w) h low lt =
    let double = pow-suc 2 w in
    let double_s = pow-suc 2 s in
    let ih = clear_digits n (suc a / 2) s w (omega arith) (omega (arith, double)) (omega arith) in
    let room : 2 ^ s < 2 ^ w = omega (
      arith,
      pow-le-pow_right {n = 2} (omega arith) {i = suc s} {j = w} (omega arith),
      double_s,
      one-le-pow s 2 (omega arith),
    ) in
    let half : (2 ^ suc w - 1 - 2 ^ suc s) / 2 ≡ 2 ^ w - 1 - 2 ^ s =
      omega (arith, double, double_s, room) in
    let odd : (2 ^ suc w - 1 - 2 ^ suc s) % 2 ≡ 1 = omega (arith, double, double_s, room) in
    rw (half, odd)
      (elim (Bool-cases (test_bit (suc a / 2) s)) [
        | inl set ↦ let ih1 = rw set at ih in rw set (omega (arith, ih1, double_s))
        | inr clear ↦ let ih1 = rw clear at ih in rw clear (omega (arith, ih1))
      ])

-- `a & ~2^s` in `w` digits takes digit `s` away.
pub bit_and-clear :
    (w s a : ℕ)
    → a < 2 ^ w
    → s < w
    → bit_and a (2 ^ w - 1 - 2 ^ s) + (if test_bit a s then 2 ^ s else 0) ≡ a
bit_and-clear w s a low lt = rw bit_and-bitwise (clear_digits a a s w (le_refl a) low lt)

-- The lowest digit of a multiple of `2 ^ s`.
pub test_bit-multiple : (s c : ℕ) → test_bit (c * 2 ^ s) s ≡ (c % 2 == 1)
unfolding test_bit
test_bit-multiple zero c = let e : c * 1 ≡ c = omega arith in rw e refl
test_bit-multiple (suc s) c =
    let half : c * 2 ^ suc s / 2 ≡ c * 2 ^ s =
      let e : c * 2 ^ suc s ≡ c * 2 ^ s * 2 = rw (pow-suc 2 s) (omega arith) in omega (arith, e) in
    rw half (test_bit-multiple s c)
