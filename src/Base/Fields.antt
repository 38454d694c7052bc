-- ===== src/Base/Fields.antt =====
-- `|` and `^` of numbers that share no binary digit.
use Prim.Native.Nat.{
  ℕ, zero, suc, ◌+◌, ◌*◌, ◌/◌, ◌%◌, ◌^◌, ◌≤◌, ◌<◌, max, differ, digits, bit_or, bit_xor,
}
use Prim.Native.Nat.{bit_or-bitwise, bit_xor-bitwise}
use mathlib.Core.Path.{◌≡◌, refl, ap}
use native.Mathlib.Omega.{arith}
use native.Mathlib.Nat.{pow-suc, le_refl, div-div-eq-div-mul}

double_lem : (c p : ℕ) → c * (p * 2) ≡ 2 * (c * p)
double_lem c p = omega arith

-- An operation on two digits that leaves a digit alone against 0.
module _ (op : ℕ → ℕ → ℕ) (op-zero : (x : ℕ) → x < 2 → op x 0 ≡ x)
    (zero-op : (y : ℕ) → y < 2 → op 0 y ≡ y) where
  -- The count of digits does not matter where it is enough.
  digits-enough :
      (n m a b : ℕ) → a ≤ n → a ≤ m → digits (λ y. y) op n a b ≡ digits (λ y. y) op m a b
  digits-enough zero zero a b hn hm = refl
  digits-enough zero (suc m) zero b hn hm = refl
  digits-enough zero (suc m) (suc a) b hn hm = absurd (omega arith)
  digits-enough (suc n) zero zero b hn hm = refl
  digits-enough (suc n) zero (suc a) b hn hm = absurd (omega arith)
  digits-enough (suc n) (suc m) zero b hn hm = refl
  digits-enough (suc n) (suc m) (suc a) b hn hm =
      rw (digits-enough n m (suc a / 2) (b / 2) (omega arith) (omega arith)) refl

  abbrev by_digits : ℕ → ℕ → ℕ
  by_digits a b = digits (λ y. y) op a a b

  -- The operation from the lowest digit on.
  by_digits-halves : (a b : ℕ) → by_digits a b ≡ by_digits (a / 2) (b / 2) * 2 + op (a % 2) (b % 2)
  by_digits-halves zero b = omega (arith, zero-op (b % 2) (omega arith))
  by_digits-halves (suc a) b =
      rw (digits-enough a (suc a / 2) (suc a / 2) (b / 2) (omega arith) (le_refl (suc a / 2))) refl

  zero_below : (n a : ℕ) → a ≤ n → by_digits a 0 ≡ a
  zero_below zero a h = let e : a ≡ 0 = omega arith in rw e refl
  zero_below (suc n) a h =
      rw (by_digits-halves a 0)
        (omega (arith, zero_below n (a / 2) (omega arith), op-zero (a % 2) (omega arith)))

  by_digits-zero : (a : ℕ) → by_digits a 0 ≡ a
  by_digits-zero a = zero_below a a (le_refl a)

  by_digits_add : (s c b : ℕ) → b < 2 ^ s → by_digits (c * 2 ^ s) b ≡ c * 2 ^ s + b
  by_digits_add zero c b h =
      let e : b ≡ 0 = omega arith in rw e (omega (arith, by_digits-zero (c * 1)))
  by_digits_add (suc s) c b h =
      let double : c * 2 ^ suc s ≡ 2 * (c * 2 ^ s) = rw (pow-suc 2 s) (double_lem c (2 ^ s)) in
      let half : c * 2 ^ suc s / 2 ≡ c * 2 ^ s = omega (arith, double) in
      let even : c * 2 ^ suc s % 2 ≡ 0 = omega (arith, double) in
      let rest = by_digits_add s c (b / 2) (omega (arith, pow-suc 2 s)) in
      let low = zero-op (b % 2) (omega arith) in
      rw (by_digits-halves (c * 2 ^ suc s) b, half, even, rest, low) (omega (arith, double))

max-zero_lem : (x : ℕ) → x < 2 → max x 0 ≡ x
max-zero_lem x h = omega arith

zero-max_lem : (y : ℕ) → y < 2 → max 0 y ≡ y
zero-max_lem y h = omega arith

differ-zero_lem : (x : ℕ) → x < 2 → differ x 0 ≡ x
differ-zero_lem zero h = refl
differ-zero_lem (suc x) h = refl

zero-differ_lem : (y : ℕ) → y < 2 → differ 0 y ≡ y
zero-differ_lem y h = refl

-- A number below `2 ^ s` and a multiple of it.
pub bit_or_add : (s c b : ℕ) → b < 2 ^ s → bit_or (c * 2 ^ s) b ≡ c * 2 ^ s + b
bit_or_add s c b h = rw bit_or-bitwise (by_digits_add max max-zero_lem zero-max_lem s c b h)

pub bit_xor_add : (s c b : ℕ) → b < 2 ^ s → bit_xor (c * 2 ^ s) b ≡ c * 2 ^ s + b
bit_xor_add s c b h =
    rw bit_xor-bitwise (by_digits_add differ differ-zero_lem zero-differ_lem s c b h)

-- The lowest digit set.
pub bit_or-one : (a : ℕ) → bit_or a 1 ≡ a / 2 * 2 + 1
bit_or-one a =
    rw (bit_or-bitwise, by_digits-halves max max-zero_lem zero-max_lem a 1)
      (omega (arith, by_digits-zero max max-zero_lem zero-max_lem (a / 2)))

max-lt_two : (x y : ℕ) → x < 2 → y < 2 → max x y < 2
max-lt_two x y hx hy = omega arith

bit_or-halves : (a b : ℕ) → bit_or a b / 2 ≡ bit_or (a / 2) (b / 2)
bit_or-halves a b =
    rw (bit_or-bitwise, bit_or-bitwise)
      (omega
        (arith, by_digits-halves max max-zero_lem zero-max_lem a b, max-lt_two (a % 2) (b % 2)))

-- The digits from `s` on.
pub bit_or-div : (s a b : ℕ) → bit_or a b / 2 ^ s ≡ bit_or (a / 2 ^ s) (b / 2 ^ s)
bit_or-div zero a b =
    let whole : (x : ℕ) → x / 1 ≡ x = λ x. omega arith in
    rw (whole (bit_or a b), whole a, whole b) refl
bit_or-div (suc s) a b =
    let step : (x : ℕ) → x / 2 ^ suc s ≡ x / 2 / 2 ^ s =
      λ x. rw (pow-suc 2 s, div-div-eq-div-mul x 2 (2 ^ s)) (ap (λ y. x / y) (omega arith)) in
    rw (step (bit_or a b), step a, step b) (rw (bit_or-halves a b) (bit_or-div s (a / 2) (b / 2)))

pub bit_or-zero : (a : ℕ) → bit_or a 0 ≡ a
bit_or-zero a = rw bit_or-bitwise (by_digits-zero max max-zero_lem zero-max_lem a)
