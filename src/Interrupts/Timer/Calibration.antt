-- ===== src/Interrupts/Timer/Calibration.antt =====
-- The calibration against the number of loops in a tick.
use ikaros.Base.{
  ℕ, zero, suc, ◌+◌, ◌-◌, ◌*◌, ◌/◌, ◌%◌, ◌^◌, ◌≤◌, ◌<◌, ◌≡◌, ◌∙◌, refl, ap, bit_and, bit_or, Bool,
  true, false, some, leb, ◌==◌, arith, Bool-cases, inl, inr,
}
use native.Mathlib.Nat.{pow-suc, one-le-pow, pow-le-pow_right}
use ikaros.Base.Bits.{test_bit}
use ikaros.Base.Fields.{bit_or_add}
use ikaros.Base.Clear.{bit_and-clear, test_bit-multiple}
use ikaros.Interrupts.Timer.{double_loop, refine_loop, calibrate, ticks_to_ms, timer_range_to_ms}

-- A range of ticks that ends after its start is 5 ms for each of them.
pub timer_range_to_ms_lem :
    (ticks_start ticks : ℕ)
    → ticks_start + ticks < 2 ^ 64
    → ticks < 2 ^ 54
    → timer_range_to_ms ticks_start (ticks_start + ticks) ≡ 5 * ticks
unfolding timer_range_to_ms ticks_to_ms
timer_range_to_ms_lem ticks_start ticks low few =
    let e : (ticks_start + ticks + 2 ^ 64 - ticks_start) % 2 ^ 64 ≡ ticks = omega arith in
    rw e (omega arith)

-- A digit that is tried and taken away again.
try_digit : (c s : ℕ) → bit_or (c * 2 ^ suc s) (2 ^ s) ≡ c * 2 ^ suc s + 2 ^ s
try_digit c s =
    bit_or_add (suc s) c (2 ^ s) (omega (arith, pow-suc 2 s, one-le-pow s 2 (omega arith)))

clear_digit :
    (c s : ℕ)
    → s < 32
    → c * 2 ^ suc s + 2 ^ s < 2 ^ 32
    → bit_and (c * 2 ^ suc s + 2 ^ s) (2 ^ 32 - 1 - 2 ^ s) ≡ c * 2 ^ suc s
clear_digit c s h low =
    let odd : c * 2 ^ suc s + 2 ^ s ≡ (2 * c + 1) * 2 ^ s = rw (pow-suc 2 s) (grind arith) in
    let set : test_bit ((2 * c + 1) * 2 ^ s) s ≡ true =
      test_bit-multiple s (2 * c + 1) ∙ ground arith in
    let whole = bit_and-clear 32 s ((2 * c + 1) * 2 ^ s) (omega (arith, low, odd)) h in
    let whole1 = rw set at whole in rw odd (omega (arith, whole1, odd))

-- A delay is longer than a tick from `tick` loops on.
module _ (longer : ℕ → Bool) (tick : ℕ) (threshold : (n : ℕ) → longer n ≡ leb tick n) where
  -- What `refine_loop` keeps: a value below the tick, that is less than one digit away from it.
  refine_lem :
      (n s c : ℕ)
      → n ≤ s
      → s < 32
      → c * 2 ^ s < tick
      → tick ≤ c * 2 ^ s + 2 ^ s
      → c * 2 ^ s + 2 ^ s ≤ 2 ^ 32
      → (c * 2 ^ s ≤ refine_loop longer n (2 ^ s) (c * 2 ^ s))
        × (refine_loop longer n (2 ^ s) (c * 2 ^ s) < tick)
        × (tick ≤ refine_loop longer n (2 ^ s) (c * 2 ^ s) + 2 ^ (s - n))
  unfolding refine_loop
  refine_lem zero s c le lt below above low =
      let same : s - 0 ≡ s = omega arith in (omega arith, below, rw same above)
  refine_lem (suc n) zero c le lt below above low = absurd (omega arith)
  refine_lem (suc n) (suc s) c le lt below above low =
      let double = pow-suc 2 s in
      let some_digit = one-le-pow s 2 (omega arith) in
      let half : 2 ^ suc s / 2 ≡ 2 ^ s = omega (arith, double) in
      let more : (2 ^ s == 0) ≡ false = ground (arith, some_digit) in
      let even : c * 2 ^ suc s ≡ (2 * c) * 2 ^ s = rw (pow-suc 2 s) (grind arith) in
      let odd : c * 2 ^ suc s + 2 ^ s ≡ (2 * c + 1) * 2 ^ s = rw (pow-suc 2 s) (grind arith) in
      let left : suc s - suc n ≡ s - n = omega arith in
      elim (Bool-cases (leb tick (c * 2 ^ suc s + 2 ^ s))) [
        | inl long ↦
            let is = threshold (c * 2 ^ suc s + 2 ^ s) ∙ long in
            let back = clear_digit c s (omega arith) (omega (arith, double, low, some_digit)) in
            let (up, under, over) =
              refine_lem n s (2 * c) (omega arith) (omega arith) (omega (arith, even, below))
                (ground (arith, even, long)) (omega (arith, even, double, low)) in
            rw (half, more, try_digit c s, is, back, left) (rw even (up, under, over))
        | inr short ↦
            let is = threshold (c * 2 ^ suc s + 2 ^ s) ∙ short in
            let (up, under, over) =
              refine_lem n s (2 * c + 1) (omega arith) (omega arith) (ground (arith, odd, short))
                (omega (arith, odd, double, above)) (omega (arith, odd, double, low)) in
            rw (half, more, try_digit c s, is, left) (rw odd (omega (arith, up, odd), under, over))
      ]

  double_lem :
      (fuel k : ℕ)
      → 2 ^ k < tick
      → tick ≤ 2 ^ 31
      → 31 ≤ fuel + k
      → (m : ℕ) × (double_loop longer fuel (2 ^ k) ≡ some (2 ^ suc m))
        × (k ≤ m)
        × (m < 31)
        × (2 ^ m < tick)
        × (tick ≤ 2 ^ suc m)
  unfolding double_loop
  double_lem zero k below high enough =
      let big = pow-le-pow_right {n = 2} (omega arith) {i = 31} {j = k} (omega arith) in
      absurd (omega (arith, big))
  double_lem (suc fuel) k below high enough = elim (Bool-cases (leb 31 k)) [
    | inl far ↦
        let big = pow-le-pow_right {n = 2} (omega arith) {i = 31} {j = k} (ground (arith, far)) in
        absurd (omega (arith, big))
    | inr near ↦
        let small =
          pow-le-pow_right {n = 2} (omega arith) {i = suc k} {j = 31} (ground (arith, near)) in
        let double = pow-suc 2 k in
        let next : 2 ^ k * 2 % 2 ^ 32 ≡ 2 ^ suc k = omega (arith, double, small) in
        let more : (2 ^ suc k == 0) ≡ false = ground (arith, one-le-pow (suc k) 2 (omega arith)) in
        elim (Bool-cases (leb tick (2 ^ suc k))) [
          | inl long ↦
              let is = threshold (2 ^ suc k) ∙ long in
              (
                k,
                rw (next, double_loop) (rw (more, is) refl),
                omega arith,
                ground (arith, near),
                below,
                ground (arith, long),
              )
          | inr short ↦
              let is = threshold (2 ^ suc k) ∙ short in
              let (m, run, least, most, under, over) =
                double_lem fuel (suc k) (ground (arith, short)) high (omega arith) in
              (m, rw (next, double_loop) (rw (more, is) run), omega arith, most, under, over)
        ]
  ]

  eight : (s : ℕ) → 2 ^ (8 + s) ≡ 256 * 2 ^ s
  eight s =
      let e : 8 + s ≡ suc (suc (suc (suc (suc (suc (suc (suc s))))))) = omega arith in
      rw (e, pow-suc, pow-suc, pow-suc, pow-suc, pow-suc, pow-suc, pow-suc, pow-suc) (omega arith)

  -- For a tick of more than 2^12 and at most 2^31 loops, the calibration ends within 20 doublings, with
  -- a number of loops that is smaller than that of the tick, by at most a 256th of the number found.
  pub calibrate_lem :
      2 ^ 12 < tick
      → tick ≤ 2 ^ 31
      → (loops : ℕ) × (calibrate longer 20 ≡ some loops)
        × (loops < tick)
        × (256 * tick ≤ 257 * loops)
  unfolding calibrate
  calibrate_lem low high =
      let (m, run, least, most, under, over) = double_lem 20 12 low high (omega arith) in
      let double = pow-suc 2 m in
      let half : 2 ^ suc m / 2 ≡ 2 ^ m = omega (arith, double) in
      let one : 1 * 2 ^ m ≡ 2 ^ m = omega arith in
      let bound = pow-le-pow_right {n = 2} (omega arith) {i = suc m} {j = 32} (omega arith) in
      let (up, short, near) =
        refine_lem 8 m 1 (omega arith) (omega arith) (omega (arith, under))
          (omega (arith, over, double)) (omega (arith, bound, double)) in
      let whole : 2 ^ m ≡ 256 * 2 ^ (m - 8) =
        let e : m ≡ 8 + (m - 8) = omega arith in ap (λ x. 2 ^ x) e ∙ eight (m - 8) in
      (
        refine_loop longer 8 (2 ^ m) (1 * 2 ^ m),
        rw run (rw (half, one) refl),
        short,
        omega (arith, near, up, whole),
      )
