-- ===== src/Interrupts/Timer.antt =====
-- kernel/arch/i386/kernel/irq/timer.c, and the calibration of the delay loop in `init_x86` of
-- kernel/arch/i386/kernel/boot/initx86.c. Whether `__delay(loops)` that is begun with a tick goes on
-- beyond the next tick is the function `longer`.
pub mod Calibration
use ikaros.Base.{
  ℕ, zero, suc, ◌+◌, ◌-◌, ◌*◌, ◌/◌, ◌%◌, ◌^◌, bit_and, bit_or, Bool, true, false, Option, none,
  some, List, [], ◌∷◌, ◌==◌, if◌then◌else◌,
}

abbrev pub hz : ℕ
hz = 200

-- `jiffies`, `loops_per_jiffy`, and the bytes that were written to ports.
pub record Timer : Type 0 where
  pub jiffies : ℕ
  pub loops_per_jiffy : ℕ
  pub out : List (ℕ × ℕ)

-- The mode of the timer, and its divisor 5965 in two bytes.
unfoldable pub timer_init : Timer
timer_init = record {
  jiffies = 0;
  loops_per_jiffy = 0;
  out = (67, 54) ∷ (64, 5965 % 256) ∷ (64, 5965 / 256) ∷ [];
}

unfoldable pub ticks_to_ms : ℕ → ℕ
ticks_to_ms ticks = ticks * 1000 % 2 ^ 64 / hz

unfoldable pub timer_range_to_ms : ℕ → ℕ → ℕ
timer_range_to_ms ticks_start ticks_end = ticks_to_ms ((ticks_end + 2 ^ 64 - ticks_start) % 2 ^ 64)

unfoldable pub timer_handler : Timer → Timer
timer_handler t = record t { jiffies = (t.jiffies + 1) % 2 ^ 32 }

-- `while ((loops_per_jiffy <<= 1) != 0)`: the value is doubled until its delay is longer than a tick, or
-- it is 0. `none` is a loop that has not ended.
unfoldable pub double_loop : (ℕ → Bool) → ℕ → ℕ → Option ℕ
double_loop longer zero loops = none
double_loop longer (suc fuel) loops =
    let doubled = loops * 2 % 2 ^ 32 in
    let rest = double_loop longer fuel doubled in
    if doubled == 0 then some doubled else if longer doubled then some doubled else rest

-- `while (lps_precision-- && (loopbit >>= 1))`, by the rounds left.
unfoldable pub refine_loop : (ℕ → Bool) → ℕ → ℕ → ℕ → ℕ
refine_loop longer zero loopbit loops = loops
refine_loop longer (suc lps_precision) loopbit loops =
    let digit = loopbit / 2 in
    let tried = bit_or loops digit in
    let rest =
      refine_loop longer lps_precision digit
        (if longer tried then bit_and tried (2 ^ 32 - 1 - digit) else tried) in
    if digit == 0 then loops else rest

abbrev pub refined : (ℕ → Bool) → Option ℕ → Option ℕ
refined longer none = none
refined longer (some loops) = some (refine_loop longer 8 (loops / 2) (loops / 2))

unfoldable pub calibrate : (ℕ → Bool) → ℕ → Option ℕ
calibrate longer fuel = refined longer (double_loop longer fuel (2 ^ 12))
