-- ===== src/Input/Keyboard/Modifiers.antt =====
-- The modifiers as five keys that are held or not.
use ikaros.Base.{
  ℕ, zero, suc, ◌-◌, ◌<◌, ◌≡◌, Bool, true, false, not, ◌&&◌, ◌||◌, arith, ◌==◌, if◌then◌else◌, ◌^◌,
}
use ikaros.Base.Bits.{
  test_bit, test_bit-bit_or, test_bit-bit_and, bit_and_pow, test_bit-pow, test_bit-complement,
}
use ikaros.Input.Keyboard.{has, hold, toggle_caps, update_modifiers, key_modifier_caps}

pub record Held : Type 0 where
  pub shift : Bool
  pub ctrl : Bool
  pub alt : Bool
  pub alt_gr : Bool
  pub caps : Bool

abbrev pub held : ℕ → Held
held mods = record {
  shift = test_bit mods 0;
  ctrl = test_bit mods 1;
  alt = test_bit mods 2;
  alt_gr = test_bit mods 3;
  caps = test_bit mods 4;
}

-- Shift, control, alt and alt gr are held while one of their keys is down; the release of caps lock
-- switches it over.
abbrev pub held_after : ℕ → Bool → Held → Held
held_after key released h = record {
  shift = if key == 42 || key == 54 then not released else h.shift;
  ctrl = if key == 29 || key == 97 then not released else h.ctrl;
  alt = if key == 56 then not released else h.alt;
  alt_gr = if key == 100 then not released else h.alt_gr;
  caps = if key == 58 && released then not h.caps else h.caps;
}

pow_lt : (j : ℕ) → j < 8 → 2 ^ j < 2 ^ 8
pow_lt zero h = omega arith
pow_lt (suc zero) h = omega arith
pow_lt (suc (suc zero)) h = omega arith
pow_lt (suc (suc (suc zero))) h = omega arith
pow_lt (suc (suc (suc (suc zero)))) h = omega arith
pow_lt (suc (suc (suc (suc (suc zero))))) h = omega arith
pow_lt (suc (suc (suc (suc (suc (suc zero)))))) h = omega arith
pow_lt (suc (suc (suc (suc (suc (suc (suc zero))))))) h = omega arith
pow_lt (suc (suc (suc (suc (suc (suc (suc (suc j)))))))) h = absurd (omega arith)

-- `released` clears bit `j` and its contrary sets it; the other bits below 8 stay.
test_bit-hold :
    (released : Bool) (j mods k : ℕ)
    → j < 8
    → k < 8
    → test_bit (hold released (2 ^ j) mods) k ≡ (if k == j then not released else test_bit mods k)
test_bit-hold true j mods k hj hk = ground (
  arith,
  test_bit-bit_and mods (255 - 2 ^ j) k,
  test_bit-complement 8 (2 ^ j) k,
  test_bit-pow j k,
  pow_lt j hj,
)
test_bit-hold false j mods k hj hk =
    ground (arith, test_bit-bit_or mods (2 ^ j) k, test_bit-pow j k)

has-test_bit : (mods : ℕ) → has mods key_modifier_caps ≡ test_bit mods 4
has-test_bit mods = ground (arith, bit_and_pow mods 4)

test_bit-toggle_caps :
    (key : ℕ) (released : Bool) (mods k : ℕ)
    → k < 8
    → test_bit (toggle_caps key released mods) k
      ≡ (if k == 4 && key == 58 && released then not (test_bit mods 4) else test_bit mods k)
unfolding toggle_caps
test_bit-toggle_caps key released mods k h =
    ground (
      arith,
      has-test_bit mods,
      test_bit-hold (has mods key_modifier_caps) 4 mods k (omega arith) h,
    )

-- The bit that a key holds; no key's bit is 4.
abbrev bit_of : ℕ → ℕ → Bool
bit_of key k =
    if key == 29 || key == 97
    then k == 1
    else if key == 42 || key == 54
    then k == 0
    else if key == 56
    then k == 2
    else if key == 100
    then k == 3
    else false

test_bit-update_modifiers :
    (key : ℕ) (released : Bool) (mods k : ℕ)
    → k < 8
    → test_bit (update_modifiers key released mods) k
      ≡ (if bit_of key k then not released else test_bit (toggle_caps key released mods) k)
unfolding update_modifiers
test_bit-update_modifiers key released mods k h =
    let m = toggle_caps key released mods in
    ground (
      arith,
      test_bit-hold released 0 m k (omega arith) h,
      test_bit-hold released 1 m k (omega arith) h,
      test_bit-hold released 2 m k (omega arith) h,
      test_bit-hold released 3 m k (omega arith) h,
    )

held_eq :
    (h g : Held)
    → h.shift ≡ g.shift
    → h.ctrl ≡ g.ctrl
    → h.alt ≡ g.alt
    → h.alt_gr ≡ g.alt_gr
    → h.caps ≡ g.caps
    → h ≡ g
held_eq h g a b c d e = cc

-- The modifiers after a key is pressed or released are the ones held before, changed by that key.
pub held-update_modifiers :
    (key : ℕ) (released : Bool) (mods : ℕ)
    → held (update_modifiers key released mods) ≡ held_after key released (held mods)
held-update_modifiers key released mods =
    let bit : (k : ℕ)
        → k < 8
        → test_bit (update_modifiers key released mods) k ≡ (
            if bit_of key k
            then not released
            else if k == 4 && key == 58 && released
            then not (test_bit mods 4)
            else test_bit mods k) =
      λ k h. ground (
        arith,
        test_bit-update_modifiers key released mods k h,
        test_bit-toggle_caps key released mods k h,
      ) in
    held_eq (held (update_modifiers key released mods)) (held_after key released (held mods))
      (ground (arith, bit 0 (omega arith))) (ground (arith, bit 1 (omega arith)))
      (ground (arith, bit 2 (omega arith))) (ground (arith, bit 3 (omega arith)))
      (ground (arith, bit 4 (omega arith)))
