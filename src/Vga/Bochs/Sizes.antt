-- ===== src/Vga/Bochs/Sizes.antt =====
-- The sizes that are found, for registers that keep the digits of an address above the size.
use ikaros.Base.{
  ℕ, ◌+◌, ◌*◌, ◌/◌, ◌%◌, ◌^◌, ◌<◌, ◌≤◌, ◌≡◌, refl, arith, ◌==◌, Bool, true, ◌&&◌, ◌||◌, leb,
  all_below, all_below-true,
}
use native.Mathlib.Nat.{one-le-pow, pow-le-pow_right}
use ikaros.Pci.Scan.{PciFunction}
use ikaros.Vga.Bochs.{bochs_vga_probe, size_of_bar}

-- A base address register of a memory of `2 ^ k` bytes: it keeps the digits from `k` on, and reads as
-- those with four digits of its own.
pub record IsBar (kept : ℕ → ℕ → ℕ) (offset k : ℕ) : Type 0 where
  pub flags : ℕ
  pub four_digits : flags < 16
  pub at_least : 4 ≤ k
  pub at_most : k < 32
  pub keeps : (value : ℕ) → kept offset value ≡ value / 2 ^ k * 2 ^ k + flags

-- What the register keeps of all digits.
abbrev top : ℕ → ℕ
top k = 4294967295 / 2 ^ k * 2 ^ k

abbrev is_size : ℕ → Bool
is_size k = leb k 3 || top k % 16 == 0 && top k + 2 ^ k == 2 ^ 32

all_sizes : all_below 32 is_size ≡ true
unfolding all_below
all_sizes = refl

top_lem : (k : ℕ) → 4 ≤ k → k < 32 → (top k % 16 ≡ 0) × (top k + 2 ^ k ≡ 2 ^ 32)
top_lem k least most = ground (arith, all_below-true 32 is_size k all_sizes most)

size_lem :
    (kept : ℕ → ℕ → ℕ) (offset k : ℕ)
    → IsBar kept offset k
    → size_of_bar (kept offset 4294967295) ≡ 2 ^ k
size_lem kept offset k is =
    let (whole, sum) = top_lem k is.at_least is.at_most in
    rw (is.keeps 4294967295) (
      omega (
        arith,
        whole,
        sum,
        is.four_digits,
        pow-le-pow_right {n = 2} (omega arith) {i = k} {j = 31} (omega (arith, is.at_most)),
        one-le-pow k 2 (omega arith),
      ))

-- Where the two registers are of memories of `2 ^ j` and `2 ^ k` bytes, and read as they keep, the probe
-- finds those sizes and leaves every register as it was.
pub bochs_vga_probe_lem :
    (kept : ℕ → ℕ → ℕ) (f : PciFunction) (regs : ℕ → ℕ) (j k : ℕ)
    → IsBar kept 16 j
    → IsBar kept 24 k
    → kept 16 (regs 16) ≡ regs 16
    → kept 24 (regs 24) ≡ regs 24
    → ((bochs_vga_probe kept f regs).0.fb_size ≡ 2 ^ j)
      × ((bochs_vga_probe kept f regs).0.io_size ≡ 2 ^ k)
      × ((o : ℕ) → (bochs_vga_probe kept f regs).1 o ≡ regs o)
unfolding bochs_vga_probe
bochs_vga_probe_lem kept f regs j k is0 is2 same0 same2 =
    (size_lem kept 16 j is0, size_lem kept 24 k is2, λ o. ground (arith, same0, same2))
