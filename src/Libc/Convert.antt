-- ===== src/Libc/Convert.antt =====
-- libc/stdlib/atoi.c. An `int` is its 32-bit pattern, and what the source's arithmetic leaves is
-- taken modulo 2^32. The loop takes fuel for the bytes up to the NUL.
pub mod Decimal
use ikaros.Base.{ℕ, zero, suc, ◌+◌, ◌-◌, ◌*◌, ◌%◌, Option, none, some, ltb, ◌==◌, if◌then◌else◌}
use ikaros.Libc.Strings.{Text}

abbrev pub int_size : ℕ
int_size = 4294967296

-- A `char` as an `int`
abbrev pub sign_extend : ℕ → ℕ
sign_extend c = if ltb c 128 then c else c + (int_size - 256)

unfoldable pub atoi_loop : ℕ → Text → ℕ → ℕ → Option ℕ
atoi_loop zero str i res = none
atoi_loop (suc fuel) str i res =
    let rest =
      atoi_loop fuel str (i + 1) ((res * 10 + sign_extend (str i) + (int_size - 48)) % int_size) in
    if str i == 0 then some res else rest

-- `sign * res`
abbrev pub signed : Option ℕ → Option ℕ
signed none = none
signed (some res) = some ((int_size - res) % int_size)

unfoldable pub atoi : ℕ → Text → Option ℕ
unfolding atoi_loop
atoi fuel str = if str 0 == 45 then signed (atoi_loop fuel str 1 0) else atoi_loop fuel str 0 0
