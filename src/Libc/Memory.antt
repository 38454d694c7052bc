-- ===== src/Libc/Memory.antt =====
-- libc/string: memset.c, memcpy.c, memmove.c and memcmp.c. Memory is a function from addresses to
-- bytes, and a loop recurs on the rounds left. A block lies below the end of the address space.
pub mod Blocks
pub mod Compare
use ikaros.Base.{ℕ, zero, suc, ◌+◌, ◌-◌, ◌%◌, Bool, true, false, ltb, ◌==◌, if◌then◌else◌}

abbrev pub Bytes : Type 0
Bytes = ℕ → ℕ

-- `mem[a] = v`
abbrev pub write : Bytes → ℕ → ℕ → Bytes
write mem a v b = if a == b then v else mem b

-- for (i = i; i < i + n; i++) buf[i] = value
unfoldable pub memset_loop : ℕ → ℕ → ℕ → ℕ → Bytes → Bytes
memset_loop zero i buf value mem = mem
memset_loop (suc n) i buf value mem =
    memset_loop n (i + 1) buf value (write mem (buf + i) (value % 256))

unfoldable pub memset : ℕ → ℕ → ℕ → Bytes → Bytes
unfolding memset_loop
memset buf value size mem = memset_loop size 0 buf value mem

unfoldable pub copy_up : ℕ → ℕ → ℕ → ℕ → Bytes → Bytes
copy_up zero i dst src mem = mem
copy_up (suc n) i dst src mem = copy_up n (i + 1) dst src (write mem (dst + i) (mem (src + i)))

unfoldable pub memcpy : ℕ → ℕ → ℕ → Bytes → Bytes
unfolding copy_up
memcpy dst src size mem = copy_up size 0 dst src mem

-- for (i = size; i != 0; i--) dst[i-1] = src[i-1]
unfoldable pub copy_down : ℕ → ℕ → ℕ → Bytes → Bytes
copy_down zero dst src mem = mem
copy_down (suc i) dst src mem = copy_down i dst src (write mem (dst + i) (mem (src + i)))

unfoldable pub memmove : ℕ → ℕ → ℕ → Bytes → Bytes
unfolding copy_up copy_down
memmove dst src size mem =
    if ltb dst src then copy_up size 0 dst src mem else copy_down size dst src mem

-- The `int` that a comparison returns: -1, 0 or 1.
pub data Sign : Type 0 where
  minus same plus : Sign

unfoldable pub memcmp_loop : ℕ → ℕ → ℕ → ℕ → Bytes → Sign
memcmp_loop zero i a b mem = same
memcmp_loop (suc n) i a b mem =
    let rest = memcmp_loop n (i + 1) a b mem in
    if ltb (mem (a + i)) (mem (b + i))
    then minus
    else if ltb (mem (b + i)) (mem (a + i))
    then plus
    else rest

unfoldable pub memcmp : ℕ → ℕ → ℕ → Bytes → Sign
unfolding memcmp_loop
memcmp a b size mem = memcmp_loop size 0 a b mem
