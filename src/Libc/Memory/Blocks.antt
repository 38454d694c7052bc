-- ===== src/Libc/Memory/Blocks.antt =====
-- What the functions that write blocks leave in memory.
use ikaros.Base.{
  ℕ, zero, suc, ◌+◌, ◌-◌, ◌%◌, ◌≤◌, ◌≡◌, ◌⊎◌, inl, inr, Bool, ◌&&◌, arith, leb, ltb, if◌then◌else◌,
  Bool-cases,
}
use ikaros.Libc.Memory.{Bytes, write, memset_loop, memset, copy_up, memcpy, copy_down, memmove}

-- Address `a` lies in the block of `size` bytes at `p`.
abbrev pub inside : ℕ → ℕ → ℕ → Bool
inside p size a = leb p a && ltb a (p + size)

memset_loop_lem :
    (n i buf value : ℕ) (mem : Bytes) (a : ℕ)
    → memset_loop n i buf value mem a ≡ (if inside (buf + i) n a then value % 256 else mem a)
unfolding memset_loop
memset_loop_lem zero i buf value mem a = ground arith
memset_loop_lem (suc n) i buf value mem a =
    ground (arith, memset_loop_lem n (i + 1) buf value (write mem (buf + i) (value % 256)) a)

-- `memset` fills its block with the low byte of the value, and nothing else changes.
pub memset_lem :
    (buf value size : ℕ) (mem : Bytes) (a : ℕ)
    → memset buf value size mem a ≡ (if inside buf size a then value % 256 else mem a)
unfolding memset
memset_lem buf value size mem a = ground (arith, memset_loop_lem size 0 buf value mem a)

copy_up_lem :
    (n i dst src : ℕ) (mem : Bytes) (a : ℕ)
    → (dst ≤ src) ⊎ (src + (i + n) ≤ dst)
    → copy_up n i dst src mem a ≡ (if inside (dst + i) n a then mem (src + (a - dst)) else mem a)
unfolding copy_up
copy_up_lem zero i dst src mem a h = ground arith
copy_up_lem (suc n) i dst src mem a h =
    ground (arith, copy_up_lem n (i + 1) dst src (write mem (dst + i) (mem (src + i))) a)

-- `memcpy` copies the block where it does not overlap its source from behind: the bytes of the
-- destination are those that the source had, and nothing else changes.
pub memcpy_lem :
    (dst src size : ℕ) (mem : Bytes) (a : ℕ)
    → (dst ≤ src) ⊎ (src + size ≤ dst)
    → memcpy dst src size mem a ≡ (if inside dst size a then mem (src + (a - dst)) else mem a)
unfolding memcpy
memcpy_lem dst src size mem a h =
    let h' : (dst ≤ src) ⊎ (src + (0 + size) ≤ dst) = ground arith in
    ground (arith, copy_up_lem size 0 dst src mem a h')

copy_down_lem :
    (n dst src : ℕ) (mem : Bytes) (a : ℕ)
    → src ≤ dst
    → copy_down n dst src mem a ≡ (if inside dst n a then mem (src + (a - dst)) else mem a)
unfolding copy_down
copy_down_lem zero dst src mem a h = ground arith
copy_down_lem (suc n) dst src mem a h =
    ground (arith, copy_down_lem n dst src (write mem (dst + n) (mem (src + n))) a)

-- `memmove` copies every block, however it overlaps its source.
pub memmove_lem :
    (dst src size : ℕ) (mem : Bytes) (a : ℕ)
    → memmove dst src size mem a ≡ (if inside dst size a then mem (src + (a - dst)) else mem a)
unfolding memmove
memmove_lem dst src size mem a = elim (Bool-cases (ltb dst src)) [
  | inl below ↦
      let h : (dst ≤ src) ⊎ (src + (0 + size) ≤ dst) = inl (ground arith) in
      rw below (ground (arith, copy_up_lem size 0 dst src mem a h))
  | inr above ↦ rw above (ground (arith, copy_down_lem size dst src mem a))
]
