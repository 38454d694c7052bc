-- ===== src/Libc/Memory/Compare.antt =====
-- What `memcmp` answers.
use ikaros.Base.{ℕ, zero, suc, ◌+◌, ◌≤◌, ◌<◌, ◌≡◌, inl, inr, arith, ltb, ◌==◌, Bool-cases}
use ikaros.Libc.Memory.{Bytes, Sign, minus, same, plus, memcmp_loop, memcmp}

-- The blocks agree before offset `k`.
abbrev pub Agree : Bytes → ℕ → ℕ → ℕ → ℕ → Type 0
Agree mem a b i k = (j : ℕ) → i ≤ j → j < k → mem (a + j) ≡ mem (b + j)

-- The meaning of an answer: which of the first bytes that differ is the smaller one.
abbrev pub Answers : Bytes → ℕ → ℕ → ℕ → ℕ → Sign → Type 0
Answers mem a b i end minus =
    (k : ℕ) × (i ≤ k) × (k < end) × Agree mem a b i k × (mem (a + k) < mem (b + k))
Answers mem a b i end same = Agree mem a b i end
Answers mem a b i end plus =
    (k : ℕ) × (i ≤ k) × (k < end) × Agree mem a b i k × (mem (b + k) < mem (a + k))

Agree-step :
    (mem : Bytes) (a b i k : ℕ)
    → mem (a + i) ≡ mem (b + i)
    → Agree mem a b (i + 1) k
    → Agree mem a b i k
Agree-step mem a b i k e rest j lo hi = elim (Bool-cases (i == j)) [
  | inl here ↦ ground arith
  | inr later ↦ rest j (ground arith) hi
]

Answers-step :
    (mem : Bytes) (a b i end : ℕ) (s : Sign)
    → mem (a + i) ≡ mem (b + i)
    → Answers mem a b (i + 1) end s
    → Answers mem a b i end s
Answers-step mem a b i end minus e (k, lo, hi, agree, lt) =
    (k, omega arith, hi, Agree-step mem a b i k e agree, lt)
Answers-step mem a b i end same e agree = Agree-step mem a b i end e agree
Answers-step mem a b i end plus e (k, lo, hi, agree, lt) =
    (k, omega arith, hi, Agree-step mem a b i k e agree, lt)

memcmp_loop-Answers :
    (n i end a b : ℕ) (mem : Bytes) → i + n ≡ end → Answers mem a b i end (memcmp_loop n i a b mem)
unfolding memcmp_loop
memcmp_loop-Answers zero i end a b mem e = λ j lo hi. absurd (omega arith)
memcmp_loop-Answers (suc n) i end a b mem e = elim (Bool-cases (ltb (mem (a + i)) (mem (b + i)))) [
  | inl less ↦ rw less (i, omega arith, omega arith, λ j lo hi. absurd (omega arith), ground arith)
  | inr ge ↦ elim (Bool-cases (ltb (mem (b + i)) (mem (a + i)))) [
    | inl more ↦
        rw (ge, more) (i, omega arith, omega arith, λ j lo hi. absurd (omega arith), ground arith)
    | inr le ↦
        rw (ge, le)
          (Answers-step mem a b i end (memcmp_loop n (i + 1) a b mem) (ground arith)
            (memcmp_loop-Answers n (i + 1) end a b mem (omega arith)))
  ]
]

-- `memcmp` answers by the first byte in which the blocks differ, as unsigned numbers, and 0 exactly
-- when they agree in all `size` bytes.
pub memcmp-Answers : (a b size : ℕ) (mem : Bytes) → Answers mem a b 0 size (memcmp a b size mem)
unfolding memcmp
memcmp-Answers a b size mem = memcmp_loop-Answers size 0 size a b mem (omega arith)
