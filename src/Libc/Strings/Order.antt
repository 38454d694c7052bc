-- ===== src/Libc/Strings/Order.antt =====
-- The order that `strcmp` decides.
use ikaros.Base.{
  ℕ, zero, suc, ◌+◌, ◌≤◌, ◌<◌, ◌≡◌, ◌≢◌, inl, inr, refl, true, false, arith, ◌==◌, Bool-cases, some,
}
use ikaros.Libc.Memory.{Sign, minus, same, plus}
use ikaros.Libc.Strings.{
  Text, strlen_loop, strlen, signed_key, flag_of, is_same, strcmp_loop, strcmp,
}

-- Bytes, with the first NUL at offset `n`.
pub record IsText (s : Text) (n : ℕ) : Type 0 where
  pub bytes : (k : ℕ) → s k < 256
  pub inner : (k : ℕ) → k < n → s k ≢ 0
  pub ends : s n ≡ 0

strlen_loop-IsText :
    (fuel : ℕ) (s : Text) (n len : ℕ)
    → IsText s n
    → len ≤ n
    → n < len + fuel
    → strlen_loop fuel s len ≡ some n
unfolding strlen_loop
strlen_loop-IsText zero s n len is le lt = absurd (omega arith)
strlen_loop-IsText (suc fuel) s n len is le lt = elim (Bool-cases (len == n)) [
  | inl last ↦ ground (arith, is.ends)
  | inr more ↦
      ground
        (arith, is.inner len, strlen_loop-IsText fuel s n (len + 1) is (ground arith) (omega arith))
]

-- `strlen` ends on a text and answers the offset of its first NUL.
pub strlen-IsText : (fuel : ℕ) (s : Text) (n : ℕ) → IsText s n → n < fuel → strlen fuel s ≡ some n
unfolding strlen
strlen-IsText fuel s n is enough = strlen_loop-IsText fuel s n 0 is (omega arith) (omega arith)

abbrev pub EqualTo : Text → Text → ℕ → ℕ → Type 0
EqualTo s0 s1 i k = (j : ℕ) → i ≤ j → j < k → s0 j ≡ s1 j

-- The first texts that differ at an offset up to the NUL of the first, in the order of signed `char`.
abbrev pub Compared : Text → Text → ℕ → ℕ → Sign → Type 0
Compared s0 s1 i n minus =
    (k : ℕ) × (i ≤ k) × (k ≤ n) × EqualTo s0 s1 i k × (signed_key (s0 k) < signed_key (s1 k))
Compared s0 s1 i n same = EqualTo s0 s1 i (n + 1)
Compared s0 s1 i n plus =
    (k : ℕ) × (i ≤ k) × (k ≤ n) × EqualTo s0 s1 i k × (signed_key (s1 k) < signed_key (s0 k))

EqualTo-step : (s0 s1 : Text) (i k : ℕ) → s0 i ≡ s1 i → EqualTo s0 s1 (i + 1) k → EqualTo s0 s1 i k
EqualTo-step s0 s1 i k e rest j lo hi = elim (Bool-cases (i == j)) [
  | inl here ↦ ground arith
  | inr later ↦ rest j (ground arith) hi
]

Compared-step :
    (s0 s1 : Text) (i n : ℕ) (r : Sign)
    → s0 i ≡ s1 i
    → Compared s0 s1 (i + 1) n r
    → Compared s0 s1 i n r
Compared-step s0 s1 i n minus e (k, lo, hi, eq, lt) =
    (k, omega arith, hi, EqualTo-step s0 s1 i k e eq, lt)
Compared-step s0 s1 i n same e eq = EqualTo-step s0 s1 i (n + 1) e eq
Compared-step s0 s1 i n plus e (k, lo, hi, eq, lt) =
    (k, omega arith, hi, EqualTo-step s0 s1 i k e eq, lt)

-- The order of signed `char` tells all bytes apart.
flag_of-same : (c0 c1 : ℕ) → c0 < 256 → c1 < 256 → flag_of c0 c1 ≡ same → c0 ≡ c1
flag_of-same c0 c1 h0 h1 e = ground arith

-- A difference at offset `i` decides.
decided :
    (s0 s1 : Text) (i n : ℕ) (r : Sign)
    → i ≤ n
    → flag_of (s0 i) (s1 i) ≡ r
    → is_same r ≡ false
    → Compared s0 s1 i n r
decided s0 s1 i n minus le e ne =
    (i, omega arith, le, λ j lo hi. absurd (omega arith), ground arith)
decided s0 s1 i n same le e ne = cc
decided s0 s1 i n plus le e ne = (i, omega arith, le, λ j lo hi. absurd (omega arith), ground arith)

is_same-same : (r : Sign) → is_same r ≡ true → r ≡ same
is_same-same minus e = cc
is_same-same same e = refl
is_same-same plus e = cc

abbrev Answered : ℕ → Text → Text → ℕ → ℕ → Type 0
Answered fuel s0 s1 i n = (r : Sign) × (strcmp_loop fuel s0 s1 i ≡ some r) × Compared s0 s1 i n r

strcmp_loop-Compared :
    (fuel : ℕ) (s0 s1 : Text) (i n : ℕ)
    → IsText s0 n
    → ((k : ℕ) → s1 k < 256)
    → i ≤ n
    → n < i + fuel
    → Answered fuel s0 s1 i n
unfolding strcmp_loop
strcmp_loop-Compared zero s0 s1 i n is bytes le lt = absurd (omega arith)
strcmp_loop-Compared (suc fuel) s0 s1 i n is bytes le lt =
    let flag = flag_of (s0 i) (s1 i) in
    elim (Bool-cases (is_same flag)) [
      | inr ne ↦ (flag, ground arith, decided s0 s1 i n flag le refl ne)
      | inl eq ↦
          let e = flag_of-same (s0 i) (s1 i) (is.bytes i) (bytes i) (is_same-same flag eq) in
          elim (Bool-cases (i == n)) [
            | inl last ↦ (
              same,
              ground (arith, is.ends, is_same-same flag eq),
              EqualTo-step s0 s1 i (n + 1) e (λ j lo hi. absurd (ground arith)),
            )
            | inr more ↦
                let (r, runs, compared) =
                  strcmp_loop-Compared fuel s0 s1 (i + 1) n is bytes (ground arith) (omega arith) in
                (r, ground (arith, is.inner i), Compared-step s0 s1 i n r e compared)
          ]
    ]

-- `strcmp` of a text that ends at offset `n` with any bytes, at `n + 1` rounds of fuel or more, ends.
-- It answers 0 exactly where the two agree up to and with the NUL, and otherwise the order, as signed
-- `char`, of the bytes at the first offset where they differ, which is at most `n`.
pub strcmp-Compared :
    (fuel : ℕ) (s0 s1 : Text) (n : ℕ)
    → IsText s0 n
    → ((k : ℕ) → s1 k < 256)
    → n < fuel
    → (r : Sign) × (strcmp fuel s0 s1 ≡ some r) × Compared s0 s1 0 n r
unfolding strcmp
strcmp-Compared fuel s0 s1 n is bytes enough =
    strcmp_loop-Compared fuel s0 s1 0 n is bytes (omega arith) (omega arith)
