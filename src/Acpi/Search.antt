-- ===== src/Acpi/Search.antt =====
-- The search ends, at the first address that has the signature.
use ikaros.Base.{
  ℕ, zero, suc, ◌+◌, ◌*◌, ◌≤◌, ◌<◌, ◌≡◌, inl, inr, subst, true, false, arith, ltb, Bool-cases,
}
use ikaros.Libc.Strings.{is_same}
use ikaros.Libc.Memory.{Bytes, Sign, minus, same, plus, memcmp}
use ikaros.Libc.Memory.Compare.{Answers, memcmp-Answers}
use ikaros.Acpi.{
  acpi_virtual_base, first_offset, last_offset, RootPointer, rsdp, null, search_loop,
  acpi_early_init,
}

-- The eight bytes at `a` are those of the text.
abbrev pub HasSignature : Bytes → ℕ → ℕ → Type 0
HasSignature mem text a = (j : ℕ) → j < 8 → mem (a + j) ≡ mem (text + j)

answer_same :
    (mem : Bytes) (a text : ℕ) (s : Sign)
    → Answers mem a text 0 8 s
    → is_same s ≡ true
    → HasSignature mem text a
answer_same mem a text same agree is = λ j hj. agree j (omega arith) hj
answer_same mem a text minus answer is = absurd (ground arith)
answer_same mem a text plus answer is = absurd (ground arith)

answer_other :
    (mem : Bytes) (a text : ℕ) (s : Sign)
    → Answers mem a text 0 8 s
    → is_same s ≡ false
    → ¬ HasSignature mem text a
answer_other mem a text same agree is has = absurd (ground arith)
answer_other mem a text minus (k, lo, hi, agree, lt) is has = omega (arith, has k hi, lt)
answer_other mem a text plus (k, lo, hi, agree, lt) is has = omega (arith, has k hi, lt)

-- The search from `offset` on: the first address with the signature, or none below the range's end.
abbrev pub SearchLem : Bytes → ℕ → ℕ → RootPointer → Type 0
SearchLem mem text offset (rsdp a) =
    (n : ℕ) × (a ≡ offset + 16 * n + acpi_virtual_base)
    × (offset + 16 * n < last_offset)
    × HasSignature mem text a
    × ((k : ℕ) → k < n → ¬ HasSignature mem text (offset + 16 * k + acpi_virtual_base))
SearchLem mem text offset null =
    (k : ℕ)
    → offset + 16 * k < last_offset
    → ¬ HasSignature mem text (offset + 16 * k + acpi_virtual_base)
SearchLem mem text offset RootPointer.endless = ⊥

module _ (mem : Bytes) (text offset : ℕ)
    (other : ¬ HasSignature mem text (offset + acpi_virtual_base)) where
  -- The first address of the search does not have it.
  none_before :
      (k : ℕ)
      → ((j : ℕ) → j < k → ¬ HasSignature mem text (offset + 16 + 16 * j + acpi_virtual_base))
      → (i : ℕ) → i < suc k
      → ¬ HasSignature mem text (offset + 16 * i + acpi_virtual_base)
  none_before k rest zero hi has = other (subst (HasSignature mem text) (omega arith) has)
  none_before k rest (suc i) hi has =
      rest i (omega arith) (subst (HasSignature mem text) (omega arith) has)

  SearchLem-step :
      (r : RootPointer) → SearchLem mem text (offset + 16) r → SearchLem mem text offset r
  SearchLem-step (rsdp a) (n, at, below, has, rest) =
      (suc n, omega (arith, at), omega (arith, below), has, none_before n rest)
  SearchLem-step null rest = λ k below. none_before k (λ j hj. rest j (omega arith)) k (omega arith)
  SearchLem-step RootPointer.endless lem = lem

-- One round, for what the rounds behind it come to.
round_lem :
    (fuel offset text : ℕ) (mem : Bytes)
    → (offset < last_offset
        → SearchLem mem text (offset + 16) (search_loop fuel (offset + 16) text mem))
    → SearchLem mem text offset (search_loop (suc fuel) offset text mem)
unfolding search_loop
round_lem fuel offset text mem later = elim (Bool-cases (ltb offset last_offset)) [
  | inl inside ↦
      let answer = memcmp-Answers (offset + acpi_virtual_base) text 8 mem in
      elim (Bool-cases (is_same (memcmp (offset + acpi_virtual_base) text 8 mem))) [
        | inl found ↦
            rw (inside, found)
              (
                0,
                omega arith,
                ground (arith, inside),
                answer_same mem _ text _ answer found,
                λ k hk. absurd (omega arith),
              )
        | inr other ↦
            rw (inside, other)
              (SearchLem-step mem text offset (answer_other mem _ text _ answer other) _
                (later (ground (arith, inside))))
      ]
  | inr outside ↦ rw outside (λ k below. absurd (ground (arith, outside)))
]

search_loop_lem :
    (n offset text : ℕ) (mem : Bytes)
    → last_offset ≤ offset + 16 * n
    → SearchLem mem text offset (search_loop (suc n) offset text mem)
search_loop_lem zero offset text mem enough =
    round_lem zero offset text mem (λ inside. absurd (omega arith))
search_loop_lem (suc n) offset text mem enough =
    round_lem (suc n) offset text mem
      (λ inside. search_loop_lem n (offset + 16) text mem (omega arith))

-- The search for the root pointer ends after at most 8193 rounds, at the first of the addresses from
-- 0xC00E0000 on, in steps of 16, that has the signature, or with `NULL` if none below 0xC00FFFFF
-- has it.
pub acpi_early_init-first :
    (text : ℕ) (mem : Bytes) → SearchLem mem text first_offset (acpi_early_init 8193 text mem)
unfolding acpi_early_init
acpi_early_init-first text mem = search_loop_lem 8192 first_offset text mem (omega arith)
