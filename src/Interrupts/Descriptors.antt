-- ===== src/Interrupts/Descriptors.antt =====
-- The bytes of `gdt_encode`, read as the processor reads them.
use ikaros.Base.{
  ℕ, ◌+◌, ◌*◌, ◌/◌, ◌%◌, ◌^◌, ◌≤◌, ◌<◌, ◌≡◌, ◌≢◌, inl, inr, bit_or, Option, none, some, List, [],
  ◌∷◌, arith, ltb, ◌==◌, if◌then◌else◌, Bool-cases,
}
use ikaros.Base.Fields.{bit_or_add}
use ikaros.Interrupts.{Gdt, gdt_encode}

-- The segment of a descriptor: limits are counted in pages where the granularity is set.
unfoldable pub segment_of : List ℕ → Option Gdt
segment_of (b0 ∷ b1 ∷ b2 ∷ b3 ∷ b4 ∷ b5 ∷ b6 ∷ b7 ∷ []) =
    let limit = b0 + 256 * b1 + 65536 * (b6 % 16) in
    some (record {
      base = b2 + 256 * b3 + 65536 * b4 + 16777216 * b7;
      limit = if b6 / 128 == 1 then limit * 4096 + 4095 else limit;
      type = b5;
    })
segment_of bytes = none

abbrev pub EncodeLem : Gdt → Option (List ℕ) → Type 0
EncodeLem g none = (65536 < g.limit) × (g.limit % 4096 ≢ 4095)
EncodeLem g (some bytes) = segment_of bytes ≡ some g

-- The limit that the processor reads, from the field of 20 digits and the flags.
abbrev read_limit : ℕ → ℕ → ℕ
read_limit field flags =
    let b6 = bit_or flags (field / 2 ^ 16 % 16) in
    let limit = field % 256 + 256 * (field / 2 ^ 8 % 256) + 65536 * (b6 % 16) in
    if b6 / 128 == 1 then limit * 4096 + 4095 else limit

read_limit-pages : (l : ℕ) → l % 4096 ≡ 4095 → l < 2 ^ 32 → read_limit (l / 2 ^ 12) 192 ≡ l
read_limit-pages l whole bound =
    rw (bit_or_add 4 12 (l / 2 ^ 12 / 2 ^ 16 % 16) (omega arith)) (ground arith)

read_limit-bytes : (l : ℕ) → l ≤ 65536 → read_limit l 64 ≡ l
read_limit-bytes l small = rw (bit_or_add 4 4 (l / 2 ^ 16 % 16) (omega arith)) (ground arith)

read_base :
    (b : ℕ)
    → b < 2 ^ 32
    → b % 256 + 256 * (b / 2 ^ 8 % 256) + 65536 * (b / 2 ^ 16 % 256) + 16777216 * (b / 2 ^ 24 % 256)
      ≡ b
read_base b bound = omega arith

-- A descriptor is read back as the segment that was asked for, base, limit and type, for each base
-- and limit of 32 bits; a limit above 65536 that does not end in 0xFFF is the only one that is
-- refused.
pub gdt_encode-segment_of :
    (g : Gdt) → g.base < 2 ^ 32 → g.limit < 2 ^ 32 → EncodeLem g (gdt_encode g)
unfolding gdt_encode segment_of
gdt_encode-segment_of g base limit = elim (Bool-cases (ltb 65536 g.limit)) [
  | inl large ↦ elim (Bool-cases (g.limit % 4096 == 4095)) [
    | inl whole ↦
        rw (large, whole)
          (λ i. some (record {
            base = read_base g.base base i;
            limit = read_limit-pages g.limit (ground (arith, whole)) limit i;
            type = g.type;
          }))
    | inr part ↦ rw (large, part) (ground (arith, large), ground (arith, part))
  ]
  | inr small ↦ rw small (λ i. some (record {
    base = read_base g.base base i;
    limit = read_limit-bytes g.limit (ground (arith, small)) i;
    type = g.type;
  }))
]
