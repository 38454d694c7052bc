-- ===== src/Framebuffer/Pairs.antt =====
-- The table of the pairs of colours.
use ikaros.Base.{
  ℕ, zero, suc, ◌+◌, ◌-◌, ◌*◌, ◌/◌, ◌%◌, ◌≤◌, ◌<◌, ◌≡◌, inl, inr, refl, ◌∙◌, arith, ltb, true,
  false, ◌==◌, if◌then◌else◌, Bool-cases,
}
use native.Mathlib.Nat.{mul-le-mul_right}
use ikaros.Libc.Memory.{Bytes, memcpy}
use ikaros.Libc.Memory.Blocks.{inside, memcpy_lem}
use ikaros.Framebuffer.{pairs_loop, create_pairs}

module _ (p buffer lut : ℕ) (below : buffer + 16 * p ≤ lut) where
  -- The source of byte `k` of pair `i`.
  abbrev source : ℕ → ℕ → ℕ
  source i k = buffer + (if ltb k p then i % 16 * p + k else i / 16 % 16 * p + (k - p))

  abbrev step : ℕ → Bytes → Bytes
  step i mem =
      memcpy (lut + i * (p * 2) + p) (buffer + i / 16 % 16 * p) p
        (memcpy (lut + i * (p * 2)) (buffer + i % 16 * p) p mem)

  fg_low : (i : ℕ) → buffer + i % 16 * p + p ≤ lut
  fg_low i = let le : i % 16 ≤ 15 = omega arith in omega (arith, mul-le-mul_right p le)

  bg_low : (i : ℕ) → buffer + i / 16 % 16 * p + p ≤ lut
  bg_low i = let le : i / 16 % 16 ≤ 15 = omega arith in omega (arith, mul-le-mul_right p le)

  fg_lem :
      (i : ℕ) (mem : Bytes) (a : ℕ)
      → memcpy (lut + i * (p * 2)) (buffer + i % 16 * p) p mem a ≡ (
          if inside (lut + i * (p * 2)) p a
          then mem (buffer + i % 16 * p + (a - (lut + i * (p * 2))))
          else mem a)
  fg_lem i mem a = memcpy_lem _ _ p mem a (inr (omega (arith, fg_low i)))

  bg_lem :
      (i : ℕ) (mem : Bytes) (a : ℕ)
      → memcpy (lut + i * (p * 2) + p) (buffer + i / 16 % 16 * p) p mem a ≡ (
          if inside (lut + i * (p * 2) + p) p a
          then mem (buffer + i / 16 % 16 * p + (a - (lut + i * (p * 2) + p)))
          else mem a)
  bg_lem i mem a = memcpy_lem _ _ p mem a (inr (omega (arith, bg_low i)))

  step_below : (i : ℕ) (mem : Bytes) (a : ℕ) → a < lut + i * (p * 2) → step i mem a ≡ mem a
  step_below i mem a h =
      let mem1 = memcpy (lut + i * (p * 2)) (buffer + i % 16 * p) p mem in
      ground (arith, bg_lem i mem1 a, fg_lem i mem a)

  step_pair :
      (i : ℕ) (mem : Bytes) (k : ℕ)
      → k < p * 2
      → step i mem (lut + i * (p * 2) + k) ≡ mem (source i k)
  step_pair i mem k h =
      let mem1 = memcpy (lut + i * (p * 2)) (buffer + i % 16 * p) p mem in
      let at = lut + i * (p * 2) + k in
      elim (Bool-cases (ltb k p)) [
        | inl first ↦
            let out : inside (lut + i * (p * 2) + p) p at ≡ false = ground (arith, first) in
            let in_ : inside (lut + i * (p * 2)) p at ≡ true = ground (arith, first) in
            let off : buffer + i % 16 * p + (at - (lut + i * (p * 2))) ≡ buffer + (i % 16 * p + k) =
              omega arith in
            bg_lem i mem1 at ∙ rw (out, fg_lem i mem at, in_, off, first) refl
        | inr second ↦
            let in_ : inside (lut + i * (p * 2) + p) p at ≡ true = ground (arith, second) in
            let off : buffer + i / 16 % 16 * p + (at - (lut + i * (p * 2) + p))
                ≡ buffer + (i / 16 % 16 * p + (k - p)) =
              ground (arith, second) in
            let low : buffer + (i / 16 % 16 * p + (k - p)) < lut + i * (p * 2) =
              ground (arith, bg_low i, second) in
            let out : inside (lut + i * (p * 2)) p (buffer + (i / 16 % 16 * p + (k - p))) ≡ false =
              ground (arith, low) in
            bg_lem i mem1 at
            ∙ rw (in_, off, fg_lem i mem (buffer + (i / 16 % 16 * p + (k - p))), out, second) refl
      ]

  pairs_frame :
      (n i : ℕ) (mem : Bytes) (a : ℕ)
      → a < lut + i * (p * 2)
      → pairs_loop n i p buffer lut mem a ≡ mem a
  unfolding pairs_loop
  pairs_frame zero i mem a h = refl
  pairs_frame (suc n) i mem a h =
      pairs_frame n (i + 1) (step i mem) a (omega arith) ∙ step_below i mem a h

  source_low : (i k : ℕ) → k < p * 2 → source i k < lut
  source_low i k h = elim (Bool-cases (ltb k p)) [
    | inl first ↦ rw first (ground (arith, first, fg_low i))
    | inr second ↦ rw second (ground (arith, second, bg_low i))
  ]

  pairs_lem :
      (n i : ℕ) (mem : Bytes) (i0 k : ℕ)
      → i ≤ i0
      → i0 < i + n
      → k < p * 2
      → pairs_loop n i p buffer lut mem (lut + i0 * (p * 2) + k) ≡ mem (source i0 k)
  unfolding pairs_loop
  pairs_lem zero i mem i0 k lo hi hk = absurd (omega arith)
  pairs_lem (suc n) i mem i0 k lo hi hk = elim (Bool-cases (i0 == i)) [
    | inl here ↦
        let e : i0 ≡ i = ground (arith, here) in
        rw e (
          pairs_frame n (i + 1) (step i mem) (lut + i * (p * 2) + k) (omega arith)
          ∙ step_pair i mem k hk)
    | inr later ↦
        pairs_lem n (i + 1) (step i mem) i0 k (ground (arith, later)) (omega arith) hk
        ∙ step_below i mem (source i0 k) (omega (arith, source_low i0 k hk))
  ]

  -- Where the buffer of the 16 colours lies below the table, the pair of each of the 256 attributes
  -- holds the colour of its low four digits, and behind it that of its high four digits.
  pub create_pairs_lem :
      (mem : Bytes) (attrs k : ℕ)
      → attrs < 256
      → k < p * 2
      → create_pairs p buffer lut mem (lut + attrs * (p * 2) + k)
        ≡ mem (buffer + (if ltb k p then attrs % 16 * p + k else attrs / 16 % 16 * p + (k - p)))
  unfolding create_pairs
  create_pairs_lem mem attrs k ha hk = pairs_lem 256 0 mem attrs k (omega arith) (omega arith) hk
