-- ===== src/Framebuffer/Glyph.antt =====
-- The pixels of a glyph.
use ikaros.Base.{
  ℕ, zero, suc, ◌+◌, ◌-◌, ◌*◌, ◌%◌, ◌^◌, ◌≤◌, ◌<◌, ◌≡◌, ◌⊎◌, inl, inr, refl, ◌∙◌, false, ◌&&◌,
  arith, ltb, leb, ◌==◌, if◌then◌else◌, Bool-cases,
}
use native.Mathlib.Nat.{mul-le-mul_right, pow-suc}
use ikaros.Base.Bits.{test_bit, bit_and_pow}
use ikaros.Framebuffer.{
  Framebuffer, write, draw_pixel, color_of, draw_row, draw_rows, fb_console_draw_glyph,
}

draw_pixel_lem :
    (n k ptr : ℕ) (color video : ℕ → ℕ) (a : ℕ)
    → draw_pixel n k ptr color video a
      ≡ (if leb (ptr + k) a && ltb a (ptr + k + n) then color (a - ptr) else video a)
unfolding draw_pixel
draw_pixel_lem zero k ptr color video a = ground arith
draw_pixel_lem (suc n) k ptr color video a =
    let rest = draw_pixel_lem n (k + 1) ptr color (write (ptr + k) (color k) video) a in
    elim (Bool-cases (a == ptr + k)) [
      | inl here ↦ let e : a - ptr ≡ k = ground (arith, here) in rw e (ground (arith, rest, here))
      | inr away ↦ ground (arith, rest, away)
    ]

module _ (line fb_x size : ℕ) (pair : ℕ → ℕ) (row : ℕ) where
  abbrev column : ℕ → ℕ
  column j = line + (fb_x + j) * size

  column_next : (j : ℕ) → column (j + 1) ≡ column j + size
  column_next j = omega arith

  -- The offset of a column does not wrap where the one behind the last does not.
  column_plain :
      (n j : ℕ)
      → column (j + suc n) < 2 ^ 32
      → (column j % 2 ^ 32 ≡ column j) × (column (j + 1 + n) < 2 ^ 32)
  column_plain n j low =
      let next = column_next j in
      let more : column (j + 1) ≤ column (j + suc n) = omega arith in
      let last : column (j + 1 + n) ≡ column (j + suc n) = omega arith in
      (omega (arith, next, more, low), omega (arith, last, low))

  draw_row_frame :
      (n j : ℕ) (video : ℕ → ℕ) (a : ℕ)
      → column (j + n) < 2 ^ 32
      → (a < column j) ⊎ (column (j + n) ≤ a)
      → draw_row n j line fb_x size pair row video a ≡ video a
  unfolding draw_row
  draw_row_frame zero j video a low out = refl
  draw_row_frame (suc n) j video a low out =
      let (plain, low1) = column_plain n j low in
      let ptr = line + (fb_x + j) * size in
      let video1 = draw_pixel size 0 ptr (color_of row j size pair) video in
      let one = draw_pixel_lem size 0 ptr (color_of row j size pair) video a in
      let next = column_next j in
      let more : column (j + 1) ≤ column (j + suc n) = omega arith in
      let last : column (j + 1 + n) ≡ column (j + suc n) = omega arith in
      let kept : video1 a ≡ video a = ground (arith, one, out, next, more) in
      rw plain (draw_row_frame n (j + 1) video1 a low1 (ground (arith, out, next, last)) ∙ kept)

  draw_row_lem :
      (n j : ℕ) (video : ℕ → ℕ) (j0 k : ℕ)
      → column (j + n) < 2 ^ 32
      → j ≤ j0
      → j0 < j + n
      → k < size
      → draw_row n j line fb_x size pair row video (column j0 + k) ≡ color_of row j0 size pair k
  unfolding draw_row
  draw_row_lem zero j video j0 k low lo hi hk = absurd (omega arith)
  draw_row_lem (suc n) j video j0 k low lo hi hk =
      let (plain, low1) = column_plain n j low in
      let ptr = line + (fb_x + j) * size in
      let video1 = draw_pixel size 0 ptr (color_of row j size pair) video in
      elim (Bool-cases (j0 == j)) [
        | inl here ↦
            let e : j0 ≡ j = ground (arith, here) in
            let one = draw_pixel_lem size 0 ptr (color_of row j size pair) video (ptr + k) in
            let off : ptr + k - ptr ≡ k = omega arith in
            let frame =
              draw_row_frame n (j + 1) video1 (ptr + k) low1 (inl (omega (arith, column_next j))) in
            rw e (rw plain (frame ∙ one ∙ rw off (ground arith)))
        | inr later ↦
            rw plain
              (draw_row_lem n (j + 1) video1 j0 k low1 (ground (arith, later)) (omega arith) hk)
      ]

module _ (pitch fb_x fb_y size : ℕ) (pair glyph : ℕ → ℕ) (fits : (fb_x + 8) * size ≤ pitch) where
  line_next : (i : ℕ) → pitch * (fb_y + (i + 1)) ≡ pitch * (fb_y + i) + pitch
  line_next i = omega arith

  -- Nor does the offset of a line where the one behind the last does not.
  line_plain :
      (n i : ℕ)
      → pitch * (fb_y + (i + suc n)) < 2 ^ 32
      → (pitch * (fb_y + i) + (fb_x + 8) * size < 2 ^ 32) × (pitch * (fb_y + (i + 1 + n)) < 2 ^ 32)
  line_plain n i low =
      let same : i + suc n ≡ i + 1 + n = omega arith in
      let more : pitch * (fb_y + (i + 1)) ≤ pitch * (fb_y + (i + 1 + n)) = omega arith in
      let low1 : pitch * (fb_y + (i + 1 + n)) < 2 ^ 32 = rw (← same) low in
      (omega (arith, line_next i, more, low1, fits), low1)

  draw_rows_frame :
      (n i : ℕ) (video : ℕ → ℕ) (a : ℕ)
      → pitch * (fb_y + (i + n)) < 2 ^ 32
      → a < pitch * (fb_y + i)
      → draw_rows n i pitch fb_x fb_y size pair glyph video a ≡ video a
  unfolding draw_rows
  draw_rows_frame zero i video a low below = refl
  draw_rows_frame (suc n) i video a low below =
      let (row, low1) = line_plain n i low in
      let line = pitch * (fb_y + i) in
      draw_rows_frame n (i + 1) (draw_row 8 0 line fb_x size pair (glyph i) video) a low1
        (omega (arith, line_next i))
      ∙ draw_row_frame line fb_x size pair (glyph i) 8 0 video a row (inl (omega arith))

  draw_rows_lem :
      (n i : ℕ) (video : ℕ → ℕ) (i0 j k : ℕ)
      → pitch * (fb_y + (i + n)) < 2 ^ 32
      → i ≤ i0
      → i0 < i + n
      → j < 8
      → k < size
      → draw_rows n i pitch fb_x fb_y size pair glyph video
          (pitch * (fb_y + i0) + (fb_x + j) * size + k)
        ≡ color_of (glyph i0) j size pair k
  unfolding draw_rows
  draw_rows_lem zero i video i0 j k low lo hi hj hk = absurd (omega arith)
  draw_rows_lem (suc n) i video i0 j k low lo hi hj hk =
      let (row, low1) = line_plain n i low in
      let line = pitch * (fb_y + i) in
      let video1 = draw_row 8 0 line fb_x size pair (glyph i) video in
      elim (Bool-cases (i0 == i)) [
        | inl here ↦
            let e : i0 ≡ i = ground (arith, here) in
            let inside : (fb_x + j) * size + k < pitch = omega (arith, mul-le-mul_right size hj) in
            let frame =
              draw_rows_frame n (i + 1) video1 (line + (fb_x + j) * size + k) low1
                (omega (arith, inside, line_next i)) in
            rw e (
              frame
              ∙ draw_row_lem line fb_x size pair (glyph i) 8 0 video j k row (omega arith)
                  (omega arith) hk)
        | inr later ↦
            draw_rows_lem n (i + 1) video1 i0 j k low1 (ground (arith, later)) (omega arith) hj hk
      ]

two_pow_pos : (n : ℕ) → (2 ^ n == 0) ≡ false
two_pow_pos zero = refl
two_pow_pos (suc n) = ground (arith, two_pow_pos n, pow-suc 2 n)

color_of-test_bit :
    (row j size : ℕ) (pair : ℕ → ℕ) (k : ℕ)
    → color_of row j size pair k ≡ pair (if test_bit row (8 - j) then k else size + k)
unfolding color_of
color_of-test_bit row j size pair k = elim (Bool-cases (test_bit row (8 - j))) [
  | inl one ↦ rw (bit_and_pow row (8 - j), one, two_pow_pos (8 - j)) refl
  | inr zero_bit ↦ rw (bit_and_pow row (8 - j), zero_bit) refl
]

byte_digit_8 : (b : ℕ) → b < 256 → test_bit b 8 ≡ false
unfolding test_bit
byte_digit_8 b h = ground arith

module _ (charsize : ℕ) (glyphs : ℕ → ℕ) (ch x y : ℕ) (pair : ℕ → ℕ) (size : ℕ) (fb : Framebuffer)
    (fits : (x * 8 + 8) * size ≤ fb.pitch) (columns : x * 8 < 65536) (rows : y * 16 < 65536)
    (whole : fb.pitch * (y * 16 + 16) < 2 ^ 32) where
  -- Where the cell lies within a line of the video memory, its first column and row in 16 bits, and
  -- the offset behind its last line in 32, byte `k` of
  -- the pixel in column `j` and row `i` of the cell is that of the foreground if digit `8 - j` of
  -- the row of the glyph is set, and that of the background if it is not.
  pub fb_console_draw_glyph-pixels :
      (i j k : ℕ)
      → i < 16
      → j < 8
      → k < size
      → (fb_console_draw_glyph charsize glyphs ch x y pair size fb).video
          (fb.pitch * (y * 16 + i) + (x * 8 + j) * size + k)
        ≡ pair (if test_bit (glyphs (charsize * ch + i)) (8 - j) then k else size + k)
  unfolding fb_console_draw_glyph
  fb_console_draw_glyph-pixels i j k hi hj hk =
      let ex : x * 8 % 65536 ≡ x * 8 = omega (arith, columns) in
      let ey : y * 16 % 65536 ≡ y * 16 = omega (arith, rows) in
      rw (ex, ey)
        (draw_rows_lem fb.pitch (x * 8) (y * 16) size pair (λ r. glyphs (charsize * ch + r)) fits 16
            0 fb.video i j k whole (omega arith) (omega arith) hj hk
          ∙ color_of-test_bit (glyphs (charsize * ch + i)) j size pair k)

  -- For a font of bytes, the first column of every cell shows the background, whatever the glyph is.
  pub fb_console_draw_glyph-first_column :
      (i k : ℕ)
      → glyphs (charsize * ch + i) < 256
      → i < 16
      → k < size
      → (fb_console_draw_glyph charsize glyphs ch x y pair size fb).video
          (fb.pitch * (y * 16 + i) + (x * 8 + 0) * size + k)
        ≡ pair (size + k)
  fb_console_draw_glyph-first_column i k byte hi hk =
      fb_console_draw_glyph-pixels i 0 k hi (omega arith) hk
      ∙ rw (byte_digit_8 (glyphs (charsize * ch + i)) byte) refl
