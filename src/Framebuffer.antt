-- ===== src/Framebuffer.antt =====
-- The console on a framebuffer: kernel/kernel/console/fbconsole.c. The video memory and the table
-- of colours are functions from offsets to bytes; the glyphs, which the build takes from a font
-- file, are an argument.
pub mod Glyph
pub mod Pairs
pub mod Tests
use ikaros.Base.{
  ℕ, zero, suc, ◌+◌, ◌-◌, ◌*◌, ◌/◌, ◌%◌, ◌^◌, bit_and, bit_or, Bool, true, false, not, ◌&&◌, Option,
  none, some, List, [], ◌∷◌, ltb, leb, ◌==◌, if◌then◌else◌, get_or, length,
}
use ikaros.Libc.Memory.{Bytes, memcpy}

pub record Palette : Type 0 where
  pub r : ℕ
  pub g : ℕ
  pub b : ℕ

pub record Format : Type 0 where
  pub red_mask_size : ℕ
  pub red_position : ℕ
  pub green_mask_size : ℕ
  pub green_position : ℕ
  pub blue_mask_size : ℕ
  pub blue_position : ℕ

pub record Framebuffer : Type 0 where
  pub pitch : ℕ
  pub bpp : ℕ
  pub rgb : Bool
  pub palette : List Palette
  pub format : Format
  pub video : ℕ → ℕ
  pub lut : ℕ → ℕ

abbrev pub set_color : ℕ → ℕ → ℕ → Palette
set_color r g b = record { r = r; g = g; b = b }

abbrev pub vga_palette_colors : List Palette
vga_palette_colors =
    set_color 0 0 0
    ∷ set_color 0 0 170
    ∷ set_color 0 170 0
    ∷ set_color 0 170 170
    ∷ set_color 170 0 0
    ∷ set_color 170 0 170
    ∷ set_color 170 85 0
    ∷ set_color 170 170 170
    ∷ set_color 85 85 85
    ∷ set_color 85 85 255
    ∷ set_color 85 255 85
    ∷ set_color 85 255 255
    ∷ set_color 255 85 85
    ∷ set_color 255 85 255
    ∷ set_color 255 255 255
    ∷ set_color 255 255 255
    ∷ []

abbrev pub write : ℕ → ℕ → (ℕ → ℕ) → ℕ → ℕ
write a v m = λ i. if i == a then v else m i

-- `for(k = 0; k < lut_size; k++) ptr[k] = color[k];`, by the rounds left.
unfoldable pub draw_pixel : ℕ → ℕ → ℕ → (ℕ → ℕ) → (ℕ → ℕ) → ℕ → ℕ
draw_pixel zero k ptr color video = video
draw_pixel (suc n) k ptr color video =
    draw_pixel n (k + 1) ptr color (write (ptr + k) (color k) video)

-- The colour of column `j`: the foreground is the first of the pair.
unfoldable pub color_of : ℕ → ℕ → ℕ → (ℕ → ℕ) → ℕ → ℕ
color_of row j lut_size lut_pair =
    if not (bit_and row (2 ^ (8 - j)) == 0) then lut_pair else λ k. lut_pair (lut_size + k)

-- `for(j = 0; j < 8; j++)`, in the line that begins at `line`. The offset has 32 bits.
unfoldable pub draw_row : ℕ → ℕ → ℕ → ℕ → ℕ → (ℕ → ℕ) → ℕ → (ℕ → ℕ) → ℕ → ℕ
draw_row zero j line fb_x lut_size lut_pair row video = video
draw_row (suc n) j line fb_x lut_size lut_pair row video =
    draw_row n (j + 1) line fb_x lut_size lut_pair row (
      draw_pixel lut_size 0 ((line + (fb_x + j) * lut_size) % 2 ^ 32)
        (color_of row j lut_size lut_pair) video)

-- `for(i = 0; i < 16; i++)`, for a glyph with the rows `glyph`.
unfoldable pub draw_rows : ℕ → ℕ → ℕ → ℕ → ℕ → ℕ → (ℕ → ℕ) → (ℕ → ℕ) → (ℕ → ℕ) → ℕ → ℕ
draw_rows zero i pitch fb_x fb_y lut_size lut_pair glyph video = video
draw_rows (suc n) i pitch fb_x fb_y lut_size lut_pair glyph video =
    draw_rows n (i + 1) pitch fb_x fb_y lut_size lut_pair glyph
      (draw_row 8 0 (pitch * (fb_y + i)) fb_x lut_size lut_pair (glyph i) video)

-- `charsize` and `glyphs` are those of the font.
unfoldable pub fb_console_draw_glyph :
    ℕ → (ℕ → ℕ) → ℕ → ℕ → ℕ → (ℕ → ℕ) → ℕ → Framebuffer → Framebuffer
fb_console_draw_glyph charsize glyphs ch x y lut_pair lut_size fb = record fb {
  video =
      draw_rows 16 0 fb.pitch (x * 8 % 65536) (y * 16 % 65536) lut_size lut_pair
        (λ i. glyphs (charsize * ch + i)) fb.video;
}

-- The two loops of the redraw, over cells of a character and its attributes.
unfoldable pub redraw_row : ℕ → ℕ → (ℕ → ℕ) → ℕ → ℕ → (ℕ → ℕ × ℕ) → Framebuffer → Framebuffer
redraw_row zero charsize glyphs i j cells fb = fb
redraw_row (suc n) charsize glyphs i j cells fb =
    let pixel_size = (fb.bpp + 7) / 8 in
    let cell = cells j in
    redraw_row n charsize glyphs i (j + 1) cells (
      fb_console_draw_glyph charsize glyphs cell.0 j i (λ k. fb.lut (cell.1 * (pixel_size * 2) + k))
        pixel_size fb)

unfoldable pub redraw_rows : ℕ → ℕ → (ℕ → ℕ) → ℕ → ℕ → (ℕ → ℕ × ℕ) → Framebuffer → Framebuffer
redraw_rows zero charsize glyphs columns i buffer fb = fb
redraw_rows (suc n) charsize glyphs columns i buffer fb =
    redraw_rows n charsize glyphs columns (i + 1) buffer
      (redraw_row columns charsize glyphs i 0 (λ j. buffer (i * columns + j)) fb)

unfoldable pub fb_console_redraw : ℕ → (ℕ → ℕ) → ℕ → ℕ → (ℕ → ℕ × ℕ) → Framebuffer → Framebuffer
fb_console_redraw charsize glyphs rows columns buffer fb =
    redraw_rows rows charsize glyphs columns 0 buffer fb

abbrev pub fb_palette_match : Palette → Palette → Bool
fb_palette_match pal color = pal.r == color.r && (pal.g == color.g && pal.b == color.b)

-- The first entry of the palette with the colour, or else the number of the colour.
unfoldable pub fb_console_lut_indexed : List Palette → ℕ → ℕ → ℕ
fb_console_lut_indexed [] i color = color
fb_console_lut_indexed (p ∷ ps) i color =
    let rest = fb_console_lut_indexed ps (i + 1) color in
    if fb_palette_match p (get_or vga_palette_colors color (set_color 0 0 0)) then i else rest

-- `for(int i = 0; i < x; i++) m |= 1 << i;`
unfoldable pub bitmask : ℕ → ℕ → ℕ → ℕ
bitmask zero i m = m
bitmask (suc n) i m = bitmask n (i + 1) (bit_or m (2 ^ i % 256))

unfoldable pub fb_console_lut_rgb : Format → ℕ → ℕ
fb_console_lut_rgb fmt color =
    let pal = get_or vga_palette_colors color (set_color 0 0 0) in
    let red = bit_and pal.r (bitmask fmt.red_mask_size 0 0) * 2 ^ fmt.red_position % 2 ^ 32 in
    let green = bit_and pal.g (bitmask fmt.green_mask_size 0 0) * 2 ^ fmt.green_position % 2 ^ 32 in
    let blue = bit_and pal.b (bitmask fmt.blue_mask_size 0 0) * 2 ^ fmt.blue_position % 2 ^ 32 in
    bit_or (bit_or red green) blue

-- Byte `k` of the pixel of a colour. A pixel of a palette has one byte.
unfoldable pub fb_console_lut : Framebuffer → ℕ → ℕ → ℕ
fb_console_lut fb color k =
    if fb.rgb
    then fb_console_lut_rgb fb.format color / 2 ^ (8 * k) % 256
    else fb_console_lut_indexed fb.palette 0 color

-- The loop of `fb_console_create_lut` over the pairs of colours, from pair `i` on: `buffer` and `lut`
-- are addresses, and `pixel_size` the bytes of a colour.
unfoldable pub pairs_loop : ℕ → ℕ → ℕ → ℕ → ℕ → Bytes → Bytes
pairs_loop zero i pixel_size buffer lut mem = mem
pairs_loop (suc n) i pixel_size buffer lut mem =
    let pair = lut + i * (pixel_size * 2) in
    let mem1 = memcpy pair (buffer + i % 16 * pixel_size) pixel_size mem in
    pairs_loop n (i + 1) pixel_size buffer lut
      (memcpy (pair + pixel_size) (buffer + i / 16 % 16 * pixel_size) pixel_size mem1)

-- The loop over all 256 pairs, behind the allocation of the table at `lut`.
unfoldable pub create_pairs : ℕ → ℕ → ℕ → Bytes → Bytes
create_pairs pixel_size buffer lut mem = pairs_loop 256 0 pixel_size buffer lut mem
