-- ===== src/Framebuffer/Tests.antt =====
-- A glyph whose rows are all set, on a framebuffer of 640 by 480 pixels of four bytes.
use ikaros.Base.{ℕ, ◌+◌, ◌-◌, ◌*◌, ◌≡◌, true, [], arith, if◌then◌else◌}
use ikaros.Base.Bits.{test_bit}
use ikaros.Framebuffer.{Framebuffer, fb_console_draw_glyph}
use ikaros.Framebuffer.Glyph.{fb_console_draw_glyph-pixels}

abbrev screen : Framebuffer
screen = record {
  pitch = 2560;
  bpp = 32;
  rgb = true;
  palette = [];
  format = record {
    red_mask_size = 8;
    red_position = 16;
    green_mask_size = 8;
    green_position = 8;
    blue_mask_size = 8;
    blue_position = 0;
  };
  video = λ a. 0;
  lut = λ a. 0;
}

-- The foreground has the bytes 0 to 3, the background 4 to 7.
abbrev pair : ℕ → ℕ
pair k = k

fb_console_draw_glyph-pixels_example :
    (fb_console_draw_glyph 16 (λ i. 255) 65 3 2 pair 4 screen).video
      (2560 * (2 * 16 + 5) + (3 * 8 + 7) * 4 + 1)
    ≡ pair (if test_bit 255 (8 - 7) then 1 else 4 + 1)
fb_console_draw_glyph-pixels_example =
    fb_console_draw_glyph-pixels 16 (λ i. 255) 65 3 2 pair 4 screen (omega arith) (omega arith)
      (omega arith) (omega arith) 5 7 1 (omega arith) (omega arith) (omega arith)
