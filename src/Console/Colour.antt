-- ===== src/Console/Colour.antt =====
-- The escape sequences that select a colour, from their first byte to the attributes.
use ikaros.Base.{ℕ, zero, suc, ◌+◌, ◌<◌, ◌≡◌, refl, some, List, [], ◌∷◌, arith}
use ikaros.Libc.Convert.{atoi}
use ikaros.Console.{
  Console, console_entry_color, console_ansi_to_vga, bg_from_console_color, fg_from_console_color,
  console_set_foreground_color_ansi, console_set_background_color_ansi, select_rendition,
  console_parameter_terminator, parameter,
}
use ikaros.Console.Putch.{
  putch, putch_all, console_sgr, console_sgr_loop, console_sgr_consume_parameter, append_code,
  run_code, escape_code, begin_escape,
}

-- ESC [ `tens` `units` m
abbrev pub colour_code : ℕ → ℕ → List ℕ
colour_code tens units = 27 ∷ 91 ∷ (48 + tens) ∷ (48 + units) ∷ 109 ∷ []

-- The console with other attributes and no escape sequence begun, the same but for the arrays of the
-- escape codes.
abbrev pub Recoloured : Console → ℕ → Console → Type 0
Recoloured c attrs r =
    (r.attrs ≡ attrs)
    × (r.buffer ≡ c.buffer)
    × (r.row ≡ c.row)
    × (r.column ≡ c.column)
    × (r.escape_code_length ≡ 0)

-- ESC [ 3 d m makes ANSI colour `d` the foreground and keeps the background, whatever the console
-- was doing; the screen and the cursor stay.
pub putch_all-foreground :
    (d : ℕ) (c : Console)
    → d < 8
    → (r : Console) × (putch_all (colour_code 3 d) c ≡ some r)
      × Recoloured c (console_entry_color (console_ansi_to_vga d) (bg_from_console_color c.attrs)) r
unfolding putch_all putch console_sgr console_sgr_loop console_sgr_consume_parameter
    console_parameter_terminator parameter select_rendition atoi begin_escape escape_code
    append_code run_code console_set_foreground_color_ansi console_ansi_to_vga
putch_all-foreground zero c h = (_, refl, (refl, refl, refl, refl, refl))
putch_all-foreground (suc zero) c h = (_, refl, (refl, refl, refl, refl, refl))
putch_all-foreground (suc (suc zero)) c h = (_, refl, (refl, refl, refl, refl, refl))
putch_all-foreground (suc (suc (suc zero))) c h = (_, refl, (refl, refl, refl, refl, refl))
putch_all-foreground (suc (suc (suc (suc zero)))) c h = (_, refl, (refl, refl, refl, refl, refl))
putch_all-foreground (suc (suc (suc (suc (suc zero))))) c h =
    (_, refl, (refl, refl, refl, refl, refl))
putch_all-foreground (suc (suc (suc (suc (suc (suc zero)))))) c h =
    (_, refl, (refl, refl, refl, refl, refl))
putch_all-foreground (suc (suc (suc (suc (suc (suc (suc zero))))))) c h =
    (_, refl, (refl, refl, refl, refl, refl))
putch_all-foreground (suc (suc (suc (suc (suc (suc (suc (suc d)))))))) c h = absurd (omega arith)

-- ESC [ 4 d m makes ANSI colour `d` the background and keeps the foreground.
pub putch_all-background :
    (d : ℕ) (c : Console)
    → d < 8
    → (r : Console) × (putch_all (colour_code 4 d) c ≡ some r)
      × Recoloured c (console_entry_color (fg_from_console_color c.attrs) (console_ansi_to_vga d)) r
unfolding putch_all putch console_sgr console_sgr_loop console_sgr_consume_parameter
    console_parameter_terminator parameter select_rendition atoi begin_escape escape_code
    append_code run_code console_set_background_color_ansi console_ansi_to_vga
putch_all-background zero c h = (_, refl, (refl, refl, refl, refl, refl))
putch_all-background (suc zero) c h = (_, refl, (refl, refl, refl, refl, refl))
putch_all-background (suc (suc zero)) c h = (_, refl, (refl, refl, refl, refl, refl))
putch_all-background (suc (suc (suc zero))) c h = (_, refl, (refl, refl, refl, refl, refl))
putch_all-background (suc (suc (suc (suc zero)))) c h = (_, refl, (refl, refl, refl, refl, refl))
putch_all-background (suc (suc (suc (suc (suc zero))))) c h =
    (_, refl, (refl, refl, refl, refl, refl))
putch_all-background (suc (suc (suc (suc (suc (suc zero)))))) c h =
    (_, refl, (refl, refl, refl, refl, refl))
putch_all-background (suc (suc (suc (suc (suc (suc (suc zero))))))) c h =
    (_, refl, (refl, refl, refl, refl, refl))
putch_all-background (suc (suc (suc (suc (suc (suc (suc (suc d)))))))) c h = absurd (omega arith)
