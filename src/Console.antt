-- ===== src/Console.antt =====
-- kernel/kernel/console/console.c: the text console, its escape sequences and its colours. A write
-- out of bounds of the screen's buffer or of an array of the escape codes is `none`. `ops->redraw`
-- acts on a display `D`.
pub mod Rendition
pub mod Colour
pub mod Escape
pub mod Cells
pub mod Screen
pub mod Gathering
pub mod Contents
pub mod Putch
pub mod Tests
use ikaros.Base.{
  ℕ, zero, suc, ◌+◌, ◌-◌, ◌*◌, ◌/◌, ◌%◌, bit_and, bit_or, Bool, true, false, ◌&&◌, ◌||◌, Option,
  none, some, List, [], ◌∷◌, leb, ltb, ◌==◌, if◌then◌else◌, length, get_or, set, replicate,
}
use ikaros.Libc.Convert.{atoi}

pub record ConsoleChar : Type 0 where
  pub ch : ℕ
  pub attrs : ℕ

pub record Console : Type 0 where
  pub columns : ℕ
  pub rows : ℕ
  pub column : ℕ
  pub row : ℕ
  pub attrs : ℕ
  pub flags : ℕ
  pub escape_code_sequence : List ℕ
  pub escape_code_parameter : List ℕ
  pub escape_code_length : ℕ
  pub buffer : List ConsoleChar

abbrev pub Step : Type 0
Step = Option Console

infixl 5 ◌>>=◌
abbrev pub ◌>>=◌ : Step → (Console → Step) → Step
none >>= f = none
some c >>= f = f c

abbrev pub console_flag_dirty : ℕ
console_flag_dirty = 1

abbrev pub console_flag_autodraw : ℕ
console_flag_autodraw = 2

unfoldable pub console_entry_color : ℕ → ℕ → ℕ
console_entry_color fg bg = bit_or fg (bg * 16) % 256

unfoldable pub bg_from_console_color : ℕ → ℕ
bg_from_console_color color = bit_and color 240 / 16

unfoldable pub fg_from_console_color : ℕ → ℕ
fg_from_console_color color = bit_and color 15

-- The colours of ANSI in the order of VGA.
unfoldable pub console_ansi_to_vga : ℕ → ℕ
console_ansi_to_vga ansi = get_or (0 ∷ 4 ∷ 2 ∷ 6 ∷ 1 ∷ 5 ∷ 3 ∷ 7 ∷ []) ansi 13

unfoldable pub console_set_foreground_color_ansi : ℕ → Console → Console
unfolding console_entry_color bg_from_console_color fg_from_console_color console_ansi_to_vga
console_set_foreground_color_ansi color c =
    let bg = bg_from_console_color c.attrs in
    let bright_bit = bit_and (fg_from_console_color color) 8 in
    let clr = console_ansi_to_vga color in
    record c { attrs = console_entry_color (if bright_bit == 0 then clr else bit_or clr 8) bg }

unfoldable pub console_set_foreground_color : ℕ → Console → Console
unfolding console_entry_color bg_from_console_color
console_set_foreground_color color c = record c {
  attrs = console_entry_color color (bg_from_console_color c.attrs);
}

unfoldable pub console_set_background_color_ansi : ℕ → Console → Console
unfolding console_entry_color fg_from_console_color console_ansi_to_vga
console_set_background_color_ansi color c = record c {
  attrs = console_entry_color (fg_from_console_color c.attrs) (console_ansi_to_vga color);
}

-- One write to the screen's buffer.
unfoldable pub write_cell : ℕ → ConsoleChar → Console → Step
write_cell i cell c =
    if ltb i (length c.buffer) then some (record c { buffer = set c.buffer i cell }) else none

-- Blank cells from `index + i`, `n` of them.
unfoldable pub blank : ℕ → ℕ → ℕ → Console → Step
unfolding write_cell
blank zero index i c = some c
blank (suc n) index i c = write_cell (index + i) (record { ch = 32; attrs = c.attrs }) c >>= λ c1.
    blank n index (i + 1) c1

-- The parameter is looked for in the bytes from `pos` on, `n` of them.
unfoldable pub console_parameter_terminator : ℕ → ℕ → Console → Option ℕ
console_parameter_terminator zero pos c = none
console_parameter_terminator (suc n) pos c =
    let rest = console_parameter_terminator n (pos + 1) c in
    let b = get_or c.escape_code_sequence pos 0 in if b == 59 || b == 109 then some pos else rest

-- The bytes `[pos, pos + n)` copied to the front of 32 NULs.
unfoldable pub parameter : ℕ → ℕ → ℕ → List ℕ → List ℕ → List ℕ
parameter zero i pos sequence to = to
parameter (suc n) i pos sequence to =
    parameter n (i + 1) pos sequence (set to i (get_or sequence (pos + i) 0))

-- What the value of a parameter selects.
unfoldable pub select_rendition : ℕ → Console → Console
unfolding console_set_foreground_color_ansi console_set_background_color_ansi
    console_set_foreground_color
select_rendition value c =
    let fg = fg_from_console_color c.attrs in
    if leb 30 value && leb value 37
    then console_set_foreground_color_ansi (value - 30) c
    else if leb 40 value && leb value 47
    then console_set_background_color_ansi (value - 40) c
    else if value == 1
    then console_set_foreground_color (bit_or fg 8) c
    else if value == 22
    then console_set_foreground_color (bit_and fg 7) c
    else c
