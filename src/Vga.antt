-- ===== src/Vga.antt =====
-- The cursor of kernel/arch/i386/kernel/drivers/console/vga_console.c: what is written to the ports
-- of the card. The characters stand in the memory of the card, which is the buffer of the console.
pub mod Bochs
pub mod Cursor
pub mod Tests
use ikaros.Base.{
  ℕ, zero, suc, ◌+◌, ◌*◌, ◌/◌, ◌%◌, ◌^◌, Bool, true, false, not, ◌||◌, List, [], ◌∷◌, ◌++◌, ◌==◌,
  if◌then◌else◌,
}

-- `cursor_column`, `cursor_row` and `cursor_visible`.
pub record CursorState : Type 0 where
  pub column : ℕ
  pub row : ℕ
  pub visible : Bool

-- A call `outb_p(port, value)`.
pub record Out : Type 0 where
  pub port : ℕ
  pub value : ℕ

abbrev pub outb_p : ℕ → ℕ → Out
outb_p port value = record { port = port; value = value }

unfoldable pub vga_enable_cursor : CursorState → CursorState × List Out
vga_enable_cursor c = (record c { visible = true }, outb_p 980 10 ∷ outb_p 981 31 ∷ [])

unfoldable pub vga_disable_cursor : CursorState → CursorState × List Out
vga_disable_cursor c = (record c { visible = false }, outb_p 980 10 ∷ outb_p 981 63 ∷ [])

unfoldable pub vga_set_cursor : ℕ → ℕ → CursorState → CursorState × List Out
vga_set_cursor x y c =
    let pos = (y * 80 + x) % 2 ^ 16 in
    (
      record c { column = x; row = y },
      outb_p 980 15 ∷ outb_p 981 (pos % 256) ∷ outb_p 980 14 ∷ outb_p 981 (pos / 256 % 256) ∷ [],
    )

abbrev pub same_bool : Bool → Bool → Bool
same_bool true b = b
same_bool false b = not b

-- The cursor is moved, and then shown or hidden, where the console says something else.
unfoldable pub move_cursor : ℕ → ℕ → CursorState → CursorState × List Out
move_cursor column row c =
    if not (column == c.column) || not (row == c.row) then vga_set_cursor column row c else (c, [])

unfoldable pub show_cursor : Bool → CursorState → CursorState × List Out
show_cursor show c =
    if same_bool show c.visible
    then (c, [])
    else if show
    then vga_enable_cursor c
    else vga_disable_cursor c

unfoldable pub vga_console_redraw : ℕ → ℕ → Bool → CursorState → CursorState × List Out
vga_console_redraw column row show c =
    let moved = move_cursor column row c in
    let shown = show_cursor show moved.0 in (shown.0, moved.1 ++ shown.1)
