-- ===== src/Vga/Tests.antt =====
-- The cursor of a card in its corner, moved and hidden.
use ikaros.Base.{◌≡◌, refl, true, false, ◌==◌, if◌then◌else◌}
use ikaros.Vga.{CursorState, vga_console_redraw}
use ikaros.Vga.Cursor.{Card, write_all, Shows, vga_console_redraw-Shows}

abbrev cursor : CursorState
cursor = record { column = 0; row = 0; visible = true }

abbrev card : Card
card = record { index = 0; registers = λ i. if i == 10 then 31 else 0 }

vga_console_redraw-Shows_example :
    let r = vga_console_redraw 7 3 false cursor in
    Shows r.0 (write_all r.1 card) × (r.0.column ≡ 7) × (r.0.row ≡ 3) × (r.0.visible ≡ false)
vga_console_redraw-Shows_example =
    vga_console_redraw-Shows 7 3 false cursor card (record { place = refl; shape = refl })
