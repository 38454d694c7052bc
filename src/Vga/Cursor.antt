-- ===== src/Vga/Cursor.antt =====
-- The registers of the card behind the writes: the cursor stays where the console has it.
use ikaros.Base.{
  ℕ, ◌+◌, ◌*◌, ◌%◌, ◌^◌, ◌≡◌, inl, inr, refl, ◌∙◌, Bool, true, false, not, ◌||◌, List, [], ◌∷◌,
  ◌++◌, arith, ◌==◌, if◌then◌else◌, Bool-cases,
}
use ikaros.Vga.{
  CursorState, Out, vga_enable_cursor, vga_disable_cursor, vga_set_cursor, move_cursor, show_cursor,
  vga_console_redraw,
}

-- The card: port 0x3D4 selects a register, port 0x3D5 writes it.
pub record Card : Type 0 where
  pub index : ℕ
  pub registers : ℕ → ℕ

unfoldable pub write_card : Out → Card → Card
write_card o card =
    if o.port == 980
    then record card { index = o.value }
    else if o.port == 981
    then record card { registers = λ i. if i == card.index then o.value else card.registers i }
    else card

unfoldable pub write_all : List Out → Card → Card
unfolding write_card
write_all [] card = card
write_all (o ∷ os) card = write_all os (write_card o card)

-- The card shows the cursor that the variables describe: its place in registers 15 and 14, and bit
-- 5 of register 10 clear where it is visible.
pub record Shows (c : CursorState) (card : Card) : Type 0 where
  pub place : card.registers 15 + 256 * card.registers 14 ≡ (c.row * 80 + c.column) % 2 ^ 16
  pub shape : card.registers 10 ≡ (if c.visible then 31 else 63)

write_all-append :
    (os ps : List Out) (card : Card) → write_all (os ++ ps) card ≡ write_all ps (write_all os card)
unfolding write_all
write_all-append [] ps card = refl
write_all-append (o ∷ os) ps card = write_all-append os ps (write_card o card)

move-Shows :
    (column row : ℕ) (c : CursorState) (card : Card)
    → Shows c card
    → let m = move_cursor column row c in
      Shows m.0 (write_all m.1 card)
      × (m.0.column ≡ column)
      × (m.0.row ≡ row)
      × (m.0.visible ≡ c.visible)
unfolding move_cursor vga_set_cursor write_all write_card
move-Shows column row c card shows =
    elim (Bool-cases (not (column == c.column) || not (row == c.row))) [
      | inl away ↦ rw away (record { place = omega arith; shape = shows.shape }, refl, refl, refl)
      | inr here ↦ rw here (shows, ground (arith, here), ground (arith, here), refl)
    ]

show-Shows :
    (show : Bool) (column row : ℕ) (visible : Bool) (card : Card)
    → let c : CursorState = record { column = column; row = row; visible = visible } in
      Shows c card
      → let m = show_cursor show c in
        Shows m.0 (write_all m.1 card)
        × (m.0.column ≡ column)
        × (m.0.row ≡ row)
        × (m.0.visible ≡ show)
unfolding show_cursor vga_enable_cursor vga_disable_cursor write_all write_card
show-Shows true column row true card shows = (shows, refl, refl, refl)
show-Shows true column row false card shows =
    (record { place = shows.place; shape = refl }, refl, refl, refl)
show-Shows false column row true card shows =
    (record { place = shows.place; shape = refl }, refl, refl, refl)
show-Shows false column row false card shows = (shows, refl, refl, refl)

-- If the card shows the cursor of the variables, then behind a redraw it does so again, and the
-- variables have the place that the console says and are visible as it says.
pub vga_console_redraw-Shows :
    (column row : ℕ) (show : Bool) (c : CursorState) (card : Card)
    → Shows c card
    → let r = vga_console_redraw column row show c in
      Shows r.0 (write_all r.1 card)
      × (r.0.column ≡ column)
      × (r.0.row ≡ row)
      × (r.0.visible ≡ show)
unfolding vga_console_redraw
vga_console_redraw-Shows column row show c card shows =
    let m = move_cursor column row c in
    let (shows1, at_column, at_row, _) = move-Shows column row c card shows in
    let (shows2, same_column, same_row, visible) =
      show-Shows show m.0.column m.0.row m.0.visible (write_all m.1 card) shows1 in
    (
      rw (write_all-append m.1 (show_cursor show m.0).1 card) shows2,
      same_column ∙ at_column,
      same_row ∙ at_row,
      visible,
    )
