-- ===== src/Console/Putch.antt =====
-- `__console_putch` of kernel/kernel/console/console.c and what it calls: the selection of colours,
-- the clearing of a line, the scrolling of the screen; and the functions that write to the console.
-- The copy of the text that CONFIG_DEBUG_SERIAL sends to the serial port is left out.
use ikaros.Base.{
  ℕ, zero, suc, ◌+◌, ◌-◌, ◌*◌, ◌%◌, bit_and, bit_or, ◌&&◌, Option, none, some, List, [], ◌∷◌, leb,
  ltb, ◌==◌, if◌then◌else◌, get_or, get_elem?, set, replicate,
}
use ikaros.Libc.Convert.{atoi}
use ikaros.Console.{
  Console, Step, ◌>>=◌, console_flag_dirty, console_flag_autodraw, write_cell, blank,
  console_parameter_terminator, parameter, select_rendition,
}

-- The end of the parameter, or `none` for -1. A parameter of 32 bytes has a NUL, so `atoi` ends.
unfoldable pub console_sgr_consume_parameter : ℕ → Console → Option ℕ × Console
unfolding console_parameter_terminator parameter select_rendition
console_sgr_consume_parameter pos c =
    if ltb pos c.escape_code_length
    then elim (console_parameter_terminator (c.escape_code_length - pos) pos c) [
      | none ↦ (none, c)
      | some end ↦
          let text = parameter (end - pos) 0 pos c.escape_code_sequence (replicate 32 0) in
          let c1 = record c { escape_code_parameter = text } in
          elim (atoi 33 (λ i. get_or text i 0)) [
            | none ↦ (some end, c1)
            | some value ↦ (some end, select_rendition value c1)
          ]
    ]
    else (none, c)

-- `while(pos > 0)`
unfoldable pub console_sgr_loop : ℕ → Option ℕ × Console → Step
unfolding console_sgr_consume_parameter
console_sgr_loop fuel (none, c) = some c
console_sgr_loop zero (some pos, c) = none
console_sgr_loop (suc fuel) (some pos, c) =
    let rest = console_sgr_loop fuel (console_sgr_consume_parameter (pos + 1) c) in
    if pos == 0 then some c else rest

unfoldable pub console_sgr : Console → Step
unfolding console_sgr_loop
console_sgr c = console_sgr_loop 32 (some 1, c)

unfoldable pub console_clear_to_end_of_line : Console → Step
unfolding blank
console_clear_to_end_of_line c =
    if c.row == c.rows
    then some c
    else blank (c.columns - c.column) (c.row * c.columns % 65536) c.column c >>= λ c1.
        some (record c1 { row = (c1.row + 1) % 65536; column = 0 })

-- A byte of an escape sequence.
unfoldable pub append_code : ℕ → Console → Step
append_code ch c =
    if ltb c.escape_code_length 32
    then some (record c {
      escape_code_sequence = set c.escape_code_sequence c.escape_code_length ch;
      escape_code_length = c.escape_code_length + 1;
    })
    else none

unfoldable pub run_code : ℕ → Console → Step
unfolding console_clear_to_end_of_line console_sgr
run_code ch c =
    if ch == 75 then console_clear_to_end_of_line c else if ch == 109 then console_sgr c else some c

unfoldable pub escape_code : ℕ → Console → Step
unfolding append_code run_code
escape_code ch c =
    if c.escape_code_length == 1
    then (if ch == 91 then append_code ch c else some (record c { escape_code_length = 0 }))
    else if leb 64 ch && leb ch 126
    then (append_code ch c >>= λ c1.
        run_code ch c1 >>= λ c2. some (record c2 { escape_code_length = 0 }))
    else append_code ch c

-- One row moved up: `n` cells from column `j` of row `i`.
unfoldable pub move_cells : ℕ → ℕ → ℕ → Console → Step
unfolding write_cell
move_cells zero i j c = some c
move_cells (suc n) i j c = elim (get_elem? c.buffer (i * c.columns + j)) [
  | none ↦ none
  | some cell ↦ write_cell ((i - 1) * c.columns + j) cell c >>= λ c1. move_cells n i (j + 1) c1
]

unfoldable pub move_rows : ℕ → ℕ → Console → Step
unfolding move_cells
move_rows zero i c = some c
move_rows (suc n) i c = move_cells c.columns i 0 c >>= λ c1. move_rows n (i + 1) c1

-- The blank cells of the last row, `n` of them from `i` on, from `start`. `index` has 16 bits.
unfoldable pub blank_last : ℕ → ℕ → ℕ → Console → Step
unfolding write_cell
blank_last zero start i c = some c
blank_last (suc n) start i c =
    write_cell ((start + i) % 65536) (record { ch = 32; attrs = c.attrs }) c >>= λ c1.
    blank_last n start (i + 1) c1

unfoldable pub scroll : Console → Step
unfolding move_rows blank_last
scroll c = move_rows (c.rows - 1) 1 c >>= λ c1.
    blank_last c1.columns ((c1.rows - 1) * c1.columns) 0 c1 >>= λ c2.
    some (record c2 { column = 0; row = c2.row - 1 })

unfoldable pub put_char : ℕ → Console → Step
unfolding write_cell
put_char ch c =
    if ch == 10
    then some (record c { column = 0; row = (c.row + 1) % 65536 })
    else write_cell (c.row * c.columns + c.column) (record { ch = ch; attrs = c.attrs }) c >>= λ c1.
        if c1.column + 1 == c1.columns
        then some (record c1 { column = 0; row = (c1.row + 1) % 65536 })
        else some (record c1 { column = (c1.column + 1) % 65536 })

unfoldable pub begin_escape : Console → Console
begin_escape c = record c {
  escape_code_sequence = set (replicate 32 0) 0 27;
  escape_code_length = 1;
}

unfoldable pub putch : ℕ → Console → Step
unfolding begin_escape escape_code scroll put_char
putch ch c =
    if ch == 27
    then some (begin_escape c)
    else if ltb 0 c.escape_code_length
    then escape_code ch c
    else if c.row == c.rows
    then (scroll c >>= λ c1. put_char ch c1)
    else put_char ch c

unfoldable pub putch_all : List ℕ → Console → Step
unfolding putch
putch_all [] c = some c
putch_all (ch ∷ chs) c = putch ch c >>= λ c1. putch_all chs c1

module _ {D : Type 0} (redraw : Console → D → D) where
  unfoldable pub console_redraw : Console → D → Console × D
  console_redraw c d =
      if bit_and c.flags console_flag_dirty == 0
      then (c, d)
      else (record c { flags = bit_and c.flags 4294967294 }, redraw c d)

  -- The flag for a redraw, which is done at once with `CONSOLE_FLAG_AUTODRAW`.
  unfoldable pub touched : Console → D → Console × D
  unfolding console_redraw
  touched c d =
      let c1 = record c { flags = bit_or c.flags console_flag_dirty } in
      if bit_and c1.flags console_flag_autodraw == 0 then (c1, d) else console_redraw c1 d

  unfoldable pub console_initialize : Console → D → Option (Console × D)
  unfolding touched blank
  console_initialize c d =
      let c0 = record c { row = 0; column = 0; attrs = 7 } in
      elim (blank (c.rows * c.columns) 0 0 c0) [ none ↦ none | some c1 ↦ some (touched c1 d) ]

  unfoldable pub console_write : List ℕ → Console → D → Option (Console × D)
  unfolding putch_all touched
  console_write buf c d = elim (putch_all buf c) [ none ↦ none | some c1 ↦ some (touched c1 d) ]

  unfoldable pub console_putch : ℕ → Console → D → Option (Console × D)
  unfolding putch touched
  console_putch ch c d = elim (putch ch c) [ none ↦ none | some c1 ↦ some (touched c1 d) ]
