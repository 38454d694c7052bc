-- ===== src/Console/Screen.antt =====
-- The scrolling of the screen, a character on it, and the clearing of a line.
use ikaros.Base.{
  ℕ, zero, suc, ◌+◌, ◌-◌, ◌*◌, ◌%◌, ◌<◌, ◌≤◌, ◌≡◌, refl, sym, ◌∙◌, some, ◌==◌, length, arith,
  Bool-cases, inl, inr,
}
use ikaros.Console.{Console, Step}
use ikaros.Console.Putch.{scroll, put_char, console_clear_to_end_of_line}
use ikaros.Console.Cells.{
  SameFrame, SameFrame-refl, SameFrame-trans, write_cell-Draws, blank-Draws, blank_last-blank,
  move_rows-Draws,
}

-- A console whose screen has its cells, with the cursor on it or at the start of the row below it.
pub record OnScreen (c : Console) : Type 0 where
  pub some_columns : 0 < c.columns
  pub some_rows : 0 < c.rows
  pub cells : length c.buffer ≡ c.rows * c.columns
  pub small : c.rows * c.columns < 65536
  pub row : c.row ≤ c.rows
  pub column : c.column < c.columns

-- A step that leaves the console on its screen, in the same colours and the same escape sequence.
pub record Kept (c r : Console) : Type 0 where
  pub on_screen : OnScreen r
  pub columns : r.columns ≡ c.columns
  pub rows : r.rows ≡ c.rows
  pub attrs : r.attrs ≡ c.attrs
  pub flags : r.flags ≡ c.flags
  pub sequence : r.escape_code_sequence ≡ c.escape_code_sequence
  pub parameter : r.escape_code_parameter ≡ c.escape_code_parameter
  pub code_length : r.escape_code_length ≡ c.escape_code_length

-- The same frame with the cursor moved.
moved :
    (c r : Console) (row column : ℕ)
    → OnScreen c
    → SameFrame c r
    → row ≤ c.rows
    → column < c.columns
    → Kept c (record r { row = row; column = column })
moved c r row column is f hr hc = record {
  on_screen = record {
    some_columns = omega (arith, f.columns, is.some_columns);
    some_rows = omega (arith, f.rows, is.some_rows);
    cells = f.cells ∙ is.cells ∙ sym (rw (f.rows, f.columns) refl);
    small = rw (f.rows, f.columns) is.small;
    row = omega (arith, f.rows);
    column = omega (arith, f.columns);
  };
  columns = f.columns;
  rows = f.rows;
  attrs = f.attrs;
  flags = f.flags;
  sequence = f.sequence;
  parameter = f.parameter;
  code_length = f.code_length;
}

abbrev pub Keeps : Step → Console → Type 0
Keeps step c = (r : Console) × (step ≡ some r) × Kept c r

mul-split : (row d k : ℕ) → (row + 1 + d) * k ≡ row * k + k + d * k
mul-split row d k = omega arith

pub mul-le : (row rows k : ℕ) → row < rows → row * k + k ≤ rows * k
mul-le row rows k h =
    let d = rows - (row + 1) in
    let e : rows ≡ row + 1 + d = omega arith in rw e (omega (arith, mul-split row d k))

le-mul : (r k : ℕ) → 0 < k → (r ≤ r * k) × (r ≤ k * r)
le-mul r zero h = absurd (omega arith)
le-mul r (suc k) h = (omega arith, omega arith)

-- A row of the screen lies in the buffer, below 2^16.
pub row_end :
    (c : Console) (row : ℕ)
    → OnScreen c
    → row < c.rows
    → (row * c.columns + c.columns ≤ length c.buffer) × (row * c.columns % 65536 ≡ row * c.columns)
row_end c row is h =
    let le = mul-le row c.rows c.columns h in (omega (arith, is.cells), omega (arith, is.small))

pub scroll-Keeps :
    (c : Console)
    → OnScreen c
    → c.row ≡ c.rows
    → (r : Console) × (scroll c ≡ some r) × Kept c r × (r.row < r.rows)
unfolding scroll
scroll-Keeps c is at =
    let (end, small) = row_end c (c.rows - 1) is (omega (arith, is.some_rows)) in
    let rows : 1 + (c.rows - 1) ≡ c.rows = omega (arith, is.some_rows) in
    let (c1, e1, f1) =
      move_rows-Draws (c.rows - 1) 1 c (omega arith) (rw rows (omega (arith, is.cells))) in
    let same : (c1.rows - 1) * c1.columns ≡ (c.rows - 1) * c.columns =
      rw (f1.rows, f1.columns) refl in
    let fits : (c1.rows - 1) * c1.columns + 0 + c1.columns ≤ length c1.buffer =
      rw same (omega (arith, f1.columns, f1.cells)) in
    let (c2, e2, f2) = blank-Draws c1.columns ((c1.rows - 1) * c1.columns) 0 c1 fits in
    let plain =
      blank_last-blank c1.columns ((c1.rows - 1) * c1.columns) 0 c1
        (omega (arith, fits, f1.cells, is.cells, is.small)) in
    let f = SameFrame-trans c c1 c2 f1 f2 in
    (
      record c2 { column = 0; row = c2.row - 1 },
      rw e1 (rw (plain, e2) refl),
      moved c c2 (c2.row - 1) 0 is f (omega (arith, f.row, is.row)) is.some_columns,
      omega (arith, f.row, f.rows, is.some_rows),
    )

pub put_char-Keeps : (ch : ℕ) (c : Console) → OnScreen c → c.row < c.rows → Keeps (put_char ch c) c
unfolding put_char
put_char-Keeps ch c is h =
    let (end, small) = row_end c c.row is h in
    let few : c.rows < 65536 =
      omega (arith, (le-mul c.rows c.columns is.some_columns).0, is.small) in
    let narrow : c.columns < 65536 =
      omega (arith, (le-mul c.columns c.rows is.some_rows).1, is.small) in
    let (c1, e1, f1) =
      write_cell-Draws (c.row * c.columns + c.column) (record { ch = ch; attrs = c.attrs }) c
        (omega (arith, is.column)) in
    elim (Bool-cases (ch == 10)) [
      | inl newline ↦ (
        record c { column = 0; row = (c.row + 1) % 65536 },
        rw newline refl,
        moved c c ((c.row + 1) % 65536) 0 is (SameFrame-refl c) (omega arith) is.some_columns,
      )
      | inr other ↦ elim (Bool-cases (c1.column + 1 == c1.columns)) [
        | inl last ↦ (
          record c1 { column = 0; row = (c1.row + 1) % 65536 },
          rw other (rw e1 (rw last refl)),
          moved c c1 ((c1.row + 1) % 65536) 0 is f1 (omega (arith, f1.row)) is.some_columns,
        )
        | inr more ↦ (
          record c1 { column = (c1.column + 1) % 65536 },
          rw other (rw e1 (rw more refl)),
          moved c c1 c1.row ((c1.column + 1) % 65536) is f1 (omega (arith, f1.row))
              (ground (arith, f1.column, f1.columns, is.column, narrow, more)),
        )
      ]
    ]

pub console_clear_to_end_of_line-Keeps :
    (c : Console) → OnScreen c → Keeps (console_clear_to_end_of_line c) c
unfolding console_clear_to_end_of_line
console_clear_to_end_of_line-Keeps c is = elim (Bool-cases (c.row == c.rows)) [
  | inl below ↦ (c, rw below refl, moved c c c.row c.column is (SameFrame-refl c) is.row is.column)
  | inr on ↦
      let (end, small) = row_end c c.row is (ground (arith, is.row)) in
      let few : c.rows < 65536 =
        omega (arith, (le-mul c.rows c.columns is.some_columns).0, is.small) in
      let (c1, e1, f1) =
        blank-Draws (c.columns - c.column) (c.row * c.columns % 65536) c.column c
          (rw small (omega (arith, is.column))) in
      (
        record c1 { row = (c1.row + 1) % 65536; column = 0 },
        rw on (rw e1 refl),
        moved c c1 ((c1.row + 1) % 65536) 0 is f1 (ground (arith, f1.row, is.row)) is.some_columns,
      )
]
