-- ===== src/Console/Cells.antt =====
-- Writes to the cells of the screen, one and many.
use ikaros.Base.{
  ℕ, zero, suc, ◌+◌, ◌-◌, ◌*◌, ◌%◌, ◌<◌, ◌≤◌, ◌≡◌, refl, ap, ◌∙◌, some, List, [], ◌∷◌, length,
  get_elem?, set, length-set, arith,
}
use mathlib.Core.Path.{fun_ext}
use ikaros.Console.{Console, ConsoleChar, Step, ◌>>=◌, write_cell, blank}
use ikaros.Console.Putch.{move_cells, move_rows, blank_last}

-- The same console but for the cells and the cursor.
pub record SameFrame (c r : Console) : Type 0 where
  pub columns : r.columns ≡ c.columns
  pub rows : r.rows ≡ c.rows
  pub column : r.column ≡ c.column
  pub row : r.row ≡ c.row
  pub cells : length r.buffer ≡ length c.buffer
  pub attrs : r.attrs ≡ c.attrs
  pub flags : r.flags ≡ c.flags
  pub sequence : r.escape_code_sequence ≡ c.escape_code_sequence
  pub parameter : r.escape_code_parameter ≡ c.escape_code_parameter
  pub code_length : r.escape_code_length ≡ c.escape_code_length

pub SameFrame-refl : (c : Console) → SameFrame c c
SameFrame-refl c = record {
  columns = refl;
  rows = refl;
  column = refl;
  row = refl;
  cells = refl;
  attrs = refl;
  flags = refl;
  sequence = refl;
  parameter = refl;
  code_length = refl;
}

pub SameFrame-trans : (a b c : Console) → SameFrame a b → SameFrame b c → SameFrame a c
SameFrame-trans a b c f g = record {
  columns = g.columns ∙ f.columns;
  rows = g.rows ∙ f.rows;
  column = g.column ∙ f.column;
  row = g.row ∙ f.row;
  cells = g.cells ∙ f.cells;
  attrs = g.attrs ∙ f.attrs;
  flags = g.flags ∙ f.flags;
  sequence = g.sequence ∙ f.sequence;
  parameter = g.parameter ∙ f.parameter;
  code_length = g.code_length ∙ f.code_length;
}

abbrev pub Draws : Step → Console → Type 0
Draws step c = (r : Console) × (step ≡ some r) × SameFrame c r

pub write_cell-Draws :
    (i : ℕ) (cell : ConsoleChar) (c : Console) → i < length c.buffer → Draws (write_cell i cell c) c
unfolding write_cell
write_cell-Draws i cell c h =
    let f = SameFrame-refl c in
    (
      record c { buffer = set c.buffer i cell },
      ground (arith, h),
      record {
        columns = refl;
        rows = refl;
        column = refl;
        row = refl;
        cells = length-set c.buffer i cell;
        attrs = refl;
        flags = refl;
        sequence = refl;
        parameter = refl;
        code_length = refl;
      },
    )

pub blank-Draws :
    (n index i : ℕ) (c : Console) → index + i + n ≤ length c.buffer → Draws (blank n index i c) c
unfolding blank
blank-Draws zero index i c h = (c, refl, SameFrame-refl c)
blank-Draws (suc n) index i c h =
    let (c1, e1, f1) =
      write_cell-Draws (index + i) (record { ch = 32; attrs = c.attrs }) c (omega arith) in
    let (r, e, f) = blank-Draws n index (i + 1) c1 (omega (arith, f1.cells)) in
    (r, rw e1 e, SameFrame-trans c c1 r f1 f)

-- The same cells, where the index does not wrap.
pub blank_last-blank :
    (n start i : ℕ) (c : Console)
    → start + i + n ≤ 65536
    → blank_last n start i c ≡ blank n start i c
unfolding blank_last blank
blank_last-blank zero start i c h = refl
blank_last-blank (suc n) start i c h =
    let plain : (start + i) % 65536 ≡ start + i = omega arith in
    rw plain (
      ap (λ k. write_cell (start + i) (record { ch = 32; attrs = c.attrs }) c >>= k)
        (fun_ext (λ c1. blank_last-blank n start (i + 1) c1 (omega arith))))

pub get_elem?-lt :
    {A : Type 0} (xs : List A) (i : ℕ) → i < length xs → (x : A) × (get_elem? xs i ≡ some x)
get_elem?-lt [] i h = elim h [ ]
get_elem?-lt (x ∷ xs) zero h = (x, refl)
get_elem?-lt (x ∷ xs) (suc i) h = get_elem?-lt xs i (omega arith)

pub pred-mul : (i k : ℕ) → 0 < i → i * k ≡ (i - 1) * k + k
pred-mul zero k h = absurd (omega arith)
pred-mul (suc i) k h = let e : suc i - 1 ≡ i = omega arith in rw e (omega arith)

pub move_cells-Draws :
    (n i j : ℕ) (c : Console)
    → 0 < i
    → i * c.columns + j + n ≤ length c.buffer
    → Draws (move_cells n i j c) c
unfolding move_cells
move_cells-Draws zero i j c pos h = (c, refl, SameFrame-refl c)
move_cells-Draws (suc n) i j c pos h =
    let (cell, e0) = get_elem?-lt c.buffer (i * c.columns + j) (omega arith) in
    let (c1, e1, f1) =
      write_cell-Draws ((i - 1) * c.columns + j) cell c (omega (arith, pred-mul i c.columns pos)) in
    let h1 : i * c1.columns + (j + 1) + n ≤ length c1.buffer =
      rw f1.columns (omega (arith, f1.cells)) in
    let (r, e, f) = move_cells-Draws n i (j + 1) c1 pos h1 in
    (r, rw (e0, move_cells) (rw e1 e), SameFrame-trans c c1 r f1 f)

pub move_rows-Draws :
    (n i : ℕ) (c : Console)
    → 0 < i
    → (i + n) * c.columns ≤ length c.buffer
    → Draws (move_rows n i c) c
unfolding move_rows
move_rows-Draws zero i c pos h = (c, refl, SameFrame-refl c)
move_rows-Draws (suc n) i c pos h =
    let (c1, e1, f1) = move_cells-Draws c.columns i 0 c pos (omega arith) in
    let h1 : (i + 1 + n) * c1.columns ≤ length c1.buffer =
      rw f1.columns (omega (arith, f1.cells)) in
    let (r, e, f) = move_rows-Draws n (i + 1) c1 (omega arith) h1 in
    (r, rw e1 e, SameFrame-trans c c1 r f1 f)
