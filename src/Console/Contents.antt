-- ===== src/Console/Contents.antt =====
-- What stands in the cells of the screen behind the scrolling.
use ikaros.Base.{
  ℕ, zero, suc, ◌+◌, ◌-◌, ◌*◌, ◌<◌, ◌≤◌, ◌≡◌, refl, ap, ◌∙◌, subst, Bool, true, ◌&&◌, Option, some,
  List, [], ◌∷◌, leb, ltb, ◌==◌, if◌then◌else◌, length, get_or, get_elem?, set, length-set,
  get_or-set_self, get_or-set_ne, arith, Bool-cases, inl, inr,
}
use ikaros.Console.{Console, ConsoleChar, write_cell, blank}
use ikaros.Console.Putch.{move_cells, move_rows, scroll}
use ikaros.Console.Cells.{pred-mul, get_elem?-lt, blank_last-blank}
use ikaros.Console.Screen.{OnScreen, row_end, mul-le}

write_cell_lem :
    (i : ℕ) (cell : ConsoleChar) (c : Console)
    → i < length c.buffer
    → write_cell i cell c ≡ some (record c { buffer = set c.buffer i cell })
unfolding write_cell
write_cell_lem i cell c h = let fits : ltb i (length c.buffer) ≡ true = ground arith in rw fits refl

get_or-get_elem? :
    (xs : List ConsoleChar) (i : ℕ) (x d : ConsoleChar)
    → get_elem? xs i ≡ some x
    → get_or xs i d ≡ x
get_or-get_elem? [] i x d e = cc
get_or-get_elem? (y ∷ xs) zero x d e = cc
get_or-get_elem? (y ∷ xs) (suc i) x d e = get_or-get_elem? xs i x d e

abbrev within : ℕ → ℕ → ℕ → Bool
within lo n p = leb lo p && ltb p (lo + n)

-- `n` cells from `lo` on are those `width` cells further on.
abbrev Moved : ℕ → ℕ → ℕ → List ConsoleChar → List ConsoleChar → Type 0
Moved lo n width old new =
    (p : ℕ) (d : ConsoleChar)
    → get_or new p d ≡ (if within lo n p then get_or old (p + width) d else get_or old p d)

Moved-step :
    (lo n width : ℕ) (old new : List ConsoleChar) (cell : ConsoleChar)
    → 0 < width
    → lo < length old
    → ((d : ConsoleChar) → get_or old (lo + width) d ≡ cell)
    → Moved (lo + 1) n width (set old lo cell) new
    → Moved lo (suc n) width old new
Moved-step lo n width old new cell wide h here rest p d = elim (Bool-cases (p == lo)) [
  | inl at ↦ ground (arith, rest p d, here d, get_or-set_self old lo cell d h)
  | inr away ↦ ground (
    arith,
    rest p d,
    get_or-set_ne old lo p cell d (ground arith),
    get_or-set_ne old lo (p + width) cell d,
  )
]

Moved-join :
    (lo n m width : ℕ) (old mid new : List ConsoleChar)
    → n ≤ width
    → Moved lo n width old mid
    → Moved (lo + n) m width mid new
    → Moved lo (n + m) width old new
Moved-join lo n m width old mid new le f g p d = ground (arith, g p d, f p d, f (p + width) d)

-- A step that only writes cells, and moves `n` of them from `lo` on.
abbrev Moves : Option Console → Console → ℕ → ℕ → Type 0
Moves step c lo n =
    (cells : List ConsoleChar) × (step ≡ some (record c { buffer = cells }))
    × (length cells ≡ length c.buffer)
    × Moved lo n c.columns c.buffer cells

move_cells-Moves :
    (n i j : ℕ) (c : Console)
    → 0 < i
    → 0 < c.columns
    → i * c.columns + j + n ≤ length c.buffer
    → Moves (move_cells n i j c) c ((i - 1) * c.columns + j) n
unfolding move_cells
move_cells-Moves zero i j c pos wide h = (c.buffer, refl, refl, λ p d. ground arith)
move_cells-Moves (suc n) i j c pos wide h =
    let (cell, e0) = get_elem?-lt c.buffer (i * c.columns + j) (omega arith) in
    let lo = (i - 1) * c.columns + j in
    let above : lo + c.columns ≡ i * c.columns + j = omega (arith, pred-mul i c.columns pos) in
    let inside : lo < length c.buffer = omega (arith, above) in
    let c1 = record c { buffer = set c.buffer lo cell } in
    let (cells, e, size, moved) =
      move_cells-Moves n i (j + 1) c1 pos wide (omega (arith, length-set c.buffer lo cell)) in
    let next : (i - 1) * c.columns + (j + 1) ≡ lo + 1 = omega arith in
    (
      cells,
      rw (e0, move_cells) (rw (write_cell_lem lo cell c inside) e),
      size ∙ length-set c.buffer lo cell,
      Moved-step lo n c.columns c.buffer cells cell wide inside
          (λ d. rw above (get_or-get_elem? c.buffer (i * c.columns + j) cell d e0))
          (subst (λ k. Moved k n c.columns (set c.buffer lo cell) cells) next moved),
    )

move_rows-Moves :
    (n i : ℕ) (c : Console)
    → 0 < i
    → 0 < c.columns
    → (i + n) * c.columns ≤ length c.buffer
    → Moves (move_rows n i c) c ((i - 1) * c.columns) (n * c.columns)
unfolding move_rows
move_rows-Moves zero i c pos wide h = (c.buffer, refl, refl, λ p d. ground arith)
move_rows-Moves (suc n) i c pos wide h =
    let (cells1, e1, size1, moved1) = move_cells-Moves c.columns i 0 c pos wide (omega arith) in
    let c1 = record c { buffer = cells1 } in
    let (cells, e, size, moved) =
      move_rows-Moves n (i + 1) c1 (omega arith) wide (omega (arith, size1)) in
    let lo = (i - 1) * c.columns in
    let begins : lo + 0 ≡ lo = omega arith in
    let next : (i + 1 - 1) * c.columns ≡ lo + c.columns =
      let back : i + 1 - 1 ≡ i = omega arith in rw back (pred-mul i c.columns pos) in
    let all : c.columns + n * c.columns ≡ suc n * c.columns = omega arith in
    (
      cells,
      rw e1 e,
      size ∙ size1,
      subst (λ k. Moved lo k c.columns c.buffer cells) all
          (Moved-join lo c.columns (n * c.columns) c.columns c.buffer cells1 cells (omega arith)
            (subst (λ k. Moved k c.columns c.columns c.buffer cells1) begins moved1)
            (subst (λ k. Moved k (n * c.columns) c.columns cells1 cells) next moved)),
    )

-- `n` blank cells from `lo` on.
abbrev Blanked : ℕ → ℕ → ConsoleChar → List ConsoleChar → List ConsoleChar → Type 0
Blanked lo n cell old new =
    (p : ℕ) (d : ConsoleChar) → get_or new p d ≡ (if within lo n p then cell else get_or old p d)

blank-Blanked :
    (n index i : ℕ) (c : Console)
    → index + i + n ≤ length c.buffer
    → (cells : List ConsoleChar) × (blank n index i c ≡ some (record c { buffer = cells }))
      × Blanked (index + i) n (record { ch = 32; attrs = c.attrs }) c.buffer cells
unfolding blank
blank-Blanked zero index i c h = (c.buffer, refl, λ p d. ground arith)
blank-Blanked (suc n) index i c h =
    let cell : ConsoleChar = record { ch = 32; attrs = c.attrs } in
    let lo = index + i in
    let inside : lo < length c.buffer = omega arith in
    let c1 = record c { buffer = set c.buffer lo cell } in
    let (cells, e, blanked) =
      blank-Blanked n index (i + 1) c1 (omega (arith, length-set c.buffer lo cell)) in
    let next : index + (i + 1) ≡ lo + 1 = omega arith in
    (
      cells,
      rw (write_cell_lem lo cell c inside) e,
      λ p d. elim (Bool-cases (p == lo)) [
        | inl at ↦ ground (arith, blanked p d, get_or-set_self c.buffer lo cell d inside)
        | inr away ↦ ground (arith, blanked p d, get_or-set_ne c.buffer lo p cell d)
      ],
    )

-- What `scroll` makes of a console.
pub record Scrolled (c r : Console) : Type 0 where
  pub row : r.row ≡ c.row - 1
  pub column : r.column ≡ 0
  pub attrs : r.attrs ≡ c.attrs
  pub moved :
      (y x : ℕ) (d : ConsoleChar)
      → y + 1 < c.rows
      → x < c.columns
      → get_or r.buffer (y * c.columns + x) d ≡ get_or c.buffer ((y + 1) * c.columns + x) d
  pub last :
      (x : ℕ) (d : ConsoleChar)
      → x < c.columns
      → get_or r.buffer ((c.rows - 1) * c.columns + x) d ≡ record { ch = 32; attrs = c.attrs }

-- A screen with the cursor below it is scrolled by one row: each row but the first moves up by one,
-- the last one is blank in the colours of the console, and the cursor is at its start.
pub scroll-Scrolled :
    (c : Console) → OnScreen c → c.row ≡ c.rows → (r : Console) × (scroll c ≡ some r) × Scrolled c r
unfolding scroll
scroll-Scrolled c is at =
    let (end, small) = row_end c (c.rows - 1) is (omega (arith, is.some_rows)) in
    let rows : 1 + (c.rows - 1) ≡ c.rows = omega (arith, is.some_rows) in
    let fits : (1 + (c.rows - 1)) * c.columns ≤ length c.buffer =
      rw rows (omega (arith, is.cells)) in
    let (cells1, e1, size1, moved) =
      move_rows-Moves (c.rows - 1) 1 c (omega arith) is.some_columns fits in
    let c1 = record c { buffer = cells1 } in
    let index = (c.rows - 1) * c.columns in
    let (cells, e, blanked) =
      blank-Blanked c.columns index 0 c1 (omega (arith, size1, end, small)) in
    let plain = blank_last-blank c.columns index 0 c1 (omega (arith, end, is.cells, is.small)) in
    (
      record c { buffer = cells; column = 0; row = c.row - 1 },
      rw e1 (rw (plain, e) refl),
      record {
        row = refl;
        column = refl;
        attrs = refl;
        moved = λ y x d hy hx.
            let p = y * c.columns + x in
            let le = mul-le y (c.rows - 1) c.columns (omega arith) in
            let next : p + c.columns ≡ (y + 1) * c.columns + x = omega arith in
            let kept : get_or cells p d ≡ get_or cells1 p d =
              ground (arith, blanked p d, le, small) in
            let up : get_or cells1 p d ≡ get_or c.buffer (p + c.columns) d =
              ground (arith, moved p d, le) in
            kept ∙ up ∙ ap (λ k. get_or c.buffer k d) next;
        last = λ x d hx. ground (arith, blanked ((c.rows - 1) * c.columns + x) d);
      },
    )
