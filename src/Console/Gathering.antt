-- ===== src/Console/Gathering.antt =====
-- The bytes of an escape sequence in their arrays.
use ikaros.Base.{
  ℕ, ◌+◌, ◌<◌, ◌≤◌, ◌≡◌, refl, sym, ◌∙◌, ap, subst, true, false, ◌&&◌, some, leb, ltb, ◌==◌,
  if◌then◌else◌, length, set, length-set, arith, Bool-cases, inl, inr,
}
use ikaros.Console.{Console, Step, ◌>>=◌}
use ikaros.Console.Putch.{append_code, run_code, escape_code}
use ikaros.Console.Rendition.{Coloured, Coloured-refl, console_sgr-Recolours}
use ikaros.Console.Screen.{OnScreen, Kept, console_clear_to_end_of_line-Keeps}

-- The cursor on the screen, and the escape codes in their arrays.
pub record WellFormed (c : Console) : Type 0 where
  pub on_screen : OnScreen c
  pub sequence : length c.escape_code_sequence ≡ 32
  pub parameter : length c.escape_code_parameter ≡ 32
  pub code_length : c.escape_code_length ≤ 32

-- The number of bytes gathered behind a byte.
abbrev pub code_length_after : ℕ → ℕ → ℕ
code_length_after ch n =
    if ch == 27
    then 1
    else if n == 0
    then 0
    else if n == 1
    then (if ch == 91 then 2 else 0)
    else if leb 64 ch && leb ch 126
    then 0
    else n + 1

pub Kept-trans : (a b c : Console) → Kept a b → Kept b c → Kept a c
Kept-trans a b c f g = record {
  on_screen = g.on_screen;
  columns = g.columns ∙ f.columns;
  rows = g.rows ∙ f.rows;
  attrs = g.attrs ∙ f.attrs;
  flags = g.flags ∙ f.flags;
  sequence = g.sequence ∙ f.sequence;
  parameter = g.parameter ∙ f.parameter;
  code_length = g.code_length ∙ f.code_length;
}

-- The outcome of a byte: none of the console's arrays is left, and the number of bytes gathered is
-- `n`.
abbrev pub Accepts : Step → ℕ → Type 0
Accepts step n = (r : Console) × (step ≡ some r) × WellFormed r × (r.escape_code_length ≡ n)

re_length : (c : Console) (n : ℕ) → OnScreen c → OnScreen (record c { escape_code_length = n })
re_length c n is = record {
  some_columns = is.some_columns;
  some_rows = is.some_rows;
  cells = is.cells;
  small = is.small;
  row = is.row;
  column = is.column;
}

pub kept :
    (c r : Console) (n : ℕ)
    → WellFormed c
    → Kept c r
    → n ≤ 32
    → WellFormed (record r { escape_code_length = n })
kept c r n is k le = record {
  on_screen = re_length r n k.on_screen;
  sequence = ap (λ x. length x) k.sequence ∙ is.sequence;
  parameter = ap (λ x. length x) k.parameter ∙ is.parameter;
  code_length = le;
}

coloured :
    (c r : Console) (n : ℕ)
    → WellFormed c
    → Coloured c r
    → n ≤ 32
    → WellFormed (record r { escape_code_length = n })
coloured c r n is f le =
    let o = is.on_screen in
    subst (λ x. WellFormed (record x { escape_code_length = n })) (sym f.same)
      (record {
        on_screen = record {
          some_columns = o.some_columns;
          some_rows = o.some_rows;
          cells = o.cells;
          small = o.small;
          row = o.row;
          column = o.column;
        };
        sequence = is.sequence;
        parameter = f.size ∙ is.parameter;
        code_length = le;
      })

append_code-Accepts :
    (ch : ℕ) (c : Console)
    → WellFormed c
    → c.escape_code_length < 32
    → Accepts (append_code ch c) (c.escape_code_length + 1)
unfolding append_code
append_code-Accepts ch c is room =
    let o = is.on_screen in
    let n = c.escape_code_length in
    let fits : ltb n 32 ≡ true = ground arith in
    (
      record c {
        escape_code_sequence = set c.escape_code_sequence n ch;
        escape_code_length = n + 1;
      },
      rw fits refl,
      record {
        on_screen = record {
          some_columns = o.some_columns;
          some_rows = o.some_rows;
          cells = o.cells;
          small = o.small;
          row = o.row;
          column = o.column;
        };
        sequence = length-set c.escape_code_sequence n ch ∙ is.sequence;
        parameter = is.parameter;
        code_length = omega arith;
      },
      refl,
    )

-- The command of a final byte, and then no sequence.
run_code-Accepts :
    (ch : ℕ) (c : Console)
    → WellFormed c
    → 1 < c.escape_code_length
    → Accepts (run_code ch c >>= λ r. some (record r { escape_code_length = 0 })) 0
unfolding run_code
run_code-Accepts ch c is more = elim (Bool-cases (ch == 75)) [
  | inl k ↦
      let (r, e, f) = console_clear_to_end_of_line-Keeps c is.on_screen in
      (record r { escape_code_length = 0 }, rw k (rw e refl), kept c r 0 is f (omega arith), refl)
  | inr e1 ↦ elim (Bool-cases (ch == 109)) [
    | inl m ↦
        let (r, e, f) = console_sgr-Recolours c is.parameter more is.code_length in
        (
          record r { escape_code_length = 0 },
          rw e1 (rw m (rw e refl)),
          coloured c r 0 is f (omega arith),
          refl,
        )
    | inr e2 ↦ (
      record c { escape_code_length = 0 },
      rw e1 (rw e2 refl),
      coloured c c 0 is (Coloured-refl c) (omega arith),
      refl,
    )
  ]
]

-- A byte within an escape sequence.
pub escape_code-Accepts :
    (ch : ℕ) (c : Console)
    → WellFormed c
    → (ch == 27) ≡ false
    → 0 < c.escape_code_length
    → c.escape_code_length < 32
    → Accepts (escape_code ch c) (code_length_after ch c.escape_code_length)
unfolding escape_code
escape_code-Accepts ch c is plain some_code room =
    let (r, e, w, n) = append_code-Accepts ch c is room in
    let nz : (c.escape_code_length == 0) ≡ false = ground arith in
    elim (Bool-cases (c.escape_code_length == 1)) [
      | inl first ↦ elim (Bool-cases (ch == 91)) [
        | inl bracket ↦ (
          r,
          rw first (rw bracket (rw e refl)),
          w,
          rw plain (rw nz (rw first (rw bracket (ground (arith, n))))),
        )
        | inr other ↦ (
          record c { escape_code_length = 0 },
          rw first (rw other refl),
          coloured c c 0 is (Coloured-refl c) (omega arith),
          rw plain (rw nz (rw first (rw other refl))),
        )
      ]
      | inr later ↦ elim (Bool-cases (leb 64 ch && leb ch 126)) [
        | inl final ↦
            let (r1, e1, w1, n1) = run_code-Accepts ch r w (omega (arith, n)) in
            (r1, rw later (rw final (rw e e1)), w1, rw plain (rw nz (rw later (rw final n1))))
        | inr inner ↦
            (r, rw later (rw inner (rw e refl)), w, rw plain (rw nz (rw later (rw inner n))))
      ]
    ]
