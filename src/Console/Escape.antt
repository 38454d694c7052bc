-- ===== src/Console/Escape.antt =====
-- The escape sequences: which bytes are gathered, and when their array overflows.
use ikaros.Base.{
  ℕ, ◌<◌, ◌≡◌, ◌≢◌, refl, sym, ◌∙◌, Bool, true, false, ◌&&◌, none, some, List, [], ◌∷◌, leb, ltb,
  ◌==◌, if◌then◌else◌, set, replicate, arith, Bool-cases, inl, inr,
}
use ikaros.Console.{Console, ◌>>=◌}
use ikaros.Console.Putch.{
  append_code, escape_code, scroll, put_char, begin_escape, putch, putch_all,
}
use ikaros.Console.Screen.{OnScreen, Kept, scroll-Keeps, put_char-Keeps}
use ikaros.Console.Gathering.{WellFormed, code_length_after, Kept-trans, kept, escape_code-Accepts}

-- A byte of text, on a screen that is scrolled where the cursor is below it.
put_text-Keeps :
    (ch : ℕ) (c : Console)
    → OnScreen c
    → (r : Console) × ((if c.row == c.rows
          then (scroll c >>= λ c1. put_char ch c1)
          else put_char ch c)
        ≡ some r)
      × Kept c r
put_text-Keeps ch c is = elim (Bool-cases (c.row == c.rows)) [
  | inl below ↦
      let (c1, e1, k1, lt) = scroll-Keeps c is (ground (arith, below)) in
      let (r, e, k) = put_char-Keeps ch c1 k1.on_screen lt in
      (r, rw below (rw e1 e), Kept-trans c c1 r k1 k)
  | inr on ↦ let (r, e, k) = put_char-Keeps ch c is (ground (arith, on, is.row)) in (r, rw on e, k)
]

-- On a console with its cursor on the screen and less than 32 bytes of an escape sequence gathered,
-- `__console_putch` of any byte ends with every write in bounds, leaves the console so, and has as
-- many bytes gathered as `code_length_after` says: none outside and at the end of a sequence.
pub putch-WellFormed :
    (ch : ℕ) (c : Console)
    → WellFormed c
    → c.escape_code_length < 32
    → (r : Console) × (putch ch c ≡ some r)
      × WellFormed r
      × (r.escape_code_length ≡ code_length_after ch c.escape_code_length)
unfolding putch begin_escape
putch-WellFormed ch c is room = elim (Bool-cases (ch == 27)) [
  | inl escape ↦
      let o = is.on_screen in
      (
        record c { escape_code_sequence = set (replicate 32 0) 0 27; escape_code_length = 1 },
        rw escape refl,
        record {
          on_screen = record {
            some_columns = o.some_columns;
            some_rows = o.some_rows;
            cells = o.cells;
            small = o.small;
            row = o.row;
            column = o.column;
          };
          sequence = refl;
          parameter = is.parameter;
          code_length = omega arith;
        },
        rw escape refl,
      )
  | inr plain ↦ elim (Bool-cases (ltb 0 c.escape_code_length)) [
    | inl code ↦
        let (r, e, w, n) = escape_code-Accepts ch c is plain (ground (arith, code)) room in
        (r, rw plain (rw code e), w, n)
    | inr text ↦
        let zero_length : c.escape_code_length ≡ 0 = ground (arith, text) in
        let none_after : code_length_after ch c.escape_code_length ≡ 0 =
          rw (plain, zero_length) refl in
        let (r, e, k) = put_text-Keeps ch c is.on_screen in
        (
          r,
          rw plain (rw text e),
          kept c r r.escape_code_length is k (omega (arith, k.code_length, is.code_length)),
          k.code_length ∙ zero_length ∙ sym none_after,
        )
  ]
]

-- With 32 bytes of an escape sequence gathered, every byte but ESC is written past their array.
pub putch-overflow :
    (ch : ℕ) (c : Console) → ch ≢ 27 → c.escape_code_length ≡ 32 → putch ch c ≡ none
unfolding putch escape_code append_code
putch-overflow ch c other full =
    let plain : (ch == 27) ≡ false = ground arith in
    elim (Bool-cases (leb 64 ch && leb ch 126)) [
      | inl final ↦ rw plain (rw full (rw final refl))
      | inr inner ↦ rw plain (rw full (rw inner refl))
    ]

-- No escape sequence of the text, behind `n` bytes of one, has more than 32 bytes.
abbrev pub short_codes : List ℕ → ℕ → Bool
short_codes [] n = true
short_codes (ch ∷ chs) n = ltb n 32 && short_codes chs (code_length_after ch n)

-- A text whose escape sequences, one that was begun before included, are of 32 bytes at most is
-- written whole, with every write in bounds and the console left with its cursor on the screen.
pub putch_all-WellFormed :
    (chs : List ℕ) (c : Console)
    → WellFormed c
    → short_codes chs c.escape_code_length ≡ true
    → (r : Console) × (putch_all chs c ≡ some r) × WellFormed r
unfolding putch_all
putch_all-WellFormed [] c is short = (c, refl, is)
putch_all-WellFormed (ch ∷ chs) c is short =
    let room : ltb c.escape_code_length 32 ≡ true = ground (arith, short) in
    let rest : short_codes chs (code_length_after ch c.escape_code_length) ≡ true =
      ground (arith, short) in
    let (c1, e1, w, n) = putch-WellFormed ch c is (ground (arith, room)) in
    let (r, e, w1) = putch_all-WellFormed chs c1 w (rw n rest) in (r, rw e1 e, w1)
