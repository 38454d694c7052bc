-- ===== src/Console/Rendition.antt =====
-- SGR, the selection of colours by the parameters of an escape sequence.
use ikaros.Base.{
  ℕ, zero, suc, ◌+◌, ◌-◌, ◌<◌, ◌≤◌, ◌≡◌, refl, sym, ◌∙◌, ap, false, ◌&&◌, ◌||◌, Option, none, some,
  List, leb, ltb, ◌==◌, length, get_or, set, replicate, length-set, arith, Bool-cases, Option-cases,
  inl, inr,
}
use ikaros.Libc.Convert.{atoi}
use ikaros.Console.{
  Console, Step, console_parameter_terminator, parameter, select_rendition,
  console_set_foreground_color_ansi, console_set_background_color_ansi,
  console_set_foreground_color,
}
use ikaros.Console.Putch.{console_sgr_consume_parameter, console_sgr_loop, console_sgr}

-- A console in other colours.
pub record Coloured (c r : Console) : Type 0 where
  pub attrs : ℕ
  pub text : List ℕ
  pub size : length text ≡ length c.escape_code_parameter
  pub same : r ≡ record c { attrs = attrs; escape_code_parameter = text }

pub Coloured-refl : (c : Console) → Coloured c c
Coloured-refl c = record {
  attrs = c.attrs;
  text = c.escape_code_parameter;
  size = refl;
  same = refl;
}

select_rendition-Coloured :
    (value : ℕ) (c : Console)
    → select_rendition value c ≡ record c { attrs = (select_rendition value c).attrs }
unfolding select_rendition console_set_foreground_color_ansi console_set_background_color_ansi
    console_set_foreground_color
select_rendition-Coloured value c = elim (Bool-cases (leb 30 value && leb value 37)) [
  | inl fg ↦ rw fg refl
  | inr e1 ↦ elim (Bool-cases (leb 40 value && leb value 47)) [
    | inl bg ↦ rw e1 (rw bg refl)
    | inr e2 ↦ elim (Bool-cases (value == 1)) [
      | inl bright ↦ rw e1 (rw e2 (rw bright refl))
      | inr e3 ↦ elim (Bool-cases (value == 22)) [
        | inl normal ↦ rw e1 (rw e2 (rw e3 (rw normal refl)))
        | inr e4 ↦ rw e1 (rw e2 (rw e3 (rw e4 refl)))
      ]
    ]
  ]
]

length-parameter :
    (n i pos : ℕ) (sequence to : List ℕ) → length (parameter n i pos sequence to) ≡ length to
unfolding parameter
length-parameter zero i pos sequence to = refl
length-parameter (suc n) i pos sequence to =
    length-parameter n (i + 1) pos sequence (set to i (get_or sequence (pos + i) 0))
    ∙ length-set to i (get_or sequence (pos + i) 0)

terminator-bounds :
    (n pos : ℕ) (c : Console) (end : ℕ)
    → console_parameter_terminator n pos c ≡ some end
    → (pos ≤ end) × (end < pos + n)
unfolding console_parameter_terminator
terminator-bounds zero pos c end e = absurd (ground arith)
terminator-bounds (suc n) pos c end e =
    elim (Bool-cases
      (get_or c.escape_code_sequence pos 0 == 59 || get_or c.escape_code_sequence pos 0 == 109)) [
        | inl here ↦ ground arith
        | inr later ↦ ground (arith, terminator-bounds n (pos + 1) c end)
      ]

-- The end of a parameter is behind its start, in the sequence.
pub data Consumed (pos : ℕ) (c : Console) : Option ℕ × Console → Type 0 where
  no_more : Consumed pos c (none, c)
  one :
      (end : ℕ) (r : Console)
      → pos ≤ end
      → end < c.escape_code_length
      → Coloured c r
      → Consumed pos c (some end, r)

consume-Consumed :
    (pos : ℕ) (c : Console)
    → length c.escape_code_parameter ≡ 32
    → Consumed pos c (console_sgr_consume_parameter pos c)
unfolding console_sgr_consume_parameter
consume-Consumed pos c size = elim (Bool-cases (ltb pos c.escape_code_length)) [
  | inr past ↦ rw past no_more
  | inl within ↦
      elim (Option-cases (console_parameter_terminator (c.escape_code_length - pos) pos c)) [
        | inl missing ↦ rw within (rw missing no_more)
        | inr (end, found) ↦
            let (lo, hi) = terminator-bounds (c.escape_code_length - pos) pos c end found in
            let text = parameter (end - pos) 0 pos c.escape_code_sequence (replicate 32 0) in
            let len =
              length-parameter (end - pos) 0 pos c.escape_code_sequence (replicate 32 0)
              ∙ sym size in
            let c1 = record c { escape_code_parameter = text } in
            elim (Option-cases (atoi 33 (λ i. get_or text i 0))) [
              | inl never ↦ rw within (
                  rw found (
                    rw never (
                      one end c1 lo (ground arith)
                        (record { attrs = c.attrs; text = text; size = len; same = refl }))))
              | inr (value, read) ↦ rw within (
                  rw found (
                    rw read (
                      one end (select_rendition value c1) lo (ground arith) (record {
                        attrs = (select_rendition value c1).attrs;
                        text = text;
                        size = len;
                        same = select_rendition-Coloured value c1;
                      }))))
            ]
      ]
]

Coloured-trans : (a b c : Console) → Coloured a b → Coloured b c → Coloured a c
Coloured-trans a b c f g = record {
  attrs = g.attrs;
  text = g.text;
  size = g.size ∙ ap (λ x. length x.escape_code_parameter) f.same ∙ f.size;
  same =
      g.same
      ∙ ap {B = Console} (λ x. record x { attrs = g.attrs; escape_code_parameter = g.text }) f.same;
}

abbrev pub Recolours : Step → Console → Type 0
Recolours step c = (r : Console) × (step ≡ some r) × Coloured c r

-- The loop from `pos` on.
abbrev LoopRecolours : ℕ → Type 0
LoopRecolours fuel =
    (pos : ℕ) (c : Console)
    → length c.escape_code_parameter ≡ 32
    → 0 < pos
    → pos < c.escape_code_length
    → c.escape_code_length < pos + fuel
    → Recolours (console_sgr_loop fuel (some pos, c)) c

after_parameter :
    (fuel pos : ℕ) (c : Console) (next : Option ℕ × Console)
    → LoopRecolours fuel
    → length c.escape_code_parameter ≡ 32
    → c.escape_code_length < pos + 1 + fuel
    → Consumed (pos + 1) c next
    → Recolours (console_sgr_loop fuel next) c
unfolding console_sgr_loop
after_parameter zero pos c next ih size enough no_more = (c, refl, Coloured-refl c)
after_parameter (suc fuel) pos c next ih size enough no_more = (c, refl, Coloured-refl c)
after_parameter fuel pos c next ih size enough (one end r lo hi f) =
    let len : r.escape_code_length ≡ c.escape_code_length = ap (λ x. x.escape_code_length) f.same in
    let size1 : length r.escape_code_parameter ≡ 32 =
      ap (λ x. length x.escape_code_parameter) f.same ∙ f.size ∙ size in
    let (r1, e1, g) = ih end r size1 (omega arith) (omega (arith, len)) (omega (arith, len)) in
    (r1, e1, Coloured-trans c r r1 f g)

sgr_loop-Recolours : (fuel : ℕ) → LoopRecolours fuel
unfolding console_sgr_loop
sgr_loop-Recolours zero pos c size positive within enough = absurd (omega arith)
sgr_loop-Recolours (suc fuel) pos c size positive within enough =
    let (r, e, f) =
      after_parameter fuel pos c (console_sgr_consume_parameter (pos + 1) c)
        (sgr_loop-Recolours fuel) size (omega arith) (consume-Consumed (pos + 1) c size) in
    let go : (pos == 0) ≡ false = ground arith in (r, rw go e, f)

-- SGR ends, and changes no more than the colours and the last parameter.
pub console_sgr-Recolours :
    (c : Console)
    → length c.escape_code_parameter ≡ 32
    → 1 < c.escape_code_length
    → c.escape_code_length ≤ 32
    → Recolours (console_sgr c) c
unfolding console_sgr
console_sgr-Recolours c size more few =
    sgr_loop-Recolours 32 1 c size (omega arith) more (omega arith)
