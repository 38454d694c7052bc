-- ===== src/Interrupts/Vectors.antt =====
-- The table of `irq_init`: where the processor goes for each vector, and what is done there.
use ikaros.Base.{
  ℕ, zero, suc, ◌+◌, ◌-◌, ◌*◌, ◌/◌, ◌%◌, ◌^◌, ◌<◌, ◌≡◌, inl, inr, refl, ◌∙◌, ap, ◌&&◌, Option, none,
  some, arith, ltb, leb, ◌==◌, if◌then◌else◌, Bool-cases,
}
use ikaros.Interrupts.{IdtEntry, idt_fill, fill_from, no_entry, irq_init}

-- The gate of an entry, as the processor reads it: an address, in the code segment, if it is present.
unfoldable pub gate_of : IdtEntry → Option ℕ
gate_of e =
    if e.type / 128 == 1 && (e.selector == 8 && e.type % 32 == 14)
    then some (e.base_lo + 65536 * e.base_hi)
    else none

gate-idt_fill :
    (i type prv_level address v : ℕ) (idt : ℕ → IdtEntry)
    → address < 2 ^ 32
    → gate_of (idt_fill i 8 address type prv_level idt v)
      ≡ (if v == i then some address else gate_of (idt v))
unfolding idt_fill gate_of
gate-idt_fill i type prv_level address v idt bound = elim (Bool-cases (v == i)) [
  | inl here ↦ rw here (ap some (omega (arith, bound)))
  | inr away ↦ rw away refl
]

module _ (n first number v : ℕ) (handler : ℕ → ℕ) (old : Option ℕ) where
  -- The entries behind the first, and the first.
  fill_step :
      (if leb (first + 1) v && ltb v (first + 1 + n)
        then some (handler (number + 1 + (v - (first + 1))))
        else if v == first
        then some (handler number)
        else old)
      ≡ (if leb first v && ltb v (first + suc n)
          then some (handler (number + (v - first)))
          else old)
  fill_step = elim (Bool-cases (v == first)) [
    | inl here ↦
        let e : number + (v - first) ≡ number = ground (arith, here) in rw e (ground (arith, here))
    | inr away ↦ elim (Bool-cases (ltb first v)) [
      | inl above ↦
          let e : number + 1 + (v - (first + 1)) ≡ number + (v - first) = ground (arith, above) in
          rw e (ground (arith, above, away))
      | inr below ↦ ground (arith, below, away)
    ]
  ]

gate-fill_from :
    (n first number v : ℕ) (handler : ℕ → ℕ) (idt : ℕ → IdtEntry)
    → ((k : ℕ) → handler k < 2 ^ 32)
    → gate_of (fill_from n first number handler idt v) ≡ (
        if leb first v && ltb v (first + n)
        then some (handler (number + (v - first)))
        else gate_of (idt v))
unfolding fill_from
gate-fill_from zero first number v handler idt bound = ground arith
gate-fill_from (suc n) first number v handler idt bound =
    let rest =
      gate-fill_from n (first + 1) (number + 1) v handler
        (idt_fill first 8 (handler number) 14 0 idt) bound in
    let here = gate-idt_fill first 14 0 (handler number) v idt (bound number) in
    rest ∙ rw here (fill_step n first number v handler (gate_of (idt v)))

empty_gate : gate_of no_entry ≡ none
unfolding gate_of
empty_gate = refl

-- After `irq_init`, for wrappers at addresses of 32 bits, the processor finds a present gate of the
-- code segment at vector 128, at the exceptions 0 to 14 and 16, and at the vectors 32 to 47 of the
-- 16 lines, each to the wrapper of that number, and no gate at any other vector.
pub irq_init-gates :
    (irqhandler inthandler : ℕ → ℕ) (v : ℕ)
    → ((k : ℕ) → irqhandler k < 2 ^ 32)
    → ((k : ℕ) → inthandler k < 2 ^ 32)
    → gate_of ((irq_init irqhandler inthandler).idt v) ≡ (
        if v == 128
        then some (inthandler 128)
        else if v == 16
        then some (inthandler 16)
        else if ltb v 15
        then some (inthandler v)
        else if leb 32 v && ltb v 48
        then some (irqhandler (v - 32))
        else none)
unfolding irq_init
irq_init-gates irqhandler inthandler v irqs ints =
    let lines = gate-fill_from 16 32 0 v irqhandler (λ u. no_entry) irqs in
    let exceptions =
      gate-fill_from 15 0 0 v inthandler (fill_from 16 32 0 irqhandler (λ u. no_entry)) ints in
    let fpu =
      gate-idt_fill 16 14 0 (inthandler 16) v
        (fill_from 15 0 0 inthandler (fill_from 16 32 0 irqhandler (λ u. no_entry))) (ints 16) in
    let zero_sub : 0 + (v - 0) ≡ v = omega arith in
    let line : 0 + (v - 32) ≡ v - 32 = omega arith in
    let low : (leb 0 v && ltb v 15) ≡ ltb v 15 = ground arith in
    gate-idt_fill 128 14 3 (inthandler 128) v _ (ints 128)
    ∙ rw (fpu, exceptions, lines, empty_gate, zero_sub, line, low) refl
