-- ===== src/Interrupts/Tests.antt =====
-- The descriptors of the kernel, and a table of wrappers.
use ikaros.Base.{
  ℕ, ◌+◌, ◌-◌, ◌*◌, ◌<◌, ◌≤◌, ◌≡◌, refl, some, none, ltb, leb, ◌==◌, ◌&&◌, if◌then◌else◌, arith, [],
  ◌∷◌,
}
use ikaros.Interrupts.{
  Gdt, gdt_encode, irq_init, irqfunc, irqfuncs_init, install, pic_eoi, call, keyboard_handler,
  outb_p,
}
use ikaros.Interrupts.Descriptors.{EncodeLem, gdt_encode-segment_of}
use ikaros.Interrupts.Vectors.{gate_of, irq_init-gates}
use ikaros.Interrupts.Timer.{calibrate}
use ikaros.Interrupts.Timer.Calibration.{calibrate_lem}

abbrev code : Gdt
code = record { base = 0; limit = 4294967295; type = 154 }

gdt_encode-segment_of_example : EncodeLem code (gdt_encode code)
gdt_encode-segment_of_example = gdt_encode-segment_of code (omega arith) (omega arith)

abbrev wrapper : ℕ → ℕ
wrapper n = 3222274048 + 16 * (if ltb n 256 then n else 0)

wrapper_bound : (k : ℕ) → wrapper k < 4294967296
wrapper_bound k = ground arith

irq_init-gates_example : gate_of ((irq_init wrapper wrapper).idt 33) ≡ (
    if 33 == 128
    then some (wrapper 128)
    else if 33 == 16
    then some (wrapper 16)
    else if ltb 33 15
    then some (wrapper 33)
    else if leb 32 33 && ltb 33 48
    then some (wrapper (33 - 32))
    else none)
irq_init-gates_example = irq_init-gates wrapper wrapper 33 wrapper_bound wrapper_bound

keyboard_line : irqfunc 1 (irq_init wrapper wrapper) ≡ call keyboard_handler ∷ outb_p 32 32 ∷ []
unfolding irqfunc irq_init irqfuncs_init install pic_eoi
keyboard_line = refl

-- A tick of a million loops.
calibrate_lem_example :
    (loops : ℕ) × (calibrate (λ n. leb 1000000 n) 20 ≡ some loops)
    × (loops < 1000000)
    × (256 * 1000000 ≤ 257 * loops)
calibrate_lem_example =
    calibrate_lem (λ n. leb 1000000 n) 1000000 (λ n. refl) (omega arith) (omega arith)
