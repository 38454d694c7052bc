-- ===== src/Interrupts.antt =====
-- The descriptors and the interrupts of the processor: kernel/arch/i386/include/kernel/boot/gdt.h,
-- kernel/arch/i386/include/kernel/irq/pic.h and kernel/arch/i386/kernel/irq/irq.c. The addresses of
-- the wrappers, which are assembly, are arguments; a port is read as a given byte and written as an
-- event.
pub mod Timer
pub mod Descriptors
pub mod Vectors
pub mod Tests
use ikaros.Base.{
  ℕ, zero, suc, ◌+◌, ◌-◌, ◌*◌, ◌/◌, ◌%◌, ◌^◌, bit_and, bit_or, Bool, true, false, not, ◌&&◌, Option,
  none, some, List, [], ◌∷◌, ◌++◌, ltb, leb, ◌==◌, if◌then◌else◌,
}

pub record Gdt : Type 0 where
  pub base : ℕ
  pub limit : ℕ
  pub type : ℕ

-- The eight bytes of a descriptor, `none` for the panic.
unfoldable pub gdt_encode : Gdt → Option (List ℕ)
gdt_encode source =
    let large = ltb 65536 source.limit in
    let limit = if large then source.limit / 2 ^ 12 else source.limit in
    let flags = if large then 192 else 64 in
    let base = source.base in
    if large && not (source.limit % 4096 == 4095)
    then none
    else some (
        limit % 256
        ∷ limit / 2 ^ 8 % 256
        ∷ base % 256
        ∷ base / 2 ^ 8 % 256
        ∷ base / 2 ^ 16 % 256
        ∷ source.type
        ∷ bit_or flags (limit / 2 ^ 16 % 16)
        ∷ base / 2 ^ 24 % 256
        ∷ [])

-- What the code does with the ports and with the handlers, in order.
pub data Handler : Type 0 where
  timer_handler : Handler
  keyboard_handler : Handler
  serial_handler : Handler
  div0_handler : Handler
  debug_handler : Handler
  nmi_handler : Handler
  int3_handler : Handler
  int4_handler : Handler
  bounds_handler : Handler
  invalid_opcode_handler : Handler
  nofpu_handler : Handler
  fpuseg_handler : Handler
  fpuerr_handler : Handler
  double_fault_handler : Handler
  invalid_tss_handler : Handler
  segnp_handler : Handler
  stackflt_handler : Handler
  gpf_handler : Handler
  pauge_fault_handler : Handler
  syscall_handler : Handler

pub data Event : Type 0 where
  call : Handler → Event
  outb_p : ℕ → ℕ → Event

abbrev pub pic1_command : ℕ
pic1_command = 32

abbrev pub pic2_command : ℕ
pic2_command = 160

abbrev pub pic_eoi_code : ℕ
pic_eoi_code = 32

unfoldable pub pic_init : ℕ → ℕ → List Event
pic_init pic1 pic2 =
    outb_p pic1_command 17
    ∷ outb_p pic2_command 17
    ∷ outb_p (pic1_command + 1) pic1
    ∷ outb_p (pic2_command + 1) pic2
    ∷ outb_p (pic1_command + 1) 4
    ∷ outb_p (pic2_command + 1) 2
    ∷ outb_p (pic1_command + 1) 1
    ∷ outb_p (pic2_command + 1) 1
    ∷ []

unfoldable pub pic_eoi : ℕ → List Event
pic_eoi irq =
    if leb 8 irq
    then outb_p pic2_command pic_eoi_code ∷ outb_p pic1_command pic_eoi_code ∷ []
    else outb_p pic1_command pic_eoi_code ∷ []

unfoldable pub pic_eoi_spurious : ℕ → List Event
pic_eoi_spurious irq = []

-- The port of the mask of a line, and its digit there.
abbrev pub mask_port : ℕ → ℕ
mask_port irq = if ltb irq 8 then pic1_command + 1 else pic2_command + 1

abbrev pub mask_digit : ℕ → ℕ
mask_digit irq = if ltb irq 8 then irq else irq - 8

-- `value` is what the port reads as.
unfoldable pub pic_setirqmask : ℕ → ℕ → Event
pic_setirqmask irq value = outb_p (mask_port irq) (bit_or value (2 ^ mask_digit irq) % 256)

unfoldable pub pic_clrirqmask : ℕ → ℕ → Event
pic_clrirqmask irq value =
    outb_p (mask_port irq) (bit_and value (2 ^ 32 - 1 - 2 ^ mask_digit irq) % 256)

pub record IdtEntry : Type 0 where
  pub base_lo : ℕ
  pub selector : ℕ
  pub zero_byte : ℕ
  pub type : ℕ
  pub base_hi : ℕ

-- `(((uintptr_t)offset) & 0xFFFF0000) >> 16`. The type and the privilege level are not used.
unfoldable pub idt_fill : ℕ → ℕ → ℕ → ℕ → ℕ → (ℕ → IdtEntry) → ℕ → IdtEntry
idt_fill i selector offset type prv_level idt = λ v.
    if v == i
    then record {
      base_lo = offset % 65536;
      selector = selector;
      zero_byte = 0;
      type = 142;
      base_hi = offset / 65536 % 65536;
    }
    else idt v

-- The tables of handlers, with `NULL` as `none`, and the table of the processor.
pub record Tables : Type 0 where
  pub irqfuncs : ℕ → Option Handler
  pub intfuncs : ℕ → Option Handler
  pub intfuncs_err : ℕ → Option Handler
  pub idt : ℕ → IdtEntry

-- `table[n] = h`, in a table that is `NULL` at first.
unfoldable pub install : ℕ → Handler → (ℕ → Option Handler) → ℕ → Option Handler
install n h table = λ i. if i == n then some h else table i

unfoldable pub irqfuncs_init : ℕ → Option Handler
unfolding install
irqfuncs_init =
    (install 4 serial_handler (install 1 keyboard_handler (install 0 timer_handler (λ i. none))))

unfoldable pub intfuncs_init : ℕ → Option Handler
unfolding install
intfuncs_init =
    (install 128 syscall_handler (
      install 16 fpuerr_handler (
        install 9 fpuseg_handler (
          install 7 nofpu_handler (
            install 6 invalid_opcode_handler (
              install 5 bounds_handler (
                install 4 int4_handler (
                  install 3 int3_handler (
                    install 2 nmi_handler
                      (install 1 debug_handler (install 0 div0_handler (λ i. none))))))))))))

unfoldable pub intfuncs_err_init : ℕ → Option Handler
unfolding install
intfuncs_err_init =
    (install 14 pauge_fault_handler (
      install 13 gpf_handler (
        install 12 stackflt_handler (
          install 11 segnp_handler
            (install 10 invalid_tss_handler (install 8 double_fault_handler (λ i. none)))))))

-- The calls of `idt_fill`: for the lines, for the exceptions, and for the system call. `handler` is
-- what the function with that number returns, such as `irq0handler()`.
unfoldable pub fill_from : ℕ → ℕ → ℕ → (ℕ → ℕ) → (ℕ → IdtEntry) → ℕ → IdtEntry
fill_from zero first number handler idt = idt
fill_from (suc n) first number handler idt =
    fill_from n (first + 1) (number + 1) handler (idt_fill first 8 (handler number) 14 0 idt)

abbrev pub no_entry : IdtEntry
no_entry = record { base_lo = 0; selector = 0; zero_byte = 0; type = 0; base_hi = 0 }

unfoldable pub irq_init : (ℕ → ℕ) → (ℕ → ℕ) → Tables
irq_init irqhandler inthandler =
    let lines = fill_from 16 32 0 irqhandler (λ v. no_entry) in
    let exceptions = fill_from 15 0 0 inthandler lines in
    let fpu = idt_fill 16 8 (inthandler 16) 14 0 exceptions in
    record {
      irqfuncs = irqfuncs_init;
      intfuncs = intfuncs_init;
      intfuncs_err = intfuncs_err_init;
      idt = idt_fill 128 8 (inthandler 128) 14 3 fpu;
    }

-- Every handler of the tables returns `NULL`, so that there is no switch of the stack.
abbrev pub called : Option Handler → List Event
called none = []
called (some h) = call h ∷ []

unfoldable pub irqfunc : ℕ → Tables → List Event
irqfunc irqnum t =
    if not (irqnum == 7)
    then called (t.irqfuncs irqnum) ++ pic_eoi irqnum
    else pic_eoi_spurious irqnum

unfoldable pub intfunc : ℕ → Tables → List Event
intfunc intnum t = called (t.intfuncs intnum)

unfoldable pub intfunc_err : ℕ → Tables → List Event
intfunc_err intnum t = called (t.intfuncs_err intnum)
