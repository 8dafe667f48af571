-- ===== src/Interrupts.antt =====
-- kernel/src/interrupts.rs: the vectors and the handler table. The parts of `init` and the handlers
-- are the modules below.
pub mod Setup
pub mod Handlers
pub mod Routing
pub mod Acknowledged
pub mod Enabled
pub mod Sequence
pub mod Ready
mod Examples
pub mod Sample
use maizono_os.Base.{ℕ, ◌+◌, Option, none, some, ◌==◌, if◌then◌else◌, update}

abbrev pub external_irq_offset : ℕ
external_irq_offset = 32

pub data Irq : Type 0 where
  timer keyboard mouse error : Irq

unfoldable pub as_u8 : Irq → ℕ
as_u8 timer = 0
as_u8 keyboard = 1
as_u8 mouse = 12
as_u8 error = 19

pub data InterruptVector : Type 0 where
  external_irq_timer external_irq_keyboard external_irq_mouse external_irq_error : InterruptVector
  local_apic_timer : InterruptVector

unfoldable pub vector_number : InterruptVector → ℕ
unfolding as_u8
vector_number external_irq_timer = external_irq_offset + as_u8 timer
vector_number external_irq_keyboard = external_irq_offset + as_u8 keyboard
vector_number external_irq_mouse = external_irq_offset + as_u8 mouse
vector_number external_irq_error = external_irq_offset + as_u8 error
vector_number local_apic_timer = 0x41

pub data Handler : Type 0 where
  keyboard_interrupt_handler mouse_interrupt_handler breakpoint_handler : Handler
  double_fault_handler timer_interrupt_handler : Handler

-- The table of the `x86_64` crate, as a function from a vector; `none` is an entry that is not
-- present. The processor's breakpoint is vector 3 and its double fault vector 8.
abbrev pub InterruptDescriptorTable : Type 0
InterruptDescriptorTable = ℕ → Option Handler

unfoldable pub idt : InterruptDescriptorTable
unfolding vector_number
idt =
    let idt : InterruptDescriptorTable = λ vector. none in
    let idt = update idt 3 (some breakpoint_handler) in
    let idt = update idt 8 (some double_fault_handler) in
    let idt = update idt (vector_number local_apic_timer) (some timer_interrupt_handler) in
    let idt = update idt (vector_number external_irq_timer) (some timer_interrupt_handler) in
    let idt = update idt (vector_number external_irq_keyboard) (some keyboard_interrupt_handler) in
    update idt (vector_number external_irq_mouse) (some mouse_interrupt_handler)
