-- ===== src/Interrupts/Setup.antt =====
-- kernel/src/interrupts.rs: `init`. `IDT.load()` and `LOCAL_APIC.call_once` write statics.
use maizono_os.Base.{
  ℕ, zero, suc, ◌+◌, not, Option, none, some, bit_and, bit_or, ◌==◌, if◌then◌else◌,
}
use maizono_os.Base.Exec.{
  Exec, fail, panic, done, fail, panic, M, pure, throw, lift, ◌>>=◌, ◌>>◌, for_range,
}
use maizono_os.Word.{u32, ◌<<<◌}
use maizono_os.Acpi.{ApicInfo, io_apic_base, io_apic_id, processor_id}
use maizono_os.Arch.{Stuck, out_of_fuel, Io, write_msr}
use maizono_os.Arch.Hardware.{Machine}
use maizono_os.Arch.LocalApic
use maizono_os.Arch.LocalApic.{LocalApic}
use maizono_os.Arch.IoApic
use maizono_os.Interrupts.{
  external_irq_offset, keyboard, mouse, error, as_u8, external_irq_keyboard, external_irq_mouse,
  vector_number, InterruptDescriptorTable, idt,
}

abbrev ia32_apic_base_msr : ℕ
ia32_apic_base_msr = 0x1B

abbrev masked : ℕ
masked = 1 <<< 16

abbrev pub delivery_status : ℕ
delivery_status = 0x00001000

module _ (machine : Machine) where
  open machine use {State}

  -- "Enabling APIC"
  unfoldable pub enable_apic : ApicInfo → Io machine (Unit {0})
  enable_apic info = write_msr machine ia32_apic_base_msr (bit_or info.local_apic_base (1 <<< 11))

  -- `while (.. & DELIVERY_STATUS) != 0 {}`, for at most `fuel` reads.
  unfoldable pub wait_delivered : ℕ → LocalApic → Io machine (Unit {0})
  wait_delivered zero apic = throw out_of_fuel
  wait_delivered (suc fuel) apic = do
    low ← LocalApic.read_interrupt_command_register_low machine apic
    let again = wait_delivered fuel apic
    if bit_and low delivery_status == 0 then pure tt else again

  -- The writes of "Initializing Local APIC" up to the loop.
  unfoldable pub write_local_apic : LocalApic → Io machine (Unit {0})
  unfolding as_u8
  write_local_apic apic = do
    LocalApic.write_spurious_interrupt_vector_register machine apic (bit_or 0x100 0xff)
    LocalApic.write_lvt_lint0_register machine apic masked
    LocalApic.write_lvt_lint1_register machine apic masked
    LocalApic.write_lvt_performance_monitoring_counters_register machine apic masked
    LocalApic.write_lvt_error_register machine apic (external_irq_offset + as_u8 error)
    LocalApic.write_error_status_register machine apic 0
    LocalApic.write_error_status_register machine apic 0
    LocalApic.write_end_of_interrupt_register machine apic 0
    LocalApic.write_interrupt_command_register_high machine apic 0
    LocalApic.write_interrupt_command_register_low machine apic
        (bit_or (bit_or 0x00080000 0x00008000) 0x00000500)

  unfoldable pub init_local_apic : ℕ → LocalApic → Io machine (Unit {0})
  unfolding write_local_apic wait_delivered
  init_local_apic fuel apic = do
    write_local_apic apic
    wait_delivered fuel apic
    LocalApic.write_task_priority_register machine apic 0

  -- The body of the loop over the redirection entries.
  unfoldable pub mask_entry : IoApic.IoApic → ℕ → Io machine (Unit {0})
  mask_entry apic i =
      IoApic.set_redirection_entry_at machine apic (u32 i)
        (bit_or (external_irq_offset + i) (1 <<< 16))

  unfoldable pub route : IoApic.IoApic → ℕ → Io machine (Unit {0})
  unfolding as_u8 vector_number
  route apic cpu0 = do
    IoApic.set_redirection_entry_at machine apic (as_u8 keyboard)
        (bit_or (vector_number external_irq_keyboard) cpu0)
    IoApic.set_redirection_entry_at machine apic (as_u8 mouse)
        (bit_or (vector_number external_irq_mouse) cpu0)

  -- "Initializing I/O APIC"
  unfoldable pub init_io_apic : ApicInfo → Io machine (Unit {0})
  unfolding mask_entry route
  init_io_apic info = do
    let apic = IoApic.new (io_apic_base info)
    id ← IoApic.get_id machine apic
    if not (id == io_apic_id info) then lift none else pure tt
    entries ← IoApic.get_max_amount_of_redirection_entries machine apic
    for_range 0 entries (mask_entry apic)
    route apic (processor_id info <<< (32 + 24))

  unfoldable pub disable_pic_8259 : Io machine (Unit {0})
  disable_pic_8259 s = done tt (machine.out_u8 0x21 0xff (machine.out_u8 0xa1 0xff s))

-- The statics of the module, and the machine.
pub record Kernel (machine : Machine) : Type 0 where
  pub loaded : Option InterruptDescriptorTable
  pub local_apic : Option LocalApic
  pub state : machine.State

module _ (machine : Machine) where
  abbrev pub with_state :
      {A : Type 0} → Kernel machine → Exec machine.State Stuck A → Exec (Kernel machine) Stuck A
  with_state k (done a s) = done a (record k { state = s })
  with_state k (fail e s) = fail e (record k { state = s })
  with_state k panic = panic

  abbrev pub on_machine : {A : Type 0} → Io machine A → M (Kernel machine) Stuck A
  on_machine m k = with_state k (m k.state)

  unfoldable pub init_idt : M (Kernel machine) Stuck (Unit {0})
  init_idt k = done tt (record k { loaded = some idt })

  abbrev pub call_once : Option LocalApic → LocalApic → Option LocalApic
  call_once (some old) new = some old
  call_once none new = some new

  unfoldable pub init_apic : ℕ → ApicInfo → M (Kernel machine) Stuck (Unit {0})
  init_apic fuel info = do
    let local_apic = LocalApic.new info.local_apic_base
    on_machine (enable_apic machine info)
    λ k. done tt (record k { local_apic = call_once k.local_apic local_apic })
    on_machine (init_local_apic machine fuel local_apic)
    on_machine (init_io_apic machine info)

  unfoldable pub init : ℕ → ApicInfo → M (Kernel machine) Stuck (Unit {0})
  unfolding init_idt init_apic
  init fuel info = do init_idt; on_machine (disable_pic_8259 machine); init_apic fuel info
