-- ===== src/Arch/LocalApic.antt =====
-- kernel/src/arch.rs: `LocalApic`. Its `ptr` is the base address of the registers.
use maizono_os.Base.{ℕ, ◌+◌, ◌*◌, ◌/◌}
use maizono_os.Arch.{Io, write_volatile, read_volatile}
use maizono_os.Arch.Hardware.{Machine}

pub record LocalApic : Type 0 where
  pub ptr : ℕ

unfoldable pub new : ℕ → LocalApic
new base_addr = record { ptr = base_addr }

module _ (machine : Machine) where
  -- `(self.ptr as *mut u32).add(offset)` is `offset` words past the base.
  unfoldable pub write : LocalApic → ℕ → ℕ → Io machine (Unit {0})
  unfolding write_volatile
  write apic offset value = write_volatile machine (apic.ptr + 4 * offset) value

  unfoldable pub read : LocalApic → ℕ → Io machine ℕ
  unfolding read_volatile
  read apic offset = read_volatile machine (apic.ptr + 4 * offset)

  abbrev pub write_task_priority_register : LocalApic → ℕ → Io machine (Unit {0})
  write_task_priority_register apic value = write apic (0x80 / 4) value

  abbrev pub write_end_of_interrupt_register : LocalApic → ℕ → Io machine (Unit {0})
  write_end_of_interrupt_register apic value = write apic (0xb0 / 4) value

  abbrev pub write_spurious_interrupt_vector_register : LocalApic → ℕ → Io machine (Unit {0})
  write_spurious_interrupt_vector_register apic value = write apic (0xf0 / 4) value

  abbrev pub write_error_status_register : LocalApic → ℕ → Io machine (Unit {0})
  write_error_status_register apic value = write apic (0x280 / 4) value

  abbrev pub write_interrupt_command_register_low : LocalApic → ℕ → Io machine (Unit {0})
  write_interrupt_command_register_low apic value = write apic (0x300 / 4) value

  abbrev pub read_interrupt_command_register_low : LocalApic → Io machine ℕ
  read_interrupt_command_register_low apic = read apic (0x300 / 4)

  abbrev pub write_interrupt_command_register_high : LocalApic → ℕ → Io machine (Unit {0})
  write_interrupt_command_register_high apic value = write apic (0x310 / 4) value

  abbrev pub write_lvt_timer_register : LocalApic → ℕ → Io machine (Unit {0})
  write_lvt_timer_register apic value = write apic (0x320 / 4) value

  abbrev pub write_lvt_performance_monitoring_counters_register :
      LocalApic → ℕ → Io machine (Unit {0})
  write_lvt_performance_monitoring_counters_register apic value = write apic (0x340 / 4) value

  abbrev pub write_lvt_lint0_register : LocalApic → ℕ → Io machine (Unit {0})
  write_lvt_lint0_register apic value = write apic (0x350 / 4) value

  abbrev pub write_lvt_lint1_register : LocalApic → ℕ → Io machine (Unit {0})
  write_lvt_lint1_register apic value = write apic (0x360 / 4) value

  abbrev pub write_lvt_error_register : LocalApic → ℕ → Io machine (Unit {0})
  write_lvt_error_register apic value = write apic (0x370 / 4) value

  abbrev pub write_initial_count_register_for_timer : LocalApic → ℕ → Io machine (Unit {0})
  write_initial_count_register_for_timer apic value = write apic (0x380 / 4) value

  abbrev pub write_current_count_register_for_timer : LocalApic → ℕ → Io machine (Unit {0})
  write_current_count_register_for_timer apic value = write apic (0x390 / 4) value

  abbrev pub read_current_count_register_for_timer : LocalApic → Io machine ℕ
  read_current_count_register_for_timer apic = read apic (0x390 / 4)

  abbrev pub write_divide_config_register_for_timer : LocalApic → ℕ → Io machine (Unit {0})
  write_divide_config_register_for_timer apic value = write apic (0x3e0 / 4) value
