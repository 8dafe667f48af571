-- ===== src/Interrupts/Examples.antt =====
-- The theorems on the APICs and on the handlers, at a concrete machine.
use maizono_os.Base.{[], ◌∷◌, ◌/◌, ◌%◌, ◌^◌, ◌≡◌, ◌≢◌, refl, true, some, ◌⊎◌, inl, inr, arith}
use maizono_os.Base.Exec.{panic}
use maizono_os.Acpi.{io_apic_id}
use maizono_os.Arch.LocalApic.{LocalApic}
use maizono_os.Arch.IoTable.{entry}
use maizono_os.Interrupts.{
  Handler, idt, keyboard_interrupt_handler, timer_interrupt_handler, double_fault_handler,
}
use maizono_os.Interrupts.Setup.{init_local_apic, init_io_apic}
use maizono_os.Interrupts.Routing.{IsRouted, id_of, init_io_apic-IsRouted, routed-handled}
use maizono_os.Interrupts.Enabled.{polls, IsEnabled, init_local_apic-IsEnabled}
use maizono_os.Interrupts.Handlers.{World, run}
use maizono_os.Interrupts.Acknowledged.{Acknowledges, run-Acknowledges, run-locked}
use maizono_os.Interrupts.Sequence.{run_all, Serves, run_all-Serves}
use maizono_os.Ps2.Port.{Device}
use maizono_os.Graphic.Static.{Static}
use maizono_os.Interrupts.Sample.{pc, pc_io_apic, pc_local_apic, start, info, local_base}
use maizono_os.Graphic.Sample.{static_console, static_console-IsUsable}
use maizono_os.Graphic.Console.Start.{empty_page}

init_io_apic-IsRouted_example :
    (id_of pc_io_apic start ≡ io_apic_id info
      × IsRouted pc_io_apic info start (init_io_apic pc info start))
    ⊎ (id_of pc_io_apic start ≢ io_apic_id info × (init_io_apic pc info start ≡ panic))
init_io_apic-IsRouted_example = init_io_apic-IsRouted info pc_io_apic start (omega arith)

initialised : IsRouted pc_io_apic info start (init_io_apic pc info start)
initialised = elim (init_io_apic-IsRouted info pc_io_apic start (omega arith)) [
  | inl (same, r) ↦ r
  | inr (other, stopped) ↦ absurd (other refl)
]

keyboard-unmasked : entry pc_io_apic initialised.out 1 / 2 ^ 16 % 2 ≡ 0
keyboard-unmasked = rw (initialised.entries 1) refl

routed-handled_example : (h : Handler) × (idt (entry pc_io_apic initialised.out 1 % 2 ^ 8) ≡ some h)
routed-handled_example =
    routed-handled info pc_io_apic start initialised.out 1 (omega arith) initialised.returns
      (inr (inl refl)) keyboard-unmasked

init_local_apic-IsEnabled_example :
    IsEnabled pc_local_apic start (init_local_apic pc 5 (record { ptr = local_base }) start)
unfolding polls
init_local_apic-IsEnabled_example =
    init_local_apic-IsEnabled pc_local_apic 5 2 start (omega arith) refl

-- A PS/2 device that sends the byte of the key "a".
abbrev ps2 : Device
ps2 = record {
  State = Unit {0};
  status = λ s. 1;
  after_status = λ s. s;
  data_byte = λ s. 0x1e;
  after_data = λ s. s;
  write_data = λ byte s. s;
  write_command = λ byte s. s;
}

abbrev local_apic : LocalApic
local_apic = record { ptr = local_base }

abbrev running : Static → World ps2 pc
running console = record {
  devices = tt;
  console = console;
  kernel = record { loaded = some idt; local_apic = some local_apic; state = start };
}

keyboard-ne-double_fault : keyboard_interrupt_handler ≢ double_fault_handler
keyboard-ne-double_fault = cc

timer-ne-double_fault : timer_interrupt_handler ≢ double_fault_handler
timer-ne-double_fault = cc

keyboard-ne-timer : keyboard_interrupt_handler ≢ timer_interrupt_handler
keyboard-ne-timer = cc

run-Acknowledges_example :
    Acknowledges ps2 pc local_apic
      (running static_console)
      (run ps2 pc keyboard_interrupt_handler (running static_console))
run-Acknowledges_example =
    run-Acknowledges ps2 pc local_apic keyboard_interrupt_handler (running static_console)
      empty_page keyboard-ne-double_fault refl static_console-IsUsable

run_all-Serves_example :
    Serves ps2 pc local_apic
      (timer_interrupt_handler ∷ keyboard_interrupt_handler ∷ [])
      (running static_console)
      (run_all ps2 pc
        (timer_interrupt_handler ∷ keyboard_interrupt_handler ∷ [])
        (running static_console))
run_all-Serves_example =
    run_all-Serves ps2 pc local_apic (timer_interrupt_handler ∷ keyboard_interrupt_handler ∷ [])
      (running static_console) empty_page (timer-ne-double_fault, (keyboard-ne-double_fault, tt))
      refl static_console-IsUsable

run-locked_example :
    run ps2 pc keyboard_interrupt_handler (running (record static_console { locked = true }))
    ≡ panic
run-locked_example =
    run-locked ps2 pc keyboard_interrupt_handler (running (record static_console { locked = true }))
      keyboard-ne-timer refl
