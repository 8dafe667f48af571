-- ===== src/Interrupts/Handlers.antt =====
-- kernel/src/interrupts.rs: the handlers.
use maizono_os.Base.{ℕ, Option, none, some, List, [], ◌∷◌}
use maizono_os.Base.Exec.{Exec, done, fail, panic, M, ◌>>◌}
use maizono_os.Ps2.Port.{Device}
use maizono_os.Ps2.Controller
use maizono_os.Ps2.Keyboard
use maizono_os.Graphic.Static.{Static, kprintln}
use maizono_os.Arch.{Stuck, out_of_fuel}
use maizono_os.Arch.Hardware.{Machine}
use maizono_os.Arch.LocalApic
use maizono_os.Arch.LocalApic.{LocalApic}
use maizono_os.Interrupts.{
  Handler, keyboard_interrupt_handler, mouse_interrupt_handler, breakpoint_handler,
  double_fault_handler, timer_interrupt_handler,
}
use maizono_os.Interrupts.Setup.{Kernel}

-- What the handlers read and change.
pub record World (device : Device) (machine : Machine) : Type 0 where
  pub devices : device.State
  pub console : Static
  pub kernel : Kernel machine

-- "pressed", "moved." and "breakpoint exception occured."
abbrev pub pressed : List (List ℕ)
pressed = (b'p' ∷ b'r' ∷ b'e' ∷ b's' ∷ b's' ∷ b'e' ∷ b'd' ∷ []) ∷ []

abbrev pub moved : List (List ℕ)
moved = (b'm' ∷ b'o' ∷ b'v' ∷ b'e' ∷ b'd' ∷ b'.' ∷ []) ∷ []

abbrev pub breakpoint_occurred : List (List ℕ)
breakpoint_occurred =
    (b'b' ∷ b'r' ∷ b'e' ∷ b'a' ∷ b'k' ∷ b'p' ∷ b'o' ∷ b'i' ∷ b'n' ∷ b't' ∷ b' ' ∷ b'e' ∷ b'x' ∷ b'c'
      ∷ b'e' ∷ b'p' ∷ b't' ∷ b'i' ∷ b'o' ∷ b'n' ∷ b' ' ∷ b'o' ∷ b'c' ∷ b'c' ∷ b'u' ∷ b'r' ∷ b'e'
      ∷ b'd' ∷ b'.' ∷ [])
    ∷ []

module _ (device : Device) (machine : Machine) where
  abbrev pub Io : Type 0
  Io = M (World device machine) Stuck (Unit {0})

  -- A call of the PS/2 code whose result is dropped.
  abbrev pub dropped :
      {E A : Type 0}
      → World device machine
      → Exec device.State E A
      → Exec (World device machine) Stuck (Unit {0})
  dropped w (done a s) = done tt (record w { devices = s })
  dropped w (fail e s) = done tt (record w { devices = s })
  dropped w panic = panic

  abbrev pub printed :
      World device machine → Option Static → Exec (World device machine) Stuck (Unit {0})
  printed w (some console) = done tt (record w { console = console })
  printed w none = panic

  unfoldable pub say : List (List ℕ) → Io
  say pieces w = printed w (kprintln pieces w.console)

  -- `LOCAL_APIC.wait()` spins until the static is written.
  abbrev pub acknowledged :
      World device machine → Option LocalApic → Exec (World device machine) Stuck (Unit {0})
  acknowledged w none = fail out_of_fuel w
  acknowledged w (some apic) =
      elim (LocalApic.write_end_of_interrupt_register machine apic 0 w.kernel.state) [
        | done u s ↦ done tt (record w { kernel = record w.kernel { state = s } })
        | fail e s ↦ fail e (record w { kernel = record w.kernel { state = s } })
        | panic ↦ panic
      ]

  unfoldable pub end_of_interrupt : Io
  end_of_interrupt w = acknowledged w w.kernel.local_apic

  unfoldable pub read_key : Io
  read_key w = dropped w (Keyboard.read_data device w.devices)

  unfoldable pub flush_mouse : Io
  flush_mouse w = dropped w (Controller.flush_data_port device w.devices)

  unfoldable pub run : Handler → Io
  unfolding say end_of_interrupt read_key flush_mouse
  run keyboard_interrupt_handler = read_key >> (say pressed >> end_of_interrupt)
  run mouse_interrupt_handler = flush_mouse >> (say moved >> end_of_interrupt)
  run breakpoint_handler = say breakpoint_occurred >> end_of_interrupt
  run double_fault_handler = λ w. panic
  run timer_interrupt_handler = end_of_interrupt
