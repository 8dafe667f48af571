-- ===== src/Entry/Arriving.antt =====
-- The interrupts that arrive before the idle loop, and the last line of `main`.
use maizono_os.Base.{ℕ, ◌+◌, ◌*◌, ◌≡◌, refl, ◌∙◌, ap, true, false, some, List, [], ◌∷◌}
use maizono_os.Base.Exec.{done}
use maizono_os.Arch.{write_volatile}
use maizono_os.Arch.Hardware.{Machine}
use maizono_os.Arch.IoTable.{IsIoApic, entry}
use maizono_os.Arch.LocalApic
use maizono_os.Arch.LocalApic.{LocalApic}
use maizono_os.Graphic.Console.Text.{Page}
use maizono_os.Graphic.Static.{kprintln}
use maizono_os.Graphic.Static.Reach.{Prints}
use maizono_os.Interrupts.{Handler, timer_interrupt_handler}
use maizono_os.Interrupts.Handlers.{World, run, end_of_interrupt}
use maizono_os.Interrupts.Sequence.{All, run_all, ended, Serves}
use maizono_os.Ps2.Port.{Device}
use maizono_os.Entry
use maizono_os.Entry.{
  Platform, interrupt_world, with_interrupt, resumed, with_lock, arrive, say, say_during, printed,
}

-- Interrupts of the timer.
abbrev pub OnlyTimer : List Handler → Type 0
OnlyTimer = All (λ h. h ≡ timer_interrupt_handler)

-- An end-of-interrupt write of the local APIC does not reach the I/O APIC.
abbrev pub IsApart : {machine : Machine} {base : ℕ} → IsIoApic machine base → LocalApic → Type 0
IsApart {machine} io apic =
    (k : ℕ) (s : machine.State)
    → io.register (machine.store (apic.ptr + 0xb0) 0 s) k ≡ io.register s k

pub register-ended :
    {machine : Machine} {base : ℕ} (device : Device) (io : IsIoApic machine base) (apic : LocalApic)
    (handlers : List Handler) (k : ℕ) (s : machine.State)
    → IsApart io apic
    → io.register (ended device machine apic handlers s) k ≡ io.register s k
unfolding ended
register-ended device io apic [] k s apart = refl
register-ended {machine} device io apic (h ∷ rest) k s apart =
    register-ended device io apic rest k (machine.store (apic.ptr + 0xb0) 0 s) apart ∙ apart k s

pub entry-ended :
    {machine : Machine} {base : ℕ} (device : Device) (io : IsIoApic machine base) (apic : LocalApic)
    (handlers : List Handler) (s : machine.State)
    → IsApart io apic
    → (j : ℕ) → entry io (ended device machine apic handlers s) j ≡ entry io s j
entry-ended device io apic handlers s apart j =
    rw
      (
        register-ended device io apic handlers (0x10 + 2 * j) s apart,
        register-ended device io apic handlers (0x10 + 2 * j + 1) s apart,
      )
      refl

module _ (device : Device) (machine : Machine) where
  abbrev pub with_state : World device machine → machine.State → World device machine
  with_state w s = record w { kernel = record w.kernel { state = s } }

  run-timer :
      (apic : LocalApic) (h : Handler) (w : World device machine)
      → h ≡ timer_interrupt_handler
      → w.kernel.local_apic ≡ some apic
      → run device machine h w
        ≡ done tt (with_state w (machine.store (apic.ptr + 0xb0) 0 w.kernel.state))
  unfolding run end_of_interrupt LocalApic.write write_volatile
  run-timer apic h w timer e = rw (timer, e) refl

  -- The timer's handler changes the local APIC only.
  pub run_all-timer :
      (apic : LocalApic) (handlers : List Handler) (w : World device machine)
      → OnlyTimer handlers
      → w.kernel.local_apic ≡ some apic
      → run_all device machine handlers w
        ≡ done tt (with_state w (ended device machine apic handlers w.kernel.state))
  unfolding run_all ended
  run_all-timer apic [] w timers e = refl
  run_all-timer apic (h ∷ rest) w timers e =
      let s = machine.store (apic.ptr + 0xb0) 0 w.kernel.state in
      rw (run-timer apic h w timers.0 e) (run_all-timer apic rest (with_state w s) timers.1 e)

module _ (p : Platform) (w : Entry.World p) where
  pub arrive-step :
      {apic : LocalApic} (handlers : List Handler)
      → (serves : Serves p.device p.machine apic handlers
          (interrupt_world p w)
          (run_all p.device p.machine handlers (interrupt_world p w)))
      → arrive p handlers w ≡ done tt (with_interrupt p w serves.out)
  unfolding arrive
  arrive-step handlers serves = ap (resumed p w) serves.returns

  -- The world after the interrupts of the timer.
  abbrev pub ticked : LocalApic → List Handler → Entry.World p
  ticked apic handlers = record w {
    kernel = record w.kernel { state = ended p.device p.machine apic handlers w.kernel.state };
  }

  pub say_during-step :
      (apic : LocalApic) (handlers : List Handler) (pieces : List (List ℕ)) {page : Page}
      → OnlyTimer handlers
      → w.kernel.local_apic ≡ some apic
      → w.console.locked ≡ false
      → (prints : Prints page (kprintln pieces w.console))
      → say_during p handlers pieces w
        ≡ done tt (record (ticked apic handlers) { console = prints.out })
  unfolding say_during arrive say
  say_during-step apic handlers pieces timers e free prints =
      rw
        (
          free,
          run_all-timer p.device p.machine apic handlers (interrupt_world p (with_lock p w true))
              timers e,
        )
        (rw (← free) (ap (printed p (ticked apic handlers)) prints.returns))
