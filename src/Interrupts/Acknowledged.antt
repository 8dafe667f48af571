-- ===== src/Interrupts/Acknowledged.antt =====
-- How each handler ends: with the end-of-interrupt write, or with a panic while the console is locked.
use maizono_os.Base.{
  ℕ, zero, suc, ◌+◌, ◌≡◌, ◌≢◌, refl, ap, ◌∙◌, true, some, List, ◌⊎◌, inl, inr, Bool-cases,
}
use maizono_os.Base.Exec.{Exec, done, fail, panic, bind}
use maizono_os.Graphic.Console.Text.{Page}
use maizono_os.Graphic.FrameBuffer.{all_ascii}
use maizono_os.Graphic.Static.Reach.{IsUsable, all_pieces, kprintln-Prints, kprintln-locked}
use maizono_os.Ps2.Port.{Device}
use maizono_os.Ps2.Bits.{is_output_full}
use maizono_os.Ps2.Controller
use maizono_os.Ps2.Keyboard
use maizono_os.Arch.{Stuck, write_volatile}
use maizono_os.Arch.Hardware.{Machine}
use maizono_os.Arch.LocalApic
use maizono_os.Arch.LocalApic.{LocalApic}
use maizono_os.Interrupts.{
  Handler, keyboard_interrupt_handler, mouse_interrupt_handler, breakpoint_handler,
  double_fault_handler, timer_interrupt_handler,
}
use maizono_os.Interrupts.Handlers.{
  World, pressed, moved, breakpoint_occurred, say, end_of_interrupt, read_key, flush_mouse, run,
}

module _ (device : Device) (machine : Machine) where
  -- `result` is a normal return after the end-of-interrupt write, the only access of the handler to
  -- the local APIC, on a console that can print again.
  pub record Acknowledges (apic : LocalApic) (w : World device machine)
      (result : Exec (World device machine) Stuck (Unit {0})) : Type 0 where
    pub out : World device machine
    pub returns : result ≡ done tt out
    pub acknowledged : out.kernel.state ≡ machine.store (apic.ptr + 0xb0) 0 w.kernel.state
    pub same_apic : out.kernel.local_apic ≡ some apic
    pub same_loaded : out.kernel.loaded ≡ w.kernel.loaded
    pub page : Page
    pub usable : IsUsable page out.console

  -- The polling loop returns or times out.
  wait-never_panics :
      (n : ℕ) (s : device.State)
      → (u : device.State) × ((Controller.wait_for_read_from device n s ≡ done tt u)
          ⊎ (Controller.wait_for_read_from device n s ≡ fail Controller.timeout u))
  unfolding Controller.wait_for_read_from
  wait-never_panics zero s = (s, inr refl)
  wait-never_panics (suc n) s = elim (Bool-cases (is_output_full (device.status s))) [
    | inl full ↦ (device.after_status s, inl (rw full refl))
    | inr empty ↦ rw empty (wait-never_panics n (device.after_status s))
  ]

  read_key-returns :
      (w : World device machine)
      → (d : device.State) × (read_key device machine w ≡ done tt (record w { devices = d }))
  unfolding read_key Keyboard.read_data Controller.read_data Controller.wait_for_read
  read_key-returns w =
      let (u, waited) = wait-never_panics 1000 w.devices in
      elim waited [ inl e ↦ (device.after_data u, rw e refl) | inr e ↦ (u, rw e refl) ]

  flush_mouse-returns :
      (w : World device machine)
      → (d : device.State) × (flush_mouse device machine w ≡ done tt (record w { devices = d }))
  unfolding flush_mouse Controller.flush_data_port
  flush_mouse-returns w = (_, refl)

  end-Acknowledges :
      (apic : LocalApic) (w : World device machine) (p : Page)
      → w.kernel.local_apic ≡ some apic
      → IsUsable p w.console
      → Acknowledges apic w (end_of_interrupt device machine w)
  unfolding end_of_interrupt LocalApic.write write_volatile
  end-Acknowledges apic w p e u = record {
    out = record w {
      kernel = record w.kernel { state = machine.store (apic.ptr + 0xb0) 0 w.kernel.state };
    };
    returns = rw e refl;
    acknowledged = refl;
    same_apic = e;
    same_loaded = refl;
    page = p;
    usable = u;
  }

  -- What stands before the printing does not touch the local APIC.
  Acknowledges-before :
      {apic : LocalApic} {w v : World device machine}
      {r : Exec (World device machine) Stuck (Unit {0})}
      → v.kernel ≡ w.kernel
      → Acknowledges apic v r
      → Acknowledges apic w r
  Acknowledges-before {apic} same a = record {
    out = a.out;
    returns = a.returns;
    acknowledged = a.acknowledged ∙ ap (λ k. machine.store (apic.ptr + 0xb0) 0 k.state) same;
    same_apic = a.same_apic;
    same_loaded = a.same_loaded ∙ ap (λ k. k.loaded) same;
    page = a.page;
    usable = a.usable;
  }

  say-Acknowledges :
      (apic : LocalApic) (pieces : List (List ℕ)) (w : World device machine) (p : Page)
      → all_pieces pieces ≡ true
      → w.kernel.local_apic ≡ some apic
      → IsUsable p w.console
      → Acknowledges apic w
          (bind (say device machine pieces w) (λ u. end_of_interrupt device machine))
  unfolding say
  say-Acknowledges apic pieces w p ascii e u =
      let r = kprintln-Prints pieces w.console p ascii u in
      let ended = end-Acknowledges apic (record w { console = r.out }) _ e r.usable in
      rw r.returns (Acknowledges-before refl ended)

  -- On a usable console and with the local APIC set, every handler but that of the double fault returns
  -- after exactly one end-of-interrupt write, whatever the PS/2 device does, a timeout of the keyboard
  -- included, and the console is usable again.
  pub run-Acknowledges :
      (apic : LocalApic) (h : Handler) (w : World device machine) (p : Page)
      → h ≢ double_fault_handler
      → w.kernel.local_apic ≡ some apic
      → IsUsable p w.console
      → Acknowledges apic w (run device machine h w)
  unfolding run all_ascii
  run-Acknowledges apic keyboard_interrupt_handler w p other e u =
      let (d, r) = read_key-returns w in
      rw r (
        Acknowledges-before refl
          (say-Acknowledges apic pressed (record w { devices = d }) p refl e u))
  run-Acknowledges apic mouse_interrupt_handler w p other e u =
      let (d, r) = flush_mouse-returns w in
      rw r (
        Acknowledges-before refl
          (say-Acknowledges apic moved (record w { devices = d }) p refl e u))
  run-Acknowledges apic breakpoint_handler w p other e u =
      say-Acknowledges apic breakpoint_occurred w p refl e u
  run-Acknowledges apic double_fault_handler w p other e u = absurd (other refl)
  run-Acknowledges apic timer_interrupt_handler w p other e u = end-Acknowledges apic w p e u

  -- While the console is locked, as it is when the interrupted code prints, every handler but that of
  -- the timer panics.
  pub run-locked :
      (h : Handler) (w : World device machine)
      → h ≢ timer_interrupt_handler
      → w.console.locked ≡ true
      → run device machine h w ≡ panic
  unfolding run say
  run-locked keyboard_interrupt_handler w other locked =
      let (d, r) = read_key-returns w in rw (r, kprintln-locked pressed w.console locked) refl
  run-locked mouse_interrupt_handler w other locked =
      let (d, r) = flush_mouse-returns w in rw (r, kprintln-locked moved w.console locked) refl
  run-locked breakpoint_handler w other locked =
      rw (kprintln-locked breakpoint_occurred w.console locked) refl
  run-locked double_fault_handler w other locked = refl
  run-locked timer_interrupt_handler w other locked = absurd (other refl)
