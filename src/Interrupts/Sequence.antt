-- ===== src/Interrupts/Sequence.antt =====
-- Interrupts that arrive one after the other, each handled to its end.
use maizono_os.Base.{◌≡◌, ◌≢◌, refl, ◌∙◌, ◌+◌, ap, some, List, [], ◌∷◌}
use maizono_os.Base.Exec.{Exec, done, M, pure, ◌>>◌}
use maizono_os.Graphic.Console.Text.{Page}
use maizono_os.Graphic.Static.Reach.{IsUsable}
use maizono_os.Ps2.Port.{Device}
use maizono_os.Arch.{Stuck}
use maizono_os.Arch.Hardware.{Machine}
use maizono_os.Arch.LocalApic.{LocalApic}
use maizono_os.Interrupts.{Handler, double_fault_handler}
use maizono_os.Interrupts.Handlers.{World, run}
use maizono_os.Interrupts.Acknowledged.{run-Acknowledges}

-- Every element satisfies the predicate.
abbrev pub All : {A : Type 0} → (A → Type 0) → List A → Type 0
All P [] = Unit
All P (x ∷ xs) = P x × All P xs

-- Interrupts that are no double fault.
abbrev pub NoDoubleFault : List Handler → Type 0
NoDoubleFault = All (λ h. h ≢ double_fault_handler)

module _ (device : Device) (machine : Machine) where
  unfoldable pub run_all : List Handler → M (World device machine) Stuck (Unit {0})
  run_all [] = pure tt
  run_all (h ∷ rest) = run device machine h >> run_all rest

  -- The local APIC after one end-of-interrupt write for each handler.
  unfoldable pub ended : LocalApic → List Handler → machine.State → machine.State
  ended apic [] s = s
  ended apic (h ∷ rest) s = ended apic rest (machine.store (apic.ptr + 0xb0) 0 s)

  -- `result` is a normal return of a world that can handle the next interrupts.
  pub record Serves (apic : LocalApic) (handlers : List Handler) (w : World device machine)
      (result : Exec (World device machine) Stuck (Unit {0})) : Type 0 where
    pub out : World device machine
    pub returns : result ≡ done tt out
    pub acknowledged : out.kernel.state ≡ ended apic handlers w.kernel.state
    pub same_apic : out.kernel.local_apic ≡ some apic
    pub same_loaded : out.kernel.loaded ≡ w.kernel.loaded
    pub page : Page
    pub usable : IsUsable page out.console

  -- On a usable console and with the local APIC set, any sequence of interrupts without a double fault
  -- is handled to its end, with one end-of-interrupt write for each interrupt and no other access of
  -- the machine, and the console stays usable.
  pub run_all-Serves :
      (apic : LocalApic) (handlers : List Handler) (w : World device machine) (p : Page)
      → NoDoubleFault handlers
      → w.kernel.local_apic ≡ some apic
      → IsUsable p w.console
      → Serves apic handlers w (run_all handlers w)
  unfolding run_all ended
  run_all-Serves apic [] w p others e u = record {
    out = w;
    returns = refl;
    acknowledged = refl;
    same_apic = e;
    same_loaded = refl;
    page = p;
    usable = u;
  }
  run_all-Serves apic (h ∷ rest) w p others e u =
      let first = run-Acknowledges device machine apic h w p others.0 e u in
      let later =
        run_all-Serves apic rest first.out first.page others.1 first.same_apic first.usable in
      record {
        out = later.out;
        returns = rw first.returns later.returns;
        acknowledged = later.acknowledged ∙ ap (ended apic rest) first.acknowledged;
        same_apic = later.same_apic;
        same_loaded = later.same_loaded ∙ first.same_loaded;
        page = later.page;
        usable = later.usable;
      }
