-- ===== src/Entry/Running.antt =====
-- On a machine that answers as it should, `main` reaches its idle loop, and the kernel then handles
-- every sequence of interrupts.
use maizono_os.Base.{ℕ, ◌*◌, ◌<◌, ◌^◌, ◌≡◌, true, false, none, some, List, if◌then◌else◌, ltb}
use maizono_os.Base.Exec.{Exec, done}
use maizono_os.Acpi
use maizono_os.Acpi.{ApicInfo, io_apic_base}
use maizono_os.Acpi.Search.{fresh}
use maizono_os.Arch.{Stuck}
use maizono_os.Arch.LocalApic
use maizono_os.Arch.LocalApic.{LocalApic}
use maizono_os.Arch.IoTable.{IsIoApic, entry}
use maizono_os.Interrupts.{idt, Handler}
use maizono_os.Interrupts.Enabled.{IsLocalApic}
use maizono_os.Interrupts.Routing.{final_entry}
use maizono_os.Interrupts.Sequence.{NoDoubleFault, run_all, Serves}
use maizono_os.PhysMem
use maizono_os.PhysMem.{Descriptor}
use maizono_os.PhysMem.Init.{IsReady}
use maizono_os.Paging
use maizono_os.Paging.Walk.{walk}
use maizono_os.Gdt
use maizono_os.Pci
use maizono_os.Entry.{Platform, BootInfo, World, interrupt_world}

module _ (p : Platform) where
  -- The statics before `main`: no lock is taken, and nothing is initialised.
  pub record IsFresh (w : World p) : Type 0 where
    pub screen_free : w.console.terminal.screen.locked ≡ false
    pub console_free : w.console.locked ≡ false
    pub devices_free : w.devices.locked ≡ false
    pub tables : w.tables ≡ Paging.new
    pub acpi : w.acpi ≡ fresh
    pub local_apic : w.kernel.local_apic ≡ none
    pub frames : w.frames ≡ PhysMem.new

  module _ (info : BootInfo) (apic : ApicInfo) (io : IsIoApic p.machine (io_apic_base apic))
      (local : IsLocalApic p.machine apic.local_apic_base) where
    -- `result` is the idle loop: interrupts are enabled, the handlers are loaded and serve any sequence
    -- of interrupts, the I/O APIC routes as it should, the page tables are the identity map, and the
    -- frames of available memory are free.
    pub record IsRunning (result : Exec (World p) Stuck (Unit {0})) : Type 0 where
      pub out : World p
      pub returns : result ≡ done tt out
      pub enabled : out.interrupts_enabled ≡ true
      pub loaded : out.kernel.loaded ≡ some idt
      pub before : p.machine.State
      pub routes : (j : ℕ) → entry io out.kernel.state j ≡ final_entry io apic before j
      pub serves :
          (handlers : List Handler)
          → NoDoubleFault handlers
          → Serves p.device p.machine
              (LocalApic.new apic.local_apic_base)
              handlers
              (interrupt_world p out)
              (run_all p.device p.machine handlers (interrupt_world p out))
      pub cr3 : ℕ
      pub same_cr3 : out.cr3 ≡ some cr3
      pub translates :
          (va : ℕ)
          → va < 2 ^ 48
          → walk p.layout out.tables cr3 va ≡ (if ltb va (64 * 2 ^ 30) then some va else none)
      pub frames : IsReady p.types info.memory_map (some out.frames)
