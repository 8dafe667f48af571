-- ===== src/Entry.antt =====
-- kernel/src/main.rs: `main`, the initialisations in their order up to the idle loop. Of what is
-- printed, only the two lines of `main` itself are modelled.
pub mod Stack
pub mod Arriving
pub mod Steps
pub mod Running
pub mod Handoff
mod Examples
use maizono_os.Base.{ℕ, Bool, true, false, Option, none, some, List, if◌then◌else◌}
use maizono_os.Base.Exec.{Exec, done, fail, panic, M, lift, ◌>>=◌, ◌>>◌}
use maizono_os.Graphic.Pixel.{GraphicInfo}
use maizono_os.Graphic.Screen
use maizono_os.Graphic.Console
use maizono_os.Graphic.Console.{Terminal}
use maizono_os.Graphic.Static.{Static, kprintln}
use maizono_os.Gdt
use maizono_os.Paging
use maizono_os.Pci
use maizono_os.Pci.Access
use maizono_os.Error.{Error}
use maizono_os.Pci.{DeviceArray, Outcome, running, panicked, scanned}
use maizono_os.Acpi
use maizono_os.Ps2.Port.{Device}
use maizono_os.Ps2.Init
use maizono_os.Arch.{Stuck, out_of_fuel}
use maizono_os.Arch.Hardware.{Machine}
use maizono_os.Interrupts.{Handler}
use maizono_os.Interrupts.Handlers
use maizono_os.Interrupts.Sequence.{run_all}
use maizono_os.Interrupts.Setup
use maizono_os.PhysMem
use maizono_os.PhysMem.{MemoryTypes, Descriptor, BitmapMemoryManager}

-- What the parts take from the hardware, the linker and the crates.
pub record Platform : Type 1 where
  pub device : Device
  pub machine : Machine
  pub config : ℕ → ℕ
  pub array : DeviceArray
  pub tables : Acpi.Tables
  pub layout : Paging.Layout
  pub selector : ℕ → ℕ
  pub gdt_ptr : ℕ
  pub types : MemoryTypes
  pub rsdp_text : ℕ → List (List ℕ)
  pub finished_text : List (List ℕ)

-- The boot information, with the memory map as its descriptors.
pub record BootInfo : Type 0 where
  pub graphic_info : GraphicInfo
  pub memory_map : List Descriptor
  pub rsdp_addr : Option ℕ

-- The interrupts between `enable` and the idle loop: before and after `physmem::init`, which no
-- handler takes part in, and while the last line is printed.
pub record Arrivals : Type 0 where
  pub before_memory : List Handler
  pub after_memory : List Handler
  pub while_printing : List Handler

module _ (p : Platform) where
  -- The statics of the kernel, and what the processor has loaded.
  pub record World : Type 0 where
    pub console : Static
    pub gdt : Option Gdt.Loaded
    pub tables : Paging.Tables
    pub cr3 : Option ℕ
    pub devices : Access.Devices p.array
    pub acpi : Acpi.Statics
    pub ps2 : p.device.State
    pub kernel : Setup.Kernel p.machine
    pub interrupts_enabled : Bool
    pub frames : BitmapMemoryManager

  abbrev pub Step : Type 0
  Step = M World Stuck (Unit {0})

  -- `.unwrap()` on a call of the frame buffer or the console, whose locks are free or not.
  abbrev pub drawn : World → Option Terminal → Exec World Stuck (Unit {0})
  drawn w none = panic
  drawn w (some t) = done tt (record w { console = record w.console { terminal = t } })

  abbrev pub screen_of : {E : Type 0} → Terminal → Exec Screen.Screen E (Unit {0}) → Option Terminal
  screen_of t (done u s) = some (record t { screen = s })
  screen_of t (fail e s) = none
  screen_of t panic = none

  abbrev pub terminal_of : {E : Type 0} → Exec Terminal E (Unit {0}) → Option Terminal
  terminal_of (done u t) = some t
  terminal_of (fail e t) = none
  terminal_of panic = none

  unfoldable pub init_frame_buffer : GraphicInfo → Step
  init_frame_buffer info w =
      drawn w (screen_of w.console.terminal (Screen.init info 0x28282800 w.console.terminal.screen))

  unfoldable pub init_console : Step
  init_console w =
      if w.console.locked
      then panic
      else drawn w (terminal_of (Console.init 0x3c383600 0xebdbb200 w.console.terminal))

  unfoldable pub init_gdt : Step
  init_gdt w = done tt (record w { gdt = some (Gdt.init p.selector p.gdt_ptr) })

  abbrev pub paged : World → Option (Paging.Tables × ℕ) → Exec World Stuck (Unit {0})
  paged w none = panic
  paged w (some (tables, cr3)) = done tt (record w { tables = tables; cr3 = some cr3 })

  unfoldable pub init_paging : Step
  init_paging w = paged w (Paging.init p.layout w.tables)

  abbrev pub stored : World → Outcome p.array.Array → Exec World Stuck (Unit {0})
  stored w running = fail out_of_fuel w
  stored w panicked = panic
  stored w (scanned elements) =
      done tt (record w { devices = record w.devices { elements = elements } })

  -- `.unwrap()` on the lock, and the scan.
  abbrev pub scanning :
      World → Exec (Access.Devices p.array) Error p.array.Array → Exec World Stuck (Unit {0})
  scanning w (done elements d) = stored w (Pci.init p.config p.array elements)
  scanning w (fail e d) = panic
  scanning w panic = panic

  unfoldable pub init_devices : Step
  unfolding Access.devices
  init_devices w = scanning w (Access.devices p.array w.devices)

  abbrev pub printed : World → Option Static → Exec World Stuck (Unit {0})
  printed w none = panic
  printed w (some console) = done tt (record w { console = console })

  unfoldable pub say : List (List ℕ) → Step
  say pieces w = printed w (kprintln pieces w.console)

  abbrev pub found : World → Option Acpi.Statics → Exec World Stuck (Unit {0})
  found w none = panic
  found w (some acpi) = done tt (record w { acpi = acpi })

  unfoldable pub init_acpi : ℕ → Step
  init_acpi rsdp w = found w (Acpi.init p.tables rsdp w.acpi)

  abbrev pub controlled :
      {E : Type 0} → World → Exec p.device.State E (Unit {0}) → Exec World Stuck (Unit {0})
  controlled w (done u s) = done tt (record w { ps2 = s })
  controlled w (fail e s) = panic
  controlled w panic = panic

  unfoldable pub init_ps2 : Step
  init_ps2 w = controlled w (Init.init p.device w.ps2)

  abbrev pub interrupted :
      World → Exec (Setup.Kernel p.machine) Stuck (Unit {0}) → Exec World Stuck (Unit {0})
  interrupted w (done u k) = done tt (record w { kernel = k })
  interrupted w (fail e k) = fail e (record w { kernel = k })
  interrupted w panic = panic

  -- `get_apic_info` panics before `acpi::init`.
  unfoldable pub init_interrupts : ℕ → Step
  init_interrupts fuel = do
    info ← λ w. lift w.acpi.apic_info w
    λ w. interrupted w (Setup.init p.machine fuel info w.kernel)

  unfoldable pub enable : Step
  enable w = done tt (record w { interrupts_enabled = true })

  abbrev pub managed : World → Option BitmapMemoryManager → Exec World Stuck (Unit {0})
  managed w none = panic
  managed w (some frames) = done tt (record w { frames = frames })

  unfoldable pub init_memory : List Descriptor → Step
  init_memory memory_map w = managed w (PhysMem.init p.types w.frames memory_map)

  -- What the handlers read and change of the kernel.
  abbrev pub interrupt_world : World → Handlers.World p.device p.machine
  interrupt_world w = record { devices = w.ps2; console = w.console; kernel = w.kernel }

  abbrev pub with_interrupt : World → Handlers.World p.device p.machine → World
  with_interrupt w v = record w { ps2 = v.devices; console = v.console; kernel = v.kernel }

  abbrev pub resumed :
      World
      → Exec (Handlers.World p.device p.machine) Stuck (Unit {0})
      → Exec World Stuck (Unit {0})
  resumed w (done u v) = done tt (with_interrupt w v)
  resumed w (fail e v) = fail e (with_interrupt w v)
  resumed w panic = panic

  -- Interrupts that are handled one after the other before the next step.
  unfoldable pub arrive : List Handler → Step
  arrive handlers w = resumed w (run_all p.device p.machine handlers (interrupt_world w))

  abbrev pub with_lock : World → Bool → World
  with_lock w locked = record w { console = record w.console { locked = locked } }

  -- Printing, with interrupts that arrive while the console is locked.
  unfoldable pub say_during : List Handler → List (List ℕ) → Step
  unfolding arrive say
  say_during handlers pieces w =
      if w.console.locked
      then panic
      else (arrive handlers >> λ v. say pieces (with_lock v false)) (with_lock w true)

  -- A normal return is the idle loop.
  unfoldable pub main : ℕ → BootInfo → Arrivals → Step
  unfolding init_frame_buffer init_console init_gdt init_paging init_devices say init_acpi init_ps2
      init_interrupts enable init_memory arrive say_during
  main fuel info arrivals = do
    init_frame_buffer info.graphic_info
    init_console
    init_gdt
    init_paging
    init_devices
    rsdp ← lift info.rsdp_addr
    say (p.rsdp_text rsdp)
    init_acpi rsdp
    init_ps2
    init_interrupts fuel
    enable
    arrive arrivals.before_memory
    init_memory info.memory_map
    arrive arrivals.after_memory
    say_during arrivals.while_printing p.finished_text
