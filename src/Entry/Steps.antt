-- ===== src/Entry/Steps.antt =====
-- Each step of `main`, when the part that it calls returns.
use maizono_os.Base.{ℕ, ◌≡◌, refl, ap, ◌∙◌, Bool, false, some, List, if◌then◌else◌}
use maizono_os.Base.Exec.{Exec, fail, done, M, bind, lift}
use maizono_os.Acpi
use maizono_os.Acpi.{ApicInfo, Statics, io_apic_base, processor_id}
use maizono_os.Interrupts.Setup
use maizono_os.PhysMem
use maizono_os.PhysMem.{BitmapMemoryManager, Descriptor}
use maizono_os.Paging
use maizono_os.Pci
use maizono_os.Pci.Access
use maizono_os.Error.{pci_error, device_lock_error}
use maizono_os.Pci.{scanned}
use maizono_os.Ps2.Init
use maizono_os.Graphic.Pixel.{GraphicInfo}
use maizono_os.Graphic.Screen
use maizono_os.Graphic.Console
use maizono_os.Graphic.Console.{Terminal}
use maizono_os.Graphic.Console.Text.{Page}
use maizono_os.Graphic.Console.Start.{IsStarted}
use maizono_os.Graphic.Static.{kprintln}
use maizono_os.Graphic.Static.Reach.{Prints}
use maizono_os.Graphic.Display.{IsFilled}
use maizono_os.Entry
use maizono_os.Entry.{
  Platform, BootInfo, World, main, init_frame_buffer, init_console, init_gdt, init_paging,
  init_devices, say, init_acpi, init_ps2, init_interrupts, enable, init_memory, drawn, screen_of,
  terminal_of, paged, stored, scanning, printed, controlled, interrupted, managed,
}

-- The next step of a `do` block.
pub bind-done :
    {S E A B : Type 0} (r : Exec S E A) (f : A → M S E B) {a : A} {s : S} {y : Exec S E B}
    → r ≡ done a s
    → f a s ≡ y
    → bind r f ≡ y
bind-done r f e h = rw e h

if-false : {A : Type 0} {b : Bool} (x y : A) → b ≡ false → (if b then x else y) ≡ y
if-false x y e = rw e refl

module _ (p : Platform) where
  abbrev pub with_terminal : World p → Terminal → World p
  with_terminal w t = record w { console = record w.console { terminal = t } }

  module _ (w : World p) where
    pub init_frame_buffer-step :
        (info : GraphicInfo)
        → (filled : IsFilled (Screen.init info 0x28282800 w.console.terminal.screen))
        → init_frame_buffer p info w
          ≡ done tt (with_terminal w (record w.console.terminal { screen = filled.out }))
    unfolding init_frame_buffer
    init_frame_buffer-step info filled =
        ap (λ r. drawn p w (screen_of p w.console.terminal r)) filled.returns

    pub init_console-step :
        w.console.locked ≡ false
        → (started : IsStarted 0x3c383600 0xebdbb200
            (Console.init 0x3c383600 0xebdbb200 w.console.terminal))
        → init_console p w ≡ done tt (with_terminal w started.out)
    unfolding init_console
    init_console-step free started =
        if-false _ _ free ∙ ap (λ r. drawn p w (terminal_of p r)) started.returns

    pub init_paging-step :
        (tables : Paging.Tables) (cr3 : ℕ)
        → Paging.init p.layout w.tables ≡ some (tables, cr3)
        → init_paging p w ≡ done tt (record w { tables = tables; cr3 = some cr3 })
    unfolding init_paging
    init_paging-step tables cr3 e = ap (paged p w) e

    pub init_devices-step :
        (elements : p.array.Array)
        → w.devices.locked ≡ false
        → Pci.init p.config p.array w.devices.elements ≡ scanned elements
        → init_devices p w
          ≡ done tt (record w { devices = record w.devices { elements = elements } })
    unfolding init_devices Access.devices
    init_devices-step elements free e =
        ap (scanning p w) (
          if-false (fail (pci_error device_lock_error) w.devices)
            (done w.devices.elements w.devices) free)
        ∙ ap (stored p w) e

    pub say-step :
        (pieces : List (List ℕ)) {page : Page}
        → (prints : Prints page (kprintln pieces w.console))
        → say p pieces w ≡ done tt (record w { console = prints.out })
    unfolding say
    say-step pieces prints = ap (printed p w) prints.returns

    pub init_acpi-step :
        (rsdp : ℕ) (statics : Statics)
        → Acpi.init p.tables rsdp w.acpi ≡ some statics
        → init_acpi p rsdp w ≡ done tt (record w { acpi = statics })
    unfolding init_acpi
    init_acpi-step rsdp statics e = ap (Entry.found p w) e

    pub init_ps2-step :
        (ps2 : p.device.State)
        → Init.init p.device w.ps2 ≡ done tt ps2
        → init_ps2 p w ≡ done tt (record w { ps2 = ps2 })
    unfolding init_ps2
    init_ps2-step ps2 e = ap (controlled p w) e

    pub init_interrupts-step :
        (fuel : ℕ) (apic : ApicInfo) (kernel : Setup.Kernel p.machine)
        → w.acpi.apic_info ≡ some apic
        → Setup.init p.machine fuel apic w.kernel ≡ done tt kernel
        → init_interrupts p fuel w ≡ done tt (record w { kernel = kernel })
    unfolding init_interrupts
    init_interrupts-step fuel apic kernel known e =
        bind-done _ _ (ap (λ o. lift o w) known) (ap (interrupted p w) e)

    pub init_memory-step :
        (memory_map : List Descriptor) (frames : BitmapMemoryManager)
        → PhysMem.init p.types w.frames memory_map ≡ some frames
        → init_memory p memory_map w ≡ done tt (record w { frames = frames })
    unfolding init_memory
    init_memory-step memory_map frames e = ap (managed p w) e
