-- ===== src/Entry/Examples.antt =====
-- The theorem on `main` at a concrete machine.
use maizono_os.Base.{◌*◌, none, some, false, [], ◌∷◌}
use maizono_os.Acpi.Sample.{tables}
use maizono_os.Acpi.Search.{fresh}
use maizono_os.Interrupts.Sample.{pc, start}
use maizono_os.Pci.Sample.{tree, device_list}
use maizono_os.PhysMem
use maizono_os.PhysMem.Sample.{uefi_types, memory_map}
use maizono_os.Paging
use maizono_os.Paging.Sample.{layout}
use maizono_os.Ps2.Chip.{idle}
use maizono_os.Ps2.Sample.{device}
use maizono_os.Graphic.Pixel.{GraphicInfo, rgb}
use maizono_os.Graphic.Sample.{static_console}
use maizono_os.Entry.{Platform, BootInfo, Arrivals, World}
use maizono_os.Boot.Sample as Boot
use maizono_os.Boot.Sample.{kernel}
use maizono_os.Boot.Loader
use maizono_os.Arch.LocalApic
use maizono_os.Interrupts.{
  timer_interrupt_handler, keyboard_interrupt_handler, mouse_interrupt_handler,
}

-- The kernel prints "!" and "ok".
abbrev platform : Platform
platform = record {
  device = device;
  machine = pc;
  config = tree;
  array = device_list;
  tables = tables;
  layout = layout;
  selector = λ n. 8 * n;
  gdt_ptr = 0x200000;
  types = uefi_types;
  rsdp_text = λ rsdp. (0x21 ∷ []) ∷ [];
  finished_text = (0x6f ∷ 0x6b ∷ []) ∷ [];
}

abbrev graphic_info : GraphicInfo
graphic_info = record {
  width = 1200;
  height = 400;
  stride = 1200;
  bytes_per_pixel = 4;
  pixel_format = rgb;
  frame_buffer_addr = 0x80000000;
  size = 1920000;
}

abbrev boot_info : BootInfo
boot_info = record { graphic_info = graphic_info; memory_map = memory_map; rsdp_addr = some 0x500 }

abbrev world : World platform
world = record {
  console = static_console;
  gdt = none;
  tables = Paging.new;
  cr3 = none;
  devices = record { elements = []; locked = false };
  acpi = fresh;
  ps2 = idle 0x47;
  kernel = record { loaded = none; local_apic = none; state = start };
  interrupts_enabled = false;
  frames = PhysMem.new;
}

abbrev arrivals : Arrivals
arrivals = record {
  before_memory = timer_interrupt_handler ∷ keyboard_interrupt_handler ∷ [];
  after_memory = mouse_interrupt_handler ∷ [];
  while_printing = timer_interrupt_handler ∷ [];
}
