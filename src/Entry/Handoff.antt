-- ===== src/Entry/Handoff.antt =====
-- From the bootloader to the idle loop: bootloader/src/main.rs hands the boot information to `main` of
-- kernel/src/main.rs.
use maizono_os.Base.{◌*◌, ◌+◌, ◌≤◌, ◌≡◌, List}
use maizono_os.Base.Checked.{word_limit}
use maizono_os.Boot.Firmware.{Firmware}
use maizono_os.Boot.Loader
use maizono_os.Graphic.Pixel.{
  GopFormats, Gop, GraphicInfo, PixelFormat, FormatResult, InfoResult, ok, err,
}
use maizono_os.PhysMem.{Descriptor}
use maizono_os.Pci
use maizono_os.Entry.{Platform, BootInfo}
use maizono_os.Arch.LocalApic

-- The mode of the graphics output holds the console, its lines have no gap, and its frame buffer lies
-- below the end of the address space.
pub record IsWide {g : GopFormats} (gop : Gop g) : Type 0 where
  pub no_gap : gop.stride ≡ gop.resolution.0
  pub wide : 1200 ≤ gop.resolution.0
  pub high : 400 ≤ gop.resolution.1
  pub fits : gop.frame_buffer_addr + gop.resolution.1 * gop.resolution.0 * 4 ≤ word_limit

abbrev info_with : {g : GopFormats} → Gop g → PixelFormat → GraphicInfo
info_with gop pixel_format = record {
  width = gop.resolution.0;
  height = gop.resolution.1;
  stride = gop.stride;
  bytes_per_pixel = 4;
  pixel_format = pixel_format;
  frame_buffer_addr = gop.frame_buffer_addr;
  size = gop.frame_buffer_size;
}

abbrev framed : {g : GopFormats} → Gop g → FormatResult → InfoResult
framed gop (ok pixel_format) = InfoResult.ok (info_with gop pixel_format)
framed gop (err e) = InfoResult.err e

module _ (fw : Firmware) (p : Platform) (descriptors : fw.MemoryMap → List Descriptor) where
  -- The boot information as the kernel reads it; `descriptors` are the entries of the memory map.
  abbrev pub handed : Loader.BootInfo fw → BootInfo
  handed info = record {
    graphic_info = info.graphic_info;
    memory_map = descriptors info.memory_map;
    rsdp_addr = info.rsdp_addr;
  }
